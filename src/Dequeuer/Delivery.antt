-- ===== src/Dequeuer/Delivery.antt =====
-- What becomes of a message over a history: it is not lost, and what the publisher accepted stays so.
use mathlib.Core.List.{Mem, mem-cons_of_mem}
use proofplane.Prelude.{
  ℕ, ◌≡◌, refl, subst, inl, inr, some, List, [], ◌∷◌, Bool-cases, Result, ok, err,
}
use proofplane.Dequeuer.History.{runs, appends, Event, occur, history, appended, occur-IsKeyed}
use proofplane.Dequeuer.Kept.{StillAt, Kept, acceptance-rescheduled}
use proofplane.Dequeuer.Lossless.{run_once-Kept}
use proofplane.Dequeuer.Publishing.{
  published, failed, Publisher, OutboxDequeuerConfig, Attempt, PublishOutcome, publish_outbox_row,
  panicked,
}
use proofplane.Dequeuer.Run.{
  settle, publish_rows, run_once, World, publish_row, next_fault, and_then,
}
use proofplane.Domain.Ids.{DateTime}
use proofplane.Messaging.Serde.{Serde}
use proofplane.Outbox.Keys.{IsKeyed, append_outbox_message-inserted_row}
use proofplane.Outbox.Lookup.{find_row, find_row-append}
use proofplane.Outbox.Rows.{
  PersistenceError, OutboxMessage, OutboxRow, NewOutboxMessage, outbox_message_from_row,
  rescheduled, outbox_message_from_row-rescheduled,
}
use proofplane.Outbox.Table.{list_due_outbox_messages, Outbox, append_outbox_message}

module _ {Value : Type 0} (s : Serde Value) (publisher : Publisher)
    (config : OutboxDequeuerConfig) where
  and_then-log :
      {A B : Type 0} (a : Attempt) (result : Result A PersistenceError × World Value)
      (k : A → World Value → Result B PersistenceError × World Value)
      → Mem a result.1.log
      → ((x : A) → Mem a (k x result.1).1.log)
      → Mem a (and_then result k).1.log
  and_then-log a (ok x, w) k v h = h x
  and_then-log a (err e, w) k v h = v

  settle-log :
      (a : Attempt) (row : OutboxMessage Value) (outcome : PublishOutcome) (w : World Value)
      → Mem a w.log
      → Mem a (settle s publisher config row outcome w).1.log
  unfolding settle
  settle-log a row published w v = elim (Bool-cases (next_fault w.faults)) [
    | inl broken ↦ rw broken v
    | inr works ↦ rw works v
  ]
  settle-log a row (failed error at exhausted) w v = elim (Bool-cases (next_fault w.faults)) [
    | inl broken ↦ rw broken v
    | inr works ↦ rw works v
  ]
  settle-log a row panicked w v = v

  publish_rows-log :
      (a : Attempt) (rows : List (OutboxMessage Value)) (count : ℕ) (now : DateTime)
      (w : World Value)
      → Mem a w.log
      → Mem a (publish_rows s publisher config rows count now w).1.log
  unfolding publish_rows publish_row publish_outbox_row
  publish_rows-log a [] count now w v = v
  publish_rows-log a (row ∷ rows) count now w v =
      let step = settle-log a row _ _ (mem-cons_of_mem _ v) in
      and_then-log a (publish_row s publisher config row now w) _ step
        (λ done. publish_rows-log a rows _ now _ step)

  listed-log :
      (a : Attempt) (listed : Result (List (OutboxMessage Value)) PersistenceError) (now : DateTime)
      (v : World Value)
      → Mem a v.log
      → Mem a (and_then (listed, v) (λ ms u. publish_rows s publisher config ms 0 now u)).1.log
  listed-log a (ok ms) now v h = publish_rows-log a ms 0 now v h
  listed-log a (err e) now v h = h

  run_once-log :
      (a : Attempt) (now : DateTime) (w : World Value)
      → Mem a w.log
      → Mem a (run_once s publisher config now w).1.log
  unfolding run_once
  run_once-log a now w v = elim (Bool-cases (next_fault w.faults)) [
    | inl broken ↦ rw broken v
    | inr works ↦
        rw works (listed-log a (list_due_outbox_messages now config.batch_size w.outbox) now _ v)
  ]

  run_once-StillAt :
      (now : DateTime) (w : World Value) (j : ℕ) (r : OutboxRow Value) (m : OutboxMessage Value)
      → IsKeyed w.outbox
      → outbox_message_from_row r ≡ ok m
      → StillAt j r w
      → Kept s j r m (run_once s publisher config now w).1
  run_once-StillAt now w j r m keyed read (n, at, found) =
      elim (run_once-Kept s publisher config now w j (rescheduled r n at) (rescheduled m n at) keyed
        found (outbox_message_from_row-rescheduled r m n at read)) [
          | inl still ↦ inl still
          | inr accepted ↦ inr (
              subst (λ a. Mem a (run_once s publisher config now w).1.log)
                (acceptance-rescheduled s m n at) accepted)
        ]

  appended-Kept :
      (now : DateTime) (message : NewOutboxMessage) (w : World Value) (t : Outbox Value)
      (l : OutboxMessage Value) (j : ℕ) (r : OutboxRow Value) (m : OutboxMessage Value)
      → append_outbox_message s now message w.outbox ≡ ok (t, l)
      → Kept s j r m w
      → Kept s j r m (record w { outbox = t })
  appended-Kept now message w t l j r m h (inr accepted) = inr accepted
  appended-Kept now message w t l j r m h (inl (n, at, found)) =
      let (value, _, _, e) = append_outbox_message-inserted_row s now message w.outbox t l h in
      inl (n, at, rw e (find_row-append j w.outbox.rows _ _ found))

  occur-Kept :
      (w : World Value) (e : Event) (j : ℕ) (r : OutboxRow Value) (m : OutboxMessage Value)
      → IsKeyed w.outbox
      → outbox_message_from_row r ≡ ok m
      → Kept s j r m w
      → Kept s j r m (occur s publisher config w e)
  occur-Kept w (runs now) j r m keyed read (inl still) =
      run_once-StillAt now w j r m keyed read still
  occur-Kept w (runs now) j r m keyed read (inr accepted) = inr (run_once-log _ now w accepted)
  occur-Kept w (appends now message) j r m keyed read kept =
      elim (append_outbox_message s now message w.outbox)
          as (λ answer.
            append_outbox_message s now message w.outbox ≡ answer
            → Kept s j r m (appended s publisher config answer w)) [
              | ok (t, l) ↦ λ e. appended-Kept now message w t l j r m e kept
              | err error ↦ λ _. kept
            ]
        refl

  -- Let the identifiers in the outbox be distinct and below the next one, and let a row be in it
  -- that can be read. After any runs of the dequeuer and any appended messages, whatever the
  -- publisher answers and whenever the database fails, the row is still there, with no other change
  -- than in its count of attempts and its next instant, or the publisher has accepted its message
  -- on its topic.
  pub history-Kept :
      (w : World Value) (es : List Event) (j : ℕ) (r : OutboxRow Value) (m : OutboxMessage Value)
      → IsKeyed w.outbox
      → find_row j w.outbox.rows ≡ some r
      → outbox_message_from_row r ≡ ok m
      → Kept s j r m (history s publisher config w es)
  history-Kept w es j r m keyed found read =
      from_Kept w es keyed (inl (r.attempt_count, r.next_available_at, found))
    where
      from_Kept :
          (w : World Value) (es : List Event)
          → IsKeyed w.outbox
          → Kept s j r m w
          → Kept s j r m (history s publisher config w es)
      from_Kept w [] keyed kept = kept
      from_Kept w (e ∷ es) keyed kept =
          from_Kept (occur s publisher config w e) es (occur-IsKeyed s publisher config w e keyed)
            (occur-Kept w e j r m keyed read kept)
