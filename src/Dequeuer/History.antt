-- ===== src/Dequeuer/History.antt =====
-- Runs of the dequeuer and transactions that append messages, one after the other.
use proofplane.Prelude.{ℕ, ◌≡◌, refl, inl, inr, List, [], ◌∷◌, Bool-cases, Result, ok, err}
use proofplane.Dequeuer.Publishing.{
  published, failed, Publisher, OutboxDequeuerConfig, PublishOutcome, panicked,
}
use proofplane.Dequeuer.Run.{
  World, settle, publish_rows, run_once, publish_row, and_then, next_fault,
}
use proofplane.Domain.Ids.{DateTime}
use proofplane.Messaging.Serde.{Serde}
use proofplane.Outbox.Keys.{
  IsKeyed, append_outbox_message-IsKeyed, delete_outbox_message-IsKeyed,
  record_outbox_publish_failure-IsKeyed,
}
use proofplane.Outbox.Rows.{NewOutboxMessage, PersistenceError, OutboxMessage}
use proofplane.Outbox.Table.{Outbox, append_outbox_message, list_due_outbox_messages}

pub data Event : Type 0 where
  runs : DateTime → Event
  appends : DateTime → NewOutboxMessage → Event

module _ {Value : Type 0} (s : Serde Value) (publisher : Publisher)
    (config : OutboxDequeuerConfig) where
  -- A transaction that fails is rolled back.
  abbrev pub appended :
      Result (Outbox Value × OutboxMessage Value) PersistenceError → World Value → World Value
  appended (ok (t, _)) w = record w { outbox = t }
  appended (err _) w = w

  abbrev pub occur : World Value → Event → World Value
  occur w (runs now) = (run_once s publisher config now w).1
  occur w (appends now message) = appended (append_outbox_message s now message w.outbox) w

  abbrev pub history : World Value → List Event → World Value
  history w [] = w
  history w (e ∷ es) = history (occur w e) es

  and_then-IsKeyed :
      {A B : Type 0} (result : Result A PersistenceError × World Value)
      (k : A → World Value → Result B PersistenceError × World Value)
      → IsKeyed result.1.outbox
      → ((a : A) → IsKeyed (k a result.1).1.outbox)
      → IsKeyed (and_then result k).1.outbox
  and_then-IsKeyed (ok a, w) k v h = h a
  and_then-IsKeyed (err e, w) k v h = v

  pub settle-IsKeyed :
      (row : OutboxMessage Value) (outcome : PublishOutcome) (w : World Value)
      → IsKeyed w.outbox
      → IsKeyed (settle s publisher config row outcome w).1.outbox
  unfolding settle
  settle-IsKeyed row published w v = elim (Bool-cases (next_fault w.faults)) [
    | inl broken ↦ rw broken v
    | inr works ↦ rw works (delete_outbox_message-IsKeyed row.id w.outbox v)
  ]
  settle-IsKeyed row (failed error at exhausted) w v = elim (Bool-cases (next_fault w.faults)) [
    | inl broken ↦ rw broken v
    | inr works ↦ rw works (record_outbox_publish_failure-IsKeyed row.id at w.outbox v)
  ]
  settle-IsKeyed row panicked w v = v

  publish_rows-IsKeyed :
      (rows : List (OutboxMessage Value)) (count : ℕ) (now : DateTime) (w : World Value)
      → IsKeyed w.outbox
      → IsKeyed (publish_rows s publisher config rows count now w).1.outbox
  unfolding publish_rows publish_row
  publish_rows-IsKeyed [] count now w v = v
  publish_rows-IsKeyed (row ∷ rows) count now w v =
      let step = settle-IsKeyed row _ _ v in
      and_then-IsKeyed (publish_row s publisher config row now w) _ step
        (λ done. publish_rows-IsKeyed rows _ now _ step)

  listed-IsKeyed :
      (listed : Result (List (OutboxMessage Value)) PersistenceError) (now : DateTime)
      (v : World Value)
      → IsKeyed v.outbox
      → IsKeyed (and_then (listed, v) (λ ms u. publish_rows s publisher config ms 0 now u)).1.outbox
  listed-IsKeyed (ok ms) now v h = publish_rows-IsKeyed ms 0 now v h
  listed-IsKeyed (err e) now v h = h

  pub run_once-IsKeyed :
      (now : DateTime) (w : World Value)
      → IsKeyed w.outbox
      → IsKeyed (run_once s publisher config now w).1.outbox
  unfolding run_once
  run_once-IsKeyed now w v = elim (Bool-cases (next_fault w.faults)) [
    | inl broken ↦ rw broken v
    | inr works ↦
        rw works (listed-IsKeyed (list_due_outbox_messages now config.batch_size w.outbox) now _ v)
  ]

  pub occur-IsKeyed : (w : World Value) (e : Event) → IsKeyed w.outbox → IsKeyed (occur w e).outbox
  occur-IsKeyed w (runs now) v = run_once-IsKeyed now w v
  occur-IsKeyed w (appends now message) v =
      elim (append_outbox_message s now message w.outbox)
          as (λ answer.
            append_outbox_message s now message w.outbox ≡ answer
            → IsKeyed (appended answer w).outbox) [
              | ok (t, m) ↦ λ e. append_outbox_message-IsKeyed s now message w.outbox t m v e
              | err error ↦ λ _. v
            ]
        refl
