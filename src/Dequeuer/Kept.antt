-- ===== src/Dequeuer/Kept.antt =====
-- No message is lost: it stays in the table until the publisher has accepted it.
use mathlib.Core.List.{Mem, mem-cons_self, mem-cons_of_mem}
use proofplane.Prelude.{
  ℕ, ◌+◌, ◌≡◌, refl, subst, ◌⊎◌, inl, inr, Bool, true, Option, none, some, List, [], ◌∷◌, ◌==◌,
  ==_iff, Bool-cases, All, Result, ok, err,
}
use proofplane.Text.{Text}
use proofplane.Dequeuer.Publishing.{
  published, failed, Publisher, Attempt, outbound_message, OutboxDequeuerConfig, legacy_json,
  message_json, publish_outbox_row, publish_failure, outcome_of, attempt, failed_until,
}
use proofplane.Dequeuer.Run.{World, settle, publish_row, next_fault, publish_rows, and_then}
use proofplane.Domain.Ids.{DateTime}
use proofplane.Messaging.Serde.{Serde}
use proofplane.Outbox.Lookup.{find_row, find_row-delete_rows, find_row-failed_rows}
use proofplane.Outbox.Rows.{OutboxRow, OutboxMessage, PersistenceError, rescheduled}
use proofplane.Outbox.Table.{delete_outbox_message, record_outbox_publish_failure}
use mathlib.Core.List.{Mem, mem-cons_self, mem-cons_of_mem}

-- Between its appending and its publication, only these two columns of a row change.
abbrev pub StillAt : {Value : Type 0} → ℕ → OutboxRow Value → World Value → Type 0
StillAt j r w =
    (attempts : ℕ) × (at : DateTime) × (find_row j w.outbox.rows ≡ some (rescheduled r attempts at))

module _ {Value : Type 0} (s : Serde Value) where
  abbrev pub acceptance : OutboxMessage Value → Attempt
  acceptance m = record { topic = m.topic; message = outbound_message s m; accepted = true }

  -- The row at an identifier is there still, or its message was accepted.
  abbrev pub Kept : ℕ → OutboxRow Value → OutboxMessage Value → World Value → Type 0
  Kept j r m w = StillAt j r w ⊎ Mem (acceptance m) w.log

  -- The columns that change do not occur in the message.
  pub acceptance-rescheduled :
      (m : OutboxMessage Value) (attempts : ℕ) (at : DateTime)
      → acceptance (record m { attempt_count = attempts; next_available_at = at }) ≡ acceptance m
  unfolding outbound_message legacy_json message_json
  acceptance-rescheduled m attempts at = refl

  module _ (publisher : Publisher) (config : OutboxDequeuerConfig) where
    settle-published-Kept :
        (row : OutboxMessage Value) (w : World Value) (j : ℕ) (r : OutboxRow Value)
        (m : OutboxMessage Value)
        → (row.id ≡ j → Mem (acceptance m) w.log)
        → Kept j r m w
        → Kept j r m (settle s publisher config row published w).1
    unfolding settle delete_outbox_message
    settle-published-Kept row w j r m sent (inr accepted) =
        elim (Bool-cases (next_fault w.faults)) [
          | inl broken ↦ rw broken (inr accepted)
          | inr works ↦ rw works (inr accepted)
        ]
    settle-published-Kept row w j r m sent (inl (n, at, found)) =
        elim (Bool-cases (next_fault w.faults)) [
          | inl broken ↦ rw broken (inl (n, at, found))
          | inr works ↦ elim (Bool-cases (row.id == j)) [
            | inl mine ↦ rw works (inr (sent ((==_iff row.id j).0 mine)))
            | inr other ↦
                rw works
                  (inl (n, at, rw (find_row-delete_rows row.id j w.outbox.rows, other) found))
          ]
        ]

    settle-failed-Kept :
        (row : OutboxMessage Value) (error : Text) (at : DateTime) (exhausted : Bool)
        (w : World Value) (j : ℕ) (r : OutboxRow Value) (m : OutboxMessage Value)
        → Kept j r m w
        → Kept j r m (settle s publisher config row (failed error at exhausted) w).1
    unfolding settle record_outbox_publish_failure
    settle-failed-Kept row error at exhausted w j r m (inr accepted) =
        elim (Bool-cases (next_fault w.faults)) [
          | inl broken ↦ rw broken (inr accepted)
          | inr works ↦ rw works (inr accepted)
        ]
    settle-failed-Kept row error at exhausted w j r m (inl (n, t, found)) =
        elim (Bool-cases (next_fault w.faults)) [
          | inl broken ↦ rw broken (inl (n, t, found))
          | inr works ↦ elim (Bool-cases (row.id == j)) [
            | inl mine ↦ rw works (
                inl (
                  n + 1,
                  at,
                  rw (find_row-failed_rows row.id j at w.outbox.rows, mine, found) refl,
                ))
            | inr other ↦
                rw works (
                  inl
                    (n, t, rw (find_row-failed_rows row.id j at w.outbox.rows, other, found) refl))
          ]
        ]

    -- An attempt joins the log.
    Kept-attempt :
        (a : Attempt) (w : World Value) (j : ℕ) (r : OutboxRow Value) (m : OutboxMessage Value)
        → Kept j r m w
        → Kept j r m (record w { log = a ∷ w.log })
    Kept-attempt a w j r m (inl there) = inl there
    Kept-attempt a w j r m (inr accepted) = inr (mem-cons_of_mem a accepted)

    -- A failure, whether or not the next attempt has an instant.
    failed_until-Kept :
        (row : OutboxMessage Value) (error : Text) (exhausted : Bool) (at : Option DateTime)
        (w : World Value) (j : ℕ) (r : OutboxRow Value) (m : OutboxMessage Value)
        → Kept j r m w
        → Kept j r m (settle s publisher config row (failed_until error exhausted at) w).1
    unfolding settle
    failed_until-Kept row error exhausted none w j r m kept = kept
    failed_until-Kept row error exhausted (some at) w j r m kept =
        settle-failed-Kept row error at exhausted w j r m kept

    answered-Kept :
        (row : OutboxMessage Value) (now : DateTime) (answer : Option Text) (w : World Value)
        (j : ℕ) (r : OutboxRow Value) (m : OutboxMessage Value)
        → (row.id ≡ j → acceptance row ≡ acceptance m)
        → Kept j r m w
        → Kept j r m
            (settle s publisher config row
              (outcome_of config row now answer)
              (record w { log = attempt s row answer ∷ w.log })).1
    unfolding outcome_of publish_failure
    answered-Kept row now none w j r m same kept =
        settle-published-Kept row _ j r m
          (λ mine. subst (λ a. Mem a (acceptance row ∷ w.log)) (same mine) mem-cons_self)
          (Kept-attempt _ w j r m kept)
    answered-Kept row now (some error) w j r m same kept =
        failed_until-Kept row error _ _ _ j r m (Kept-attempt _ w j r m kept)

    publish_row-Kept :
        (row : OutboxMessage Value) (now : DateTime) (w : World Value) (j : ℕ) (r : OutboxRow Value)
        (m : OutboxMessage Value)
        → (row.id ≡ j → acceptance row ≡ acceptance m)
        → Kept j r m w
        → Kept j r m (publish_row s publisher config row now w).1
    unfolding publish_row publish_outbox_row
    publish_row-Kept row now w j r m same kept =
        answered-Kept row now (publisher w.log row.topic (outbound_message s row)) w j r m same kept

    and_then-Kept :
        {A B : Type 0} (result : Result A PersistenceError × World Value)
        (k : A → World Value → Result B PersistenceError × World Value) (j : ℕ)
        (r : OutboxRow Value) (m : OutboxMessage Value)
        → Kept j r m result.1
        → ((a : A) → Kept j r m result.1 → Kept j r m (k a result.1).1)
        → Kept j r m (and_then result k).1
    and_then-Kept (ok a, w) k j r m kept h = h a kept
    and_then-Kept (err e, w) k j r m kept h = kept

    pub publish_rows-Kept :
        (rows : List (OutboxMessage Value)) (count : ℕ) (now : DateTime) (w : World Value) (j : ℕ)
        (r : OutboxRow Value) (m : OutboxMessage Value)
        → All (λ row. row.id ≡ j → acceptance row ≡ acceptance m) rows
        → Kept j r m w
        → Kept j r m (publish_rows s publisher config rows count now w).1
    unfolding publish_rows
    publish_rows-Kept [] count now w j r m same kept = kept
    publish_rows-Kept (row ∷ rows) count now w j r m (same, later) kept =
        and_then-Kept (publish_row s publisher config row now w) _ j r m
          (publish_row-Kept row now w j r m same kept)
          (λ done step. publish_rows-Kept rows _ now _ j r m later step)
