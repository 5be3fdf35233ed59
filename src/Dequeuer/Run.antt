-- ===== src/Dequeuer/Run.antt =====
-- `publish_row` and `run_once`. A call on the database may fail, and then changes nothing.
use proofplane.Prelude.{
  ℕ, ◌+◌, Bool, true, false, List, [], ◌∷◌, if◌then◌else◌, Result, ok, err, ◌>>=◌,
}
use proofplane.Dequeuer.Publishing.{
  published, failed, Attempt, Publisher, OutboxDequeuerConfig, publish_outbox_row, PublishOutcome,
  panicked,
}
use proofplane.Domain.Ids.{DateTime}
use proofplane.Messaging.Serde.{Serde}
use proofplane.Outbox.Rows.{PersistenceError, database, OutboxMessage, unwound}
use proofplane.Outbox.Table.{
  Outbox, delete_outbox_message, list_due_outbox_messages, record_outbox_publish_failure,
}

-- The table, the calls on the publisher, and for each further call on the database whether it fails;
-- where the list ends none does.
pub record World (Value : Type 0) : Type 0 where
  pub outbox : Outbox Value
  pub log : List Attempt
  pub faults : List Bool

abbrev pub next_fault : List Bool → Bool
next_fault [] = false
next_fault (f ∷ _) = f

abbrev pub later_faults : List Bool → List Bool
later_faults [] = []
later_faults (_ ∷ fs) = fs

module _ {Value : Type 0} where
  -- What follows a call that may fail: `?`.
  abbrev pub and_then :
      {A B : Type 0}
      → Result A PersistenceError × World Value
      → (A → World Value → Result B PersistenceError × World Value)
      → Result B PersistenceError × World Value
  and_then (ok a, w) k = k a w
  and_then (err e, w) k = (err e, w)

  -- A call on the database.
  abbrev pub execute :
      {A : Type 0}
      → (Outbox Value → A × Outbox Value)
      → World Value
      → Result A PersistenceError × World Value
  execute call w =
      if next_fault w.faults then (err database, record w { faults = later_faults w.faults }) else (
        ok (call w.outbox).0,
        record w { outbox = (call w.outbox).1; faults = later_faults w.faults },
      )

  module _ (s : Serde Value) (publisher : Publisher) (config : OutboxDequeuerConfig) where
    -- What follows the attempt: the row is deleted or put off.
    unfoldable pub settle :
        OutboxMessage Value
        → PublishOutcome
        → World Value
        → Result Bool PersistenceError × World Value
    unfolding delete_outbox_message record_outbox_publish_failure
    settle row published w =
        let (answer, v) = execute (delete_outbox_message row.id) w in (answer >>= (λ _. ok true), v)
    settle row (failed error next_available_at exhausted) w =
        let (answer, v) = execute (record_outbox_publish_failure row.id next_available_at) w in
        (answer >>= (λ _. ok false), v)
    settle row panicked w = (err unwound, w)

    unfoldable pub publish_row :
        OutboxMessage Value → DateTime → World Value → Result Bool PersistenceError × World Value
    unfolding publish_outbox_row settle
    publish_row row now w =
        let (outcome, log) = publish_outbox_row s publisher config row now w.log in
        settle row outcome (record w { log = log })

    -- The loop over the rows, with the count of those published so far.
    unfoldable pub publish_rows :
        List (OutboxMessage Value)
        → ℕ
        → DateTime
        → World Value
        → Result ℕ PersistenceError × World Value
    unfolding publish_row
    publish_rows [] count now w = (ok count, w)
    publish_rows (row ∷ rows) count now w =
        and_then (publish_row row now w)
          (λ done v. publish_rows rows (if done then count + 1 else count) now v)

    unfoldable pub run_once : DateTime → World Value → Result ℕ PersistenceError × World Value
    unfolding list_due_outbox_messages publish_rows
    run_once now w =
        and_then (execute (λ t. (list_due_outbox_messages now config.batch_size t, t)) w)
          (λ listed v. and_then (listed, v) (λ rows u. publish_rows rows 0 now u))
