-- ===== src/Dequeuer/Draining.antt =====
-- If the publisher accepts all that it is given and the database answers, runs empty the table.
use proofplane.Prelude.{
  ℕ, zero, suc, ◌+◌, ◌-◌, ◌*◌, ◌≤◌, ◌≡◌, refl, sym, ap, subst, ◌∙◌, true, none, List, [], ◌∷◌,
  arith, length, all, All, ok,
}
use proofplane.Dequeuer.Counting.{run_once-count}
use proofplane.Dequeuer.History.{runs, Event, history, run_once-IsKeyed}
use proofplane.Dequeuer.Kept.{acceptance}
use proofplane.Dequeuer.Publishing.{
  Publisher, OutboxDequeuerConfig, Attempt, OutboundMessage, publish_outbox_row, outcome_of,
  attempt, outbound_message,
}
use proofplane.Dequeuer.Run.{publish_row, publish_rows, World, settle, run_once}
use proofplane.Domain.Ids.{DateTime}
use proofplane.Messaging.Serde.{Serde}
use proofplane.Outbox.Due.{delete_rows-All, due_rows-All}
use proofplane.Outbox.Keys.{IsKeyed}
use proofplane.Outbox.Readable.{Readable, collect_rows-Readable, length-due_rows}
use proofplane.Outbox.Rows.{TopicName, OutboxRow, OutboxMessage}
use proofplane.Outbox.Table.{Outbox, delete_outbox_message, list_due_outbox_messages, due_rows}

module _ {Value : Type 0} (s : Serde Value) (publisher : Publisher) (config : OutboxDequeuerConfig)
    (accepts : (log : List Attempt) (topic : TopicName) (message : OutboundMessage)
      → publisher log topic message ≡ none) where
  abbrev working : Outbox Value → List Attempt → World Value
  working t log = record { outbox = t; log = log; faults = [] }

  publish_row-accepts :
      (row : OutboxMessage Value) (now : DateTime) (t : Outbox Value) (log : List Attempt)
      → publish_row s publisher config row now (working t log)
        ≡ (ok true, working (delete_outbox_message row.id t).1 (acceptance s row ∷ log))
  unfolding publish_row publish_outbox_row settle outcome_of
  publish_row-accepts row now t log =
      ap
        (λ answer.
          settle s publisher config row (outcome_of config row now answer)
            (working t (attempt s row answer ∷ log)))
        (accepts log row.topic (outbound_message s row))

  publish_rows-accepts :
      (P : OutboxRow Value → Type 0) (ls : List (OutboxMessage Value)) (count : ℕ) (now : DateTime)
      (t : Outbox Value) (log : List Attempt)
      → All P t.rows
      → (v : Outbox Value) × (later : List Attempt) × (publish_rows s publisher config ls count now
            (working t log)
          ≡ (ok (count + length ls), working v later))
        × All P v.rows
  unfolding publish_rows delete_outbox_message
  publish_rows-accepts P [] count now t log all =
      (t, log, ap (λ n. (ok n, working t log)) (omega arith), all)
  publish_rows-accepts P (row ∷ ls) count now t log all =
      let (v, later, e, kept) =
        publish_rows-accepts P ls (count + 1) now (delete_outbox_message row.id t).1
          (acceptance s row ∷ log) (delete_rows-All P row.id t.rows all) in
      (
        v,
        later,
        rw (publish_row-accepts row now t log)
            (e ∙ ap (λ n. (ok n, working v later)) (omega arith)),
        kept,
      )

  -- A row that is due and meets the constraint on its kind.
  abbrev pub Ready : DateTime → OutboxRow Value → Type 0
  Ready now row = Readable row × (row.next_available_at ≤ now)

  Ready-Readable :
      (now : DateTime) (rows : List (OutboxRow Value)) → All (Ready now) rows → All Readable rows
  Ready-Readable now [] h = tt
  Ready-Readable now (r ∷ rows) ((readable, _), h) = (readable, Ready-Readable now rows h)

  Ready-due :
      (now : DateTime) (rows : List (OutboxRow Value))
      → All (Ready now) rows
      → All (λ row. row.next_available_at ≤ now) rows
  Ready-due now [] h = tt
  Ready-due now (r ∷ rows) ((_, due), h) = (due, Ready-due now rows h)

  -- A run publishes a whole batch, or all there is.
  run_once-accepts :
      (now : DateTime) (t : Outbox Value) (log : List Attempt)
      → All (Ready now) t.rows
      → (v : Outbox Value) × (later : List Attempt) × (n : ℕ) × (run_once s publisher config now
            (working t log)
          ≡ (ok n, working v later))
        × (n + (length t.rows - config.batch_size) ≡ length t.rows)
        × All (Ready now) v.rows
  unfolding run_once list_due_outbox_messages
  run_once-accepts now t log ready =
      let batch = due_rows now config.batch_size t.rows in
      let (ms, reads, same) =
        collect_rows-Readable batch
          (due_rows-All Readable now config.batch_size t.rows (Ready-Readable now t.rows ready)) in
      let (v, later, e, kept) = publish_rows-accepts (Ready now) ms 0 now t log ready in
      (
        v,
        later,
        0 + length ms,
        rw reads e,
        omega (
          arith,
          same,
          length-due_rows now config.batch_size t.rows (Ready-due now t.rows ready),
        ),
        kept,
      )

  abbrev pub run_times : ℕ → DateTime → List Event
  run_times zero now = []
  run_times (suc k) now = runs now ∷ run_times k now

  empty_rows : (rows : List (OutboxRow Value)) → length rows ≤ 0 → rows ≡ []
  empty_rows [] h = refl
  empty_rows (r ∷ rows) h = ground arith

  fewer_left :
      (k b rows left n : ℕ)
      → rows ≤ suc k * b
      → n + (rows - b) ≡ rows
      → left + n ≡ rows
      → left ≤ k * b
  fewer_left k b rows left n enough batch rest = grind arith

  -- Let the publisher accept every message and the database not fail, let the identifiers in the
  -- outbox be distinct and below the next one, and let every row be readable and due. Then as many
  -- runs as batches are needed for the rows leave the outbox empty.
  pub history-drained :
      (k : ℕ) (now : DateTime) (t : Outbox Value) (log : List Attempt)
      → IsKeyed t
      → All (Ready now) t.rows
      → length t.rows ≤ k * config.batch_size
      → (history s publisher config (working t log) (run_times k now)).outbox.rows ≡ []
  history-drained zero now t log keyed ready enough = empty_rows t.rows (omega arith)
  history-drained (suc k) now t log keyed ready enough =
      let (v, later, n, e, batch, kept) = run_once-accepts now t log ready in
      let left =
        run_once-count s publisher config now (working t log) (working v later) n keyed e in
      subst (λ r. (history s publisher config r.1 (run_times k now)).outbox.rows ≡ []) (sym e)
        (history-drained k now v later
          (subst (λ r. IsKeyed r.1.outbox) e
            (run_once-IsKeyed s publisher config now (working t log) keyed))
          kept (fewer_left k config.batch_size (length t.rows) (length v.rows) n enough batch left))
