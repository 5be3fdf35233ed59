-- ===== src/Dequeuer/Lossless.antt =====
-- A run loses no message.
use proofplane.Prelude.{
  ℕ, ◌≡◌, refl, sym, ap, ◌∙◌, inl, inr, some, List, [], ◌∷◌, Bool-cases, all, All, ok, err,
  ok-injective,
}
use proofplane.Dequeuer.Kept.{acceptance, Kept, publish_rows-Kept}
use proofplane.Dequeuer.Publishing.{Publisher, OutboxDequeuerConfig}
use proofplane.Dequeuer.Run.{run_once, World, and_then, next_fault, publish_rows}
use proofplane.Domain.Ids.{DateTime}
use proofplane.Messaging.Serde.{Serde}
use proofplane.Outbox.Due.{due_rows-All, find_row-only, collect_rows-All}
use proofplane.Outbox.Keys.{IsKeyed}
use proofplane.Outbox.Lookup.{find_row}
use proofplane.Outbox.Rows.{
  OutboxRow, OutboxMessage, outbox_message_from_row, outbox_message_from_row-id,
}
use proofplane.Outbox.Table.{list_due_outbox_messages, collect_rows, due_rows}

module _ {Value : Type 0} (s : Serde Value) (publisher : Publisher)
    (config : OutboxDequeuerConfig) where
  listed_agree :
      (j : ℕ) (r : OutboxRow Value) (m : OutboxMessage Value) (ms : List (OutboxMessage Value))
      → outbox_message_from_row r ≡ ok m
      → All
          (λ l.
            (row : OutboxRow Value) × (outbox_message_from_row row ≡ ok l) × (row.id ≡ j → row ≡ r))
          ms
      → All (λ l. l.id ≡ j → acceptance s l ≡ acceptance s m) ms
  listed_agree j r m [] h all = tt
  listed_agree j r m (l ∷ ms) h ((row, read, only), all) = (
    λ e. ap (acceptance s) (
        ok-injective l m (
          sym read
          ∙ ap outbox_message_from_row (only (outbox_message_from_row-id row l read ∙ e))
          ∙ h)),
    listed_agree j r m ms h all,
  )

  listed-Kept :
      (rows : List (OutboxRow Value)) (now : DateTime) (v : World Value) (j : ℕ)
      (r : OutboxRow Value) (m : OutboxMessage Value)
      → All (λ row. row.id ≡ j → row ≡ r) rows
      → outbox_message_from_row r ≡ ok m
      → Kept s j r m v
      → Kept s j r m
          (and_then (collect_rows rows, v) (λ ms u. publish_rows s publisher config ms 0 now u)).1
  listed-Kept rows now v j r m only read kept =
      elim (collect_rows rows)
          as (λ listed.
            collect_rows rows ≡ listed
            → Kept s j r m
                (and_then (listed, v) (λ ms u. publish_rows s publisher config ms 0 now u)).1) [
                  | ok ms ↦ λ e.
                      publish_rows-Kept s publisher config ms 0 now v j r m
                        (listed_agree j r m ms read (collect_rows-All _ rows ms e only)) kept
                  | err error ↦ λ _. kept
                ]
        refl

  pub run_once-Kept :
      (now : DateTime) (w : World Value) (j : ℕ) (r : OutboxRow Value) (m : OutboxMessage Value)
      → IsKeyed w.outbox
      → find_row j w.outbox.rows ≡ some r
      → outbox_message_from_row r ≡ ok m
      → Kept s j r m (run_once s publisher config now w).1
  unfolding run_once list_due_outbox_messages
  run_once-Kept now w j r m (keyed, _) found read = elim (Bool-cases (next_fault w.faults)) [
    | inl broken ↦ rw broken (inl (r.attempt_count, r.next_available_at, found))
    | inr works ↦ rw works (
        listed-Kept (due_rows now config.batch_size w.outbox.rows) now _ j r m
          (due_rows-All _ now config.batch_size w.outbox.rows
            (find_row-only j w.outbox.rows r keyed found))
          read (inl (r.attempt_count, r.next_available_at, found)))
  ]
