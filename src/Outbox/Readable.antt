-- ===== src/Outbox/Readable.antt =====
-- The rows that meet the constraint on their kind are all read, and those of a batch can be counted.
use proofplane.Prelude.{
  ℕ, zero, suc, ◌+◌, ◌-◌, ◌≤◌, ◌≡◌, refl, ap, ◌∙◌, inl, inr, Bool, List, [], ◌∷◌, arith, Bool-cases,
  le→leb, length, All, ok,
}
use proofplane.Domain.Ids.{DateTime}
use proofplane.Outbox.Ordering.{insert_sorted, order_by, where_, limit}
use proofplane.Outbox.Rows.{OutboxRow, OutboxMessage, outbox_message_from_row}
use proofplane.Outbox.Table.{collect_rows, due_rows, row_before, is_due}

module _ {Value : Type 0} where
  abbrev pub Readable : OutboxRow Value → Type 0
  Readable row = (m : OutboxMessage Value) × (outbox_message_from_row row ≡ ok m)

  pub collect_rows-Readable :
      (rows : List (OutboxRow Value))
      → All Readable rows
      → (ms : List (OutboxMessage Value)) × (collect_rows rows ≡ ok ms) × (length ms ≡ length rows)
  unfolding collect_rows
  collect_rows-Readable [] h = ([], refl, refl)
  collect_rows-Readable (row ∷ rows) ((m, read), h) =
      let (ms, reads, same) = collect_rows-Readable rows h in
      (m ∷ ms, rw (read, reads) refl, ap suc same)

  length-insert_sorted :
      (before : OutboxRow Value → OutboxRow Value → Bool) (x : OutboxRow Value)
      (rows : List (OutboxRow Value))
      → length (insert_sorted before x rows) ≡ suc (length rows)
  unfolding insert_sorted
  length-insert_sorted before x [] = refl
  length-insert_sorted before x (y ∷ ys) = elim (Bool-cases (before x y)) [
    | inl first ↦ rw first refl
    | inr later ↦ rw later (ap suc (length-insert_sorted before x ys))
  ]

  length-order_by :
      (before : OutboxRow Value → OutboxRow Value → Bool) (rows : List (OutboxRow Value))
      → length (order_by before rows) ≡ length rows
  unfolding order_by
  length-order_by before [] = refl
  length-order_by before (x ∷ xs) =
      length-insert_sorted before x (order_by before xs) ∙ ap suc (length-order_by before xs)

  where_-All_due :
      (now : DateTime) (rows : List (OutboxRow Value))
      → All (λ row. row.next_available_at ≤ now) rows
      → where_ (is_due now) rows ≡ rows
  where_-All_due now [] h = refl
  where_-All_due now (r ∷ rows) (due, h) =
      rw (le→leb r.next_available_at now due) (ap (λ xs. r ∷ xs) (where_-All_due now rows h))

  length-limit :
      (n : ℕ) (rows : List (OutboxRow Value))
      → length (limit n rows) + (length rows - n) ≡ length rows
  length-limit zero rows = omega arith
  length-limit (suc n) [] = omega arith
  length-limit (suc n) (r ∷ rows) = omega (arith, length-limit n rows)

  -- If all rows are due, a batch has as many of them as its size allows.
  pub length-due_rows :
      (now : DateTime) (n : ℕ) (rows : List (OutboxRow Value))
      → All (λ row. row.next_available_at ≤ now) rows
      → length (due_rows now n rows) + (length rows - n) ≡ length rows
  unfolding due_rows
  length-due_rows now n rows h =
      let sorted = order_by row_before rows in
      rw (where_-All_due now rows h)
        (omega (arith, length-limit n sorted, length-order_by row_before rows))
