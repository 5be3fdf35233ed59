-- ===== src/Outbox/Due.antt =====
-- What the reading of the due rows answers: rows of the table, none of them twice.
use proofplane.Prelude.{
  ℕ, zero, suc, ◌≡◌, refl, sym, subst, ◌∙◌, inl, inr, Bool, false, not, some, List, [], ◌∷◌, arith,
  ◌==◌, ==_iff, Bool-cases, some-injective, all, All, ok, bind-ok, ok-injective,
}
use proofplane.Domain.Ids.{DateTime}
use proofplane.Outbox.Keys.{Keyed}
use proofplane.Outbox.Lookup.{find_row}
use proofplane.Outbox.Ordering.{where_, limit, insert_sorted, order_by}
use proofplane.Outbox.Rows.{OutboxRow, OutboxMessage, outbox_message_from_row}
use proofplane.Outbox.Table.{due_rows, collect_rows, has_row, row_before, is_due, delete_rows}

-- A predicate passes from a list to what `WHERE`, `ORDER BY` and `LIMIT` leave of it.
module _ {ℓ κ} {A : Type ℓ} (P : A → Type κ) where
  pub where_-All : (p : A → Bool) (xs : List A) → All P xs → All P (where_ p xs)
  where_-All p [] h = tt
  where_-All p (x ∷ xs) (a, h) = elim (Bool-cases (p x)) [
    | inl stays ↦ rw stays (a, where_-All p xs h)
    | inr goes ↦ rw goes (where_-All p xs h)
  ]

  pub limit-All : (n : ℕ) (xs : List A) → All P xs → All P (limit n xs)
  limit-All zero xs h = tt
  limit-All (suc n) [] h = tt
  limit-All (suc n) (x ∷ xs) (a, h) = (a, limit-All n xs h)

  pub insert_sorted-All :
      (before : A → A → Bool) (x : A) (xs : List A)
      → P x
      → All P xs
      → All P (insert_sorted before x xs)
  unfolding insert_sorted
  insert_sorted-All before x [] a h = (a, tt)
  insert_sorted-All before x (y ∷ ys) a (b, h) = elim (Bool-cases (before x y)) [
    | inl first ↦ rw first (a, (b, h))
    | inr later ↦ rw later (b, insert_sorted-All before x ys a h)
  ]

  pub order_by-All : (before : A → A → Bool) (xs : List A) → All P xs → All P (order_by before xs)
  unfolding order_by
  order_by-All before [] h = tt
  order_by-All before (x ∷ xs) (a, h) = insert_sorted-All before x _ a (order_by-All before xs h)

module _ {Value : Type 0} where
  pub due_rows-All {κ} :
      (P : OutboxRow Value → Type κ) (now : DateTime) (n : ℕ) (rows : List (OutboxRow Value))
      → All P rows
      → All P (due_rows now n rows)
  unfolding due_rows
  due_rows-All P now n rows h =
      limit-All P n _ (order_by-All P row_before _ (where_-All P (is_due now) rows h))

  -- What is read from rows with a property comes from such a row.
  pub collect_rows-All :
      (P : OutboxRow Value → Type 0) (rows : List (OutboxRow Value))
      (ms : List (OutboxMessage Value))
      → collect_rows rows ≡ ok ms
      → All P rows
      → All (λ m. (row : OutboxRow Value) × (outbox_message_from_row row ≡ ok m) × P row) ms
  unfolding collect_rows
  collect_rows-All P [] ms h all = rw (sym (ok-injective _ ms h)) tt
  collect_rows-All P (row ∷ rows) ms h (a, all) =
      let (m, read, h1) = bind-ok (outbox_message_from_row row) _ ms h in
      let (rest, reads, h2) = bind-ok (collect_rows rows) _ ms h1 in
      rw (sym (ok-injective _ ms h2)) ((row, read, a), collect_rows-All P rows rest reads all)

  has_row-miss :
      (j : ℕ) (rows : List (OutboxRow Value)) (r : OutboxRow Value)
      → has_row j rows ≡ false
      → All (λ row. row.id ≡ j → row ≡ r) rows
  has_row-miss j [] r h = tt
  has_row-miss j (x ∷ rows) r h = (λ e. ground arith, has_row-miss j rows r (ground arith))

  -- A key belongs to one row.
  pub find_row-only :
      (j : ℕ) (rows : List (OutboxRow Value)) (r : OutboxRow Value)
      → Keyed rows
      → find_row j rows ≡ some r
      → All (λ row. row.id ≡ j → row ≡ r) rows
  unfolding find_row
  find_row-only j [] r k h = tt
  find_row-only j (x ∷ rows) r (new, k) h = elim (Bool-cases (x.id == j)) [
    | inl mine ↦ (
      λ _. some-injective x r (sym (rw mine refl) ∙ h),
      has_row-miss j rows r (subst (λ i. has_row i rows ≡ false) ((==_iff x.id j).0 mine) new),
    )
    | inr other ↦ (λ e. ground arith, find_row-only j rows r k (sym (rw other refl) ∙ h))
  ]

module _ {Value : Type 0} where
  pub delete_rows-All :
      (P : OutboxRow Value → Type 0) (i : ℕ) (rows : List (OutboxRow Value))
      → All P rows
      → All P (delete_rows i rows)
  unfolding delete_rows
  delete_rows-All P i rows h = where_-All P (λ row. not (row.id == i)) rows h
