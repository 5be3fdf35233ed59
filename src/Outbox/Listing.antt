-- ===== src/Outbox/Listing.antt =====
-- What the reading of the due rows keeps of the key: the messages have different keys, those of rows.
use proofplane.Prelude.{
  ℕ, zero, suc, ◌≡◌, refl, sym, subst, inl, inr, Bool, true, false, List, [], ◌∷◌, arith, ◌==◌,
  Bool-cases, All, ok, bind-ok, ok-injective,
}
use proofplane.Domain.Ids.{DateTime}
use proofplane.Outbox.Count.{Named, has_row_self}
use proofplane.Outbox.Due.{
  insert_sorted-All, order_by-All, collect_rows-All, where_-All, limit-All, due_rows-All,
}
use proofplane.Outbox.Keys.{Keyed}
use proofplane.Outbox.Ordering.{insert_sorted, order_by, where_, limit}
use proofplane.Outbox.Rows.{
  OutboxColumns, OutboxRow, OutboxMessage, outbox_message_from_row, outbox_message_from_row-id,
}
use proofplane.Outbox.Table.{due_rows, collect_rows, has_row, row_before, is_due}

-- A key that does not occur is that of no row.
module _ {Kind Value : Type 0} where
  absent-All :
      (j : ℕ) (rows : List (OutboxColumns Kind Value))
      → has_row j rows ≡ false
      → All (λ row. (row.id == j) ≡ false) rows
  absent-All j [] h = tt
  absent-All j (r ∷ rows) h = (ground arith, absent-All j rows (ground arith))

  All-absent :
      (j : ℕ) (rows : List (OutboxColumns Kind Value))
      → All (λ row. (row.id == j) ≡ false) rows
      → has_row j rows ≡ false
  All-absent j [] h = refl
  All-absent j (r ∷ rows) (o, h) = rw o (All-absent j rows h)

module _ {Value : Type 0} where
  where_-Keyed :
      (p : OutboxRow Value → Bool) (rows : List (OutboxRow Value))
      → Keyed rows
      → Keyed (where_ p rows)
  where_-Keyed p [] k = tt
  where_-Keyed p (r ∷ rows) (new, k) = elim (Bool-cases (p r)) [
    | inl stays ↦
        rw stays (
          All-absent r.id _ (where_-All _ p rows (absent-All r.id rows new)),
          where_-Keyed p rows k,
        )
    | inr goes ↦ rw goes (where_-Keyed p rows k)
  ]

  limit-Keyed : (n : ℕ) (rows : List (OutboxRow Value)) → Keyed rows → Keyed (limit n rows)
  limit-Keyed zero rows k = tt
  limit-Keyed (suc n) [] k = tt
  limit-Keyed (suc n) (r ∷ rows) (new, k) =
      (All-absent r.id _ (limit-All _ n rows (absent-All r.id rows new)), limit-Keyed n rows k)

  insert_sorted-Keyed :
      (before : OutboxRow Value → OutboxRow Value → Bool) (x : OutboxRow Value)
      (rows : List (OutboxRow Value))
      → All (λ row. (row.id == x.id) ≡ false) rows
      → Keyed rows
      → Keyed (insert_sorted before x rows)
  unfolding insert_sorted
  insert_sorted-Keyed before x [] o k = (refl, tt)
  insert_sorted-Keyed before x (y ∷ ys) (o, os) (new, k) = elim (Bool-cases (before x y)) [
    | inl first ↦ rw first (All-absent x.id (y ∷ ys) (o, os), (new, k))
    | inr later ↦ rw later (
      All-absent y.id _ (insert_sorted-All _ before x ys (ground arith) (absent-All y.id ys new)),
      insert_sorted-Keyed before x ys os k,
    )
  ]

  order_by-Keyed :
      (before : OutboxRow Value → OutboxRow Value → Bool) (rows : List (OutboxRow Value))
      → Keyed rows
      → Keyed (order_by before rows)
  unfolding order_by
  order_by-Keyed before [] k = tt
  order_by-Keyed before (x ∷ xs) (new, k) =
      insert_sorted-Keyed before x _ (order_by-All _ before xs (absent-All x.id xs new))
        (order_by-Keyed before xs k)

  due_rows-Keyed :
      (now : DateTime) (n : ℕ) (rows : List (OutboxRow Value))
      → Keyed rows
      → Keyed (due_rows now n rows)
  unfolding due_rows
  due_rows-Keyed now n rows k =
      limit-Keyed n _ (order_by-Keyed row_before _ (where_-Keyed (is_due now) rows k))

  collect_rows-has_row :
      (j : ℕ) (rows : List (OutboxRow Value)) (ms : List (OutboxMessage Value))
      → collect_rows rows ≡ ok ms
      → has_row j ms ≡ has_row j rows
  unfolding collect_rows
  collect_rows-has_row j [] ms h = rw (sym (ok-injective _ ms h)) refl
  collect_rows-has_row j (row ∷ rows) ms h =
      let (m, read, h1) = bind-ok (outbox_message_from_row row) _ ms h in
      let (rest, reads, h2) = bind-ok (collect_rows rows) _ ms h1 in
      rw
        (
          sym (ok-injective _ ms h2),
          sym (outbox_message_from_row-id row m read),
          collect_rows-has_row j rows rest reads,
        )
        refl

  pub collect_rows-Keyed :
      (rows : List (OutboxRow Value)) (ms : List (OutboxMessage Value))
      → collect_rows rows ≡ ok ms
      → Keyed rows
      → Keyed ms
  unfolding collect_rows
  collect_rows-Keyed [] ms h k = rw (sym (ok-injective _ ms h)) tt
  collect_rows-Keyed (row ∷ rows) ms h (new, k) =
      let (m, read, h1) = bind-ok (outbox_message_from_row row) _ ms h in
      let (rest, reads, h2) = bind-ok (collect_rows rows) _ ms h1 in
      rw (sym (ok-injective _ ms h2)) (
        rw
            (
              sym (outbox_message_from_row-id row m read),
              collect_rows-has_row row.id rows rest reads,
            )
            new,
        collect_rows-Keyed rows rest reads k,
      )

  has_row-later :
      (r : OutboxRow Value) (rows ls : List (OutboxRow Value)) → Named rows ls → Named (r ∷ rows) ls
  has_row-later r rows [] h = tt
  has_row-later r rows (l ∷ ls) (a, h) = (ground arith, has_row-later r rows ls h)

  Named-self : (rows : List (OutboxRow Value)) → Named rows rows
  Named-self [] = tt
  Named-self (r ∷ rows) = (has_row_self r rows, has_row-later r rows rows (Named-self rows))

  read-Named :
      (rows : List (OutboxRow Value)) (ms : List (OutboxMessage Value))
      → All
          (λ m.
            (row : OutboxRow Value) × (outbox_message_from_row row ≡ ok m)
            × (has_row row.id rows ≡ true))
          ms
      → Named rows ms
  read-Named rows [] h = tt
  read-Named rows (m ∷ ms) ((row, read, there), h) = (
    subst (λ i. has_row i rows ≡ true) (outbox_message_from_row-id row m read) there,
    read-Named rows ms h,
  )

  -- The messages that are read have different keys, which are those of rows.
  pub due-Named :
      (now : DateTime) (n : ℕ) (rows : List (OutboxRow Value)) (ms : List (OutboxMessage Value))
      → Keyed rows
      → collect_rows (due_rows now n rows) ≡ ok ms
      → Keyed ms × Named rows ms
  due-Named now n rows ms k h = (
    collect_rows-Keyed _ ms h (due_rows-Keyed now n rows k),
    read-Named rows ms (collect_rows-All _ _ ms h (due_rows-All _ now n rows (Named-self rows))),
  )
