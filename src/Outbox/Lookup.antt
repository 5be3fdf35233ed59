-- ===== src/Outbox/Lookup.antt =====
-- What the statements leave at an identifier, as if the table were a map from identifiers to rows.
use proofplane.Prelude.{
  ℕ, ◌+◌, ◌≡◌, refl, sym, ◌∙◌, inl, inr, true, false, Option, none, some, List, [], ◌∷◌, ◌++◌,
  arith, ◌==◌, if◌then◌else◌, ==_iff, Bool-cases, map_some,
}
use proofplane.Domain.Ids.{DateTime}
use proofplane.Outbox.Rows.{OutboxRow, rescheduled}
use proofplane.Outbox.Table.{delete_rows, failed_rows}

other_id : (i j k : ℕ) → (k == i) ≡ false → (k == j) ≡ true → (i == j) ≡ false
other_id i j k m h = ground arith

module _ {Value : Type 0} where
  -- The row with an identifier, the first one.
  unfoldable pub find_row : ℕ → List (OutboxRow Value) → Option (OutboxRow Value)
  find_row j [] = none
  find_row j (row ∷ rows) = let rest = find_row j rows in if row.id == j then some row else rest

  pub find_row-id :
      (j : ℕ) (rows : List (OutboxRow Value)) (row : OutboxRow Value)
      → find_row j rows ≡ some row
      → row.id ≡ j
  unfolding find_row
  find_row-id j [] row h = ground arith
  find_row-id j (r ∷ rows) row h = elim (Bool-cases (r.id == j)) [
    | inl here ↦ ground arith
    | inr later ↦ find_row-id j rows row (sym (rw later refl) ∙ h)
  ]

  pub find_row-delete_rows :
      (i j : ℕ) (rows : List (OutboxRow Value))
      → find_row j (delete_rows i rows) ≡ (if i == j then none else find_row j rows)
  unfolding find_row delete_rows
  find_row-delete_rows i j [] = ground arith
  find_row-delete_rows i j (r ∷ rows) = ground (arith, find_row-delete_rows i j rows)

  pub find_row-failed_rows :
      (i j : ℕ) (at : DateTime) (rows : List (OutboxRow Value))
      → find_row j (failed_rows i at rows)
        ≡ map_some
            (λ r. if i == j then rescheduled r (r.attempt_count + 1) at else r)
            (find_row j rows)
  unfolding find_row failed_rows
  find_row-failed_rows i j at [] = ground arith
  find_row-failed_rows i j at (r ∷ rows) = elim (Bool-cases (r.id == i)) [
    | inl hit ↦ elim (Bool-cases (r.id == j)) [
      | inl here ↦
          rw
            (
              hit,
              here,
              (==_iff i j).1 (omega (arith, (==_iff r.id i).0 hit, (==_iff r.id j).0 here)),
            )
            refl
      | inr later ↦ rw (hit, later) (find_row-failed_rows i j at rows)
    ]
    | inr miss ↦ elim (Bool-cases (r.id == j)) [
      | inl here ↦ rw (miss, here, other_id i j r.id miss here) refl
      | inr later ↦ rw (miss, later) (find_row-failed_rows i j at rows)
    ]
  ]

  pub find_row-append :
      (j : ℕ) (rows added : List (OutboxRow Value)) (r : OutboxRow Value)
      → find_row j rows ≡ some r
      → find_row j (rows ++ added) ≡ some r
  unfolding find_row
  find_row-append j [] added r h = ground arith
  find_row-append j (x ∷ rows) added r h = elim (Bool-cases (x.id == j)) [
    | inl mine ↦ rw mine (sym (rw mine refl) ∙ h)
    | inr other ↦ rw other (find_row-append j rows added r (sym (rw other refl) ∙ h))
  ]
