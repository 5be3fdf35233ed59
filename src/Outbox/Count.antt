-- ===== src/Outbox/Count.antt =====
-- How many rows a statement removes, and which rows a reading of the due rows names.
use proofplane.Prelude.{
  ℕ, suc, ◌+◌, ◌≡◌, refl, sym, ap, subst, ◌∙◌, inl, inr, true, false, List, [], ◌∷◌, arith, ◌==◌,
  ==_iff, ==_refl, Bool-cases, length, All,
}
use proofplane.Domain.Ids.{DateTime}
use proofplane.Outbox.Keys.{Keyed}
use proofplane.Outbox.Rows.{OutboxColumns, OutboxRow}
use proofplane.Outbox.Table.{delete_rows, failed_rows, has_row}

module _ {Kind Value : Type 0} where
  pub has_row_self :
      (row : OutboxColumns Kind Value) (rows : List (OutboxColumns Kind Value))
      → has_row row.id (row ∷ rows) ≡ true
  has_row_self row rows = rw (==_refl row.id) refl

  -- Each of some identifiers is the key of a row.
  abbrev pub Named :
      {K : Type 0} → List (OutboxColumns Kind Value) → List (OutboxColumns K Value) → Type 0
  Named rows ls = All (λ l. has_row l.id rows ≡ true) ls

module _ {Value : Type 0} where
  delete_rows-miss :
      (i : ℕ) (rows : List (OutboxRow Value)) → has_row i rows ≡ false → delete_rows i rows ≡ rows
  unfolding delete_rows
  delete_rows-miss i [] h = refl
  delete_rows-miss i (r ∷ rows) h = elim (Bool-cases (r.id == i)) [
    | inl hit ↦ ground arith
    | inr miss ↦ rw miss (ap (λ rest. r ∷ rest) (delete_rows-miss i rows (sym (rw miss refl) ∙ h)))
  ]

  pub length-delete_rows :
      (i : ℕ) (rows : List (OutboxRow Value))
      → Keyed rows
      → has_row i rows ≡ true
      → length (delete_rows i rows) + 1 ≡ length rows
  unfolding delete_rows
  length-delete_rows i [] k h = ground arith
  length-delete_rows i (r ∷ rows) (new, k) h = elim (Bool-cases (r.id == i)) [
    | inl hit ↦ rw hit (
        omega (
          arith,
          ap length (
              delete_rows-miss i rows
                (subst (λ x. has_row x rows ≡ false) ((==_iff r.id i).0 hit) new)),
        ))
    | inr miss ↦ rw miss (omega (arith, length-delete_rows i rows k (sym (rw miss refl) ∙ h)))
  ]

  pub length-failed_rows :
      (i : ℕ) (at : DateTime) (rows : List (OutboxRow Value))
      → length (failed_rows i at rows) ≡ length rows
  unfolding failed_rows
  length-failed_rows i at [] = refl
  length-failed_rows i at (r ∷ rows) = ap suc (length-failed_rows i at rows)

  pub has_row-delete_rows_other :
      (i j : ℕ) (rows : List (OutboxRow Value))
      → (i == j) ≡ false
      → has_row j (delete_rows i rows) ≡ has_row j rows
  unfolding delete_rows
  has_row-delete_rows_other i j [] o = refl
  has_row-delete_rows_other i j (r ∷ rows) o = ground (arith, has_row-delete_rows_other i j rows o)
