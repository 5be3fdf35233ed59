-- ===== src/Domain/Batch.antt =====
-- src/domain/batch.rs: the size of a batch and the ids that it repeats. A hash set is the list of the
-- values inserted; `BatchKey::key` is a parameter.
mod Tests
use proofplane.Prelude.{
  ℕ, zero, suc, ◌+◌, ◌-◌, ◌*◌, ◌/◌, ◌%◌, ◌^◌, ◌≤◌, ◌<◌, ◌≡◌, refl, sym, ap, subst, ◌∙◌, ◌≢◌, ◌↔◌,
  ◌⊎◌, inl, inr, Bool, true, false, not, ◌&&◌, ◌||◌, Option, none, some, List, [], ◌∷◌, ◌++◌, map,
  arith, ltb, leb, ◌==◌, if◌then◌else◌, ltb→lt, lt→ltb, leb→le, ==_iff, ==_refl, Bool-cases,
  is_some, is_none, is_some_and, is_none_or, Option-cases, map_some, option_eq, option_eq_iff,
  bool_eq, and_left, and_right, length, is_empty, all, any, All, length-append, contains,
  occurrences, ℤ, pos, negsuc, is_negative, int_eq, int_le, is_positive, i64_max, checked_suc,
  int_option_eq, int_eq_iff, Result, ok, err, ◌>>=◌, ◌>>◌, map_err, ok_or, guard, is_ok,
}
use proofplane.Text.{Text}
use proofplane.Domain.Ids.{Uuid}

abbrev pub max_batch_items : ℕ
max_batch_items = 50

pub data BatchError : Type 0 where
  empty_batch : Text → BatchError
  too_large : Text → (maximum received : ℕ) → BatchError
  duplicates : Text → List Uuid → BatchError

-- The loop of `duplicate_ids`, from the ids seen and the duplicates found so far.
unfoldable pub scan : (seen found : List Uuid) → List Uuid → List Uuid
scan seen found [] = found
scan seen found (id ∷ ids) =
    scan (if contains id seen then seen else id ∷ seen)
      (if contains id seen && not (contains id found) then found ++ id ∷ [] else found) ids

module _ {ℓ} {T : Type ℓ} (key : T → Uuid) where
  unfoldable pub duplicate_ids : List T → List Uuid
  unfolding scan
  duplicate_ids items = scan [] [] (map key items)

  unfoldable pub validate_batch : Text → List T → Result (List T) BatchError
  unfolding duplicate_ids
  validate_batch field items =
      let repeated = duplicate_ids items in
      if is_empty items
      then err (empty_batch field)
      else if ltb max_batch_items (length items)
      then err (too_large field max_batch_items (length items))
      else if not (is_empty repeated)
      then err (duplicates field repeated)
      else ok items

contains-append :
    (id : Uuid) (xs ys : List Uuid) → contains id (xs ++ ys) ≡ (contains id xs || contains id ys)
contains-append id [] ys = refl
contains-append id (x ∷ xs) ys = ground (arith, contains-append id xs ys)

scan_lem :
    (seen found ids : List Uuid) (id : Uuid)
    → contains id (scan seen found ids)
      ≡ (contains id found || ltb 1 ((if contains id seen then 1 else 0) + occurrences id ids))
unfolding scan
scan_lem seen found [] id = ground arith
scan_lem seen found (x ∷ ids) id = elim (Bool-cases (contains x seen)) [
  | inl old ↦ elim (Bool-cases (contains x found)) [
    | inl known ↦ rw (old, known, scan_lem seen found ids id) (ground (arith, ==_iff id x))
    | inr new ↦
        rw (old, new, scan_lem seen (found ++ x ∷ []) ids id)
          (ground (arith, ==_iff id x, contains-append id found (x ∷ [])))
  ]
  | inr first ↦ rw (first, scan_lem (x ∷ seen) found ids id) (ground (arith, ==_iff id x))
]

occurrences_absent : (xs : List Uuid) (id : Uuid) → (contains id xs ≡ false) → occurrences id xs ≡ 0
occurrences_absent [] id h = refl
occurrences_absent (x ∷ xs) id h = ground (arith, occurrences_absent xs id)

occurrences-append :
    (id : Uuid) (xs ys : List Uuid)
    → occurrences id (xs ++ ys) ≡ occurrences id xs + occurrences id ys
occurrences-append id [] ys = omega arith
occurrences-append id (x ∷ xs) ys = omega (arith, occurrences-append id xs ys)

once_more :
    (found : List Uuid) (x id : Uuid)
    → occurrences id found ≤ 1
    → (contains x found ≡ false)
    → occurrences id (found ++ x ∷ []) ≤ 1
once_more found x id h n =
    ground (arith, occurrences-append id found (x ∷ []), occurrences_absent found x n, ==_iff id x)

next_found :
    (b : Bool) (found : List Uuid) (x id : Uuid)
    → occurrences id found ≤ 1
    → occurrences id (if b && not (contains x found) then found ++ x ∷ [] else found) ≤ 1
next_found false found x id h = h
next_found true found x id h = elim (Bool-cases (contains x found)) [
  | inl known ↦ rw known h
  | inr new ↦ rw new (once_more found x id h new)
]

scan_once :
    (ids seen found : List Uuid) (id : Uuid)
    → occurrences id found ≤ 1
    → occurrences id (scan seen found ids) ≤ 1
unfolding scan
scan_once [] seen found id h = h
scan_once (x ∷ ids) seen found id h =
    scan_once ids _ _ id (next_found (contains x seen) found x id h)

nothing_in : (xs : List Uuid) → (not (is_empty xs) ≡ false) ↔ ((id : Uuid) → contains id xs ≡ false)
nothing_in [] = (λ h id. refl, λ h. refl)
nothing_in (x ∷ xs) = (λ h id. ground arith, λ h. ground (arith, h x, ==_refl x))

module _ {ℓ} {T : Type ℓ} (key : T → Uuid) where
  -- duplicate_ids contains an id exactly when more than one item has it as its key, and contains no
  -- id more than once.
  pub contains-duplicate_ids :
      (items : List T) (id : Uuid)
      → (contains id (duplicate_ids key items) ≡ ltb 1 (occurrences id (map key items)))
        × (occurrences id (duplicate_ids key items) ≤ 1)
  unfolding duplicate_ids
  contains-duplicate_ids items id =
      let e = scan_lem [] [] (map key items) id in
      (ground (arith, e), scan_once (map key items) [] [] id (omega arith))

  validate_batch_lem :
      (field : Text) (items out : List T)
      → (validate_batch key field items ≡ ok out) ↔ (
          (out ≡ items)
          × (1 ≤ length items)
          × (length items ≤ 50)
          × (not (is_empty (duplicate_ids key items)) ≡ false))
  unfolding validate_batch
  validate_batch_lem field [] out = (λ h. ground arith, λ h. ground arith)
  validate_batch_lem field (x ∷ xs) out = (λ h. ground arith, λ h. ground arith)

  -- validate_batch answers Ok exactly when the batch has from 1 to 50 items and no key occurs more
  -- than once, and then with the items as they are.
  pub validate_batch_iff :
      (field : Text) (items out : List T)
      → (validate_batch key field items ≡ ok out) ↔ (
          (out ≡ items)
          × (1 ≤ length items)
          × (length items ≤ 50)
          × ((id : Uuid) → occurrences id (map key items) ≤ 1))
  validate_batch_iff field items out = (
    λ h.
        let (q, l, u, n) = (validate_batch_lem field items out).0 h in
        (q, l, u, λ id. ground (arith, (nothing_in _).0 n id, contains-duplicate_ids items id)),
    λ (q, l, u, n).
        (validate_batch_lem field items out).1
          (q, l, u, (nothing_in _).1 λ id. ground (arith, n id, contains-duplicate_ids items id)),
  )
