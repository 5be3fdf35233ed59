-- ===== src/Domain/Catalogue/Sorting.antt =====
-- `sort_unstable_by_key`, the search for a repeated key in neighbours, and what they give. Where no
-- key repeats, every sorting by key gives the same list; the model inserts one by one.
use mathlib.Core.List.{Perm}
use proofplane.Prelude.{
  ℕ, ◌+◌, ◌≤◌, ◌<◌, ◌≡◌, refl, ap, ◌∙◌, inl, inr, Option, none, some, List, [], ◌∷◌, map, arith,
  leb, ◌==◌, if◌then◌else◌, ==_iff, ==_refl, Bool-cases, All, occurrences,
}
use mathlib.Core.List.Perm

module _ {ℓ} {T : Type ℓ} (key : T → ℕ) where
  unfoldable pub insert_by_key : T → List T → List T
  insert_by_key x [] = x ∷ []
  insert_by_key x (y ∷ ys) =
      let rest = insert_by_key x ys in if leb (key x) (key y) then x ∷ y ∷ ys else y ∷ rest

  unfoldable pub sort_by_key : List T → List T
  unfolding insert_by_key
  sort_by_key [] = []
  sort_by_key (x ∷ xs) = insert_by_key x (sort_by_key xs)

  -- The first of `windows(2)` whose keys are the same.
  unfoldable pub first_repeat : List T → Option ℕ
  first_repeat [] = none
  first_repeat (x ∷ []) = none
  first_repeat (x ∷ y ∷ xs) =
      let rest = first_repeat (y ∷ xs) in if key x == key y then some (key x) else rest

  -- The keys grow, or stay the same, from one to the next.
  abbrev pub Ascending : List T → Type 0
  Ascending [] = Unit
  Ascending (x ∷ []) = Unit
  Ascending (x ∷ y ∷ xs) = (key x ≤ key y) × Ascending (y ∷ xs)

  -- No entry is before a bound.
  abbrev pub AllFrom : ℕ → List T → Type 0
  AllFrom n xs = All (λ y. n ≤ key y) xs

  AllFrom-weaken : (m n : ℕ) (xs : List T) → m ≤ n → AllFrom n xs → AllFrom m xs
  AllFrom-weaken m n [] l h = tt
  AllFrom-weaken m n (x ∷ xs) l (k, h) = (omega arith, AllFrom-weaken m n xs l h)

  AllFrom-Ascending : (x : T) (xs : List T) → Ascending (x ∷ xs) → AllFrom (key x) xs
  AllFrom-Ascending x [] h = tt
  AllFrom-Ascending x (y ∷ ys) (l, h) =
      (l, AllFrom-weaken (key x) (key y) ys l (AllFrom-Ascending y ys h))

  insert_by_key-Ascending : (x : T) (xs : List T) → Ascending xs → Ascending (insert_by_key x xs)
  unfolding insert_by_key
  insert_by_key-Ascending x [] h = tt
  insert_by_key-Ascending x (y ∷ []) h = ground arith
  insert_by_key-Ascending x (y ∷ z ∷ zs) h = ground (arith, insert_by_key-Ascending x (z ∷ zs) h.1)

  pub sort_by_key-Ascending : (xs : List T) → Ascending (sort_by_key xs)
  unfolding sort_by_key
  sort_by_key-Ascending [] = tt
  sort_by_key-Ascending (x ∷ xs) = insert_by_key-Ascending x _ (sort_by_key-Ascending xs)

  insert_by_key-Perm : (x : T) (xs : List T) → Perm (x ∷ xs) (insert_by_key x xs)
  unfolding insert_by_key
  insert_by_key-Perm x [] = Perm.rfl
  insert_by_key-Perm x (y ∷ ys) = elim (Bool-cases (leb (key x) (key y))) [
    | inl first ↦ rw first Perm.rfl
    | inr later ↦ rw later (Perm.trans (Perm.swap y x ys) (Perm.cons y (insert_by_key-Perm x ys)))
  ]

  -- Sorting keeps the entries.
  pub sort_by_key-Perm : (xs : List T) → Perm xs (sort_by_key xs)
  unfolding sort_by_key
  sort_by_key-Perm [] = Perm.rfl
  sort_by_key-Perm (x ∷ xs) =
      Perm.trans (Perm.cons x (sort_by_key-Perm xs)) (insert_by_key-Perm x (sort_by_key xs))

  insert_by_key-occurrences :
      (k : ℕ) (x : T) (xs : List T)
      → occurrences k (map key (insert_by_key x xs))
        ≡ (if k == key x then 1 else 0) + occurrences k (map key xs)
  unfolding insert_by_key
  insert_by_key-occurrences k x [] = refl
  insert_by_key-occurrences k x (y ∷ ys) = elim (Bool-cases (leb (key x) (key y))) [
    | inl first ↦ rw first refl
    | inr later ↦ rw later (omega (arith, insert_by_key-occurrences k x ys))
  ]

  -- Sorting keeps how often a key occurs.
  pub sort_by_key-occurrences :
      (k : ℕ) (xs : List T) → occurrences k (map key (sort_by_key xs)) ≡ occurrences k (map key xs)
  unfolding sort_by_key
  sort_by_key-occurrences k [] = refl
  sort_by_key-occurrences k (x ∷ xs) =
      omega (arith, insert_by_key-occurrences k x (sort_by_key xs), sort_by_key-occurrences k xs)

  -- A key below all others does not occur.
  occurrences-AllFrom :
      (k : ℕ) (n : ℕ) (xs : List T) → k < n → AllFrom n xs → occurrences k (map key xs) ≡ 0
  occurrences-AllFrom k n [] l h = refl
  occurrences-AllFrom k n (x ∷ xs) l (m, h) =
      ground (arith, occurrences-AllFrom k n xs l h, ==_iff k (key x))

  -- In an ascending list the search finds a key that occurs twice, or there is none.
  abbrev pub Finds : List T → Option ℕ → Type 0
  Finds xs none = (k : ℕ) → occurrences k (map key xs) ≤ 1
  Finds xs (some k) = 2 ≤ occurrences k (map key xs)

  Finds-further :
      (x : T) (xs : List T) (r : Option ℕ) (n : ℕ)
      → AllFrom n xs
      → key x < n
      → Finds xs r
      → Finds (x ∷ xs) r
  Finds-further x xs none n a l h = λ k. at_most k (h k)
    where
      at_most : (k : ℕ) → occurrences k (map key xs) ≤ 1 → occurrences k (map key (x ∷ xs)) ≤ 1
      at_most k o = ground (arith, occurrences-AllFrom (key x) n xs l a, ==_iff k (key x))
  Finds-further x xs (some k) n a l h = ground arith

  pub first_repeat-Finds : (xs : List T) → Ascending xs → Finds xs (first_repeat xs)
  unfolding first_repeat
  first_repeat-Finds [] h = λ k. omega arith
  first_repeat-Finds (x ∷ []) h = λ k. ground arith
  first_repeat-Finds (x ∷ y ∷ xs) (l, h) = elim (Bool-cases (key x == key y)) [
    | inl same ↦ rw same (ground (arith, ==_refl (key x)))
    | inr other ↦ rw other (
        Finds-further x (y ∷ xs) _ (key y) (omega arith, AllFrom-Ascending y xs h)
          (ground (arith, ==_iff (key x) (key y))) (first_repeat-Finds (y ∷ xs) h))
  ]

  insert_first : (x : T) (xs : List T) → Ascending (x ∷ xs) → insert_by_key x xs ≡ x ∷ xs
  unfolding insert_by_key
  insert_first x [] h = refl
  insert_first x (y ∷ ys) (l, h) = ground arith

  -- A list in order is left as it is.
  pub sort_by_key-Ascending_id : (xs : List T) → Ascending xs → sort_by_key xs ≡ xs
  unfolding sort_by_key
  sort_by_key-Ascending_id [] h = refl
  sort_by_key-Ascending_id (x ∷ []) h = insert_first x [] h
  sort_by_key-Ascending_id (x ∷ y ∷ xs) (l, h) =
      ap (insert_by_key x) (sort_by_key-Ascending_id (y ∷ xs) h) ∙ insert_first x (y ∷ xs) (l, h)
