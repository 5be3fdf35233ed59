-- ===== src/Outbox/Ordering.antt =====
-- `ORDER BY … LIMIT …` on a list: sorting by a test of precedence, and a prefix of the result.
use proofplane.Prelude.{ℕ, zero, suc, Bool, List, [], ◌∷◌, if◌then◌else◌}

module _ {ℓ} {A : Type ℓ} (before : A → A → Bool) where
  unfoldable pub insert_sorted : A → List A → List A
  insert_sorted x [] = x ∷ []
  insert_sorted x (y ∷ ys) =
      let rest = insert_sorted x ys in if before x y then x ∷ y ∷ ys else y ∷ rest

  unfoldable pub order_by : List A → List A
  unfolding insert_sorted
  order_by [] = []
  order_by (x ∷ xs) = insert_sorted x (order_by xs)

-- `WHERE`
abbrev pub where_ {ℓ} : {A : Type ℓ} → (A → Bool) → List A → List A
where_ p [] = []
where_ p (x ∷ xs) = let rest = where_ p xs in if p x then x ∷ rest else rest

-- `LIMIT`
abbrev pub limit {ℓ} : {A : Type ℓ} → ℕ → List A → List A
limit zero xs = []
limit (suc n) [] = []
limit (suc n) (x ∷ xs) = x ∷ limit n xs
