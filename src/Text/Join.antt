-- ===== src/Text/Join.antt =====
-- `split` by a separator is undone by joining with it, and the other way round.
use proofplane.Prelude.{
  ℕ, ◌≡◌, refl, ap, ◌∙◌, inl, inr, false, List, [], ◌∷◌, ◌++◌, arith, ◌==◌, ==_refl, Bool-cases,
  All, contains,
}
use proofplane.Text.{Text, split, cons_first}

unfoldable pub join : ℕ → List Text → Text
join d [] = []
join d (s ∷ []) = s
join d (s ∷ t ∷ rest) = s ++ d ∷ join d (t ∷ rest)

pub split-ne : (d : ℕ) (s : Text) → (t : Text) × (rest : List Text) × (split d s ≡ t ∷ rest)
unfolding split
split-ne d [] = ([], [], refl)
split-ne d (c ∷ s) =
    let (t, rest, e) = split-ne d s in
    elim (Bool-cases (c == d)) [
      | inl here ↦ ([], split d s, rw here)
      | inr other ↦ (c ∷ t, rest, rw (other, e))
    ]

join-cons_first :
    (d c : ℕ) (segments : List Text) → join d (cons_first c segments) ≡ c ∷ join d segments
unfolding join
join-cons_first d c [] = refl
join-cons_first d c (s ∷ []) = refl
join-cons_first d c (s ∷ t ∷ rest) = refl

-- An empty first segment leaves the separator.
join_empty_first :
    (d : ℕ) (segments : List Text) (t : Text) (rest : List Text)
    → segments ≡ t ∷ rest
    → join d ([] ∷ segments) ≡ d ∷ join d segments
unfolding join
join_empty_first d segments t rest e = rw e

pub join-split : (d : ℕ) (s : Text) → join d (split d s) ≡ s
unfolding split join
join-split d [] = refl
join-split d (c ∷ s) = elim (Bool-cases (c == d)) [
  | inl here ↦
      let (t, rest, e) = split-ne d s in
      let cut : join d ([] ∷ split d s) ≡ d ∷ join d (split d s) =
        join_empty_first d (split d s) t rest e in
      let same : d ≡ c = ground arith in
      rw here (cut ∙ ap (◌∷◌ d) (join-split d s) ∙ ap (λ x. x ∷ s) same)
  | inr other ↦ rw other (join-cons_first d c (split d s) ∙ ap (◌∷◌ c) (join-split d s))
]

-- No segment holds the separator.
abbrev pub IsFree : ℕ → Text → Type 0
IsFree d s = contains d s ≡ false

cons_first-IsFree :
    (d c : ℕ) (segments : List Text)
    → (c == d) ≡ false
    → All (IsFree d) segments
    → All (IsFree d) (cons_first c segments)
cons_first-IsFree d c [] h a = (ground arith, tt)
cons_first-IsFree d c (s ∷ rest) h a = (ground (arith, a.0), a.1)

pub split-IsFree : (d : ℕ) (s : Text) → All (IsFree d) (split d s)
unfolding split
split-IsFree d [] = (refl, tt)
split-IsFree d (c ∷ s) = elim (Bool-cases (c == d)) [
  | inl here ↦ rw here (refl, split-IsFree d s)
  | inr other ↦ rw other (cons_first-IsFree d c (split d s) other (split-IsFree d s))
]

split_free : (d : ℕ) (s : Text) → IsFree d s → split d s ≡ s ∷ []
unfolding split
split_free d [] h = refl
split_free d (c ∷ s) h =
    let other : (c == d) ≡ false = ground arith in
    let ih = split_free d s (ground arith) in rw (other, ih)

split-append : (d : ℕ) (s t : Text) → IsFree d s → split d (s ++ d ∷ t) ≡ s ∷ split d t
unfolding split
split-append d [] t h = rw (==_refl d)
split-append d (c ∷ s) t h =
    let other : (c == d) ≡ false = ground arith in
    let ih = split-append d s t (ground arith) in rw (other, ih)

pub split-join :
    (d : ℕ) (s : Text) (segments : List Text)
    → All (IsFree d) (s ∷ segments)
    → split d (join d (s ∷ segments)) ≡ s ∷ segments
unfolding join
split-join d s [] a = split_free d s a.0
split-join d s (t ∷ rest) a =
    split-append d s (join d (t ∷ rest)) a.0 ∙ ap (◌∷◌ s) (split-join d t rest a.1)
