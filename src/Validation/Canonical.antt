-- ===== src/Validation/Canonical.antt =====
-- `is_canonical_relative_path` against a description that does not split: the accepted paths are the
-- plain segments that are joined by slashes.
use proofplane.Prelude.{
  ℕ, ◌≡◌, refl, sym, ap, subst, ◌∙◌, ◌↔◌, true, false, List, [], ◌∷◌, ◌++◌, arith, and_left,
  and_right, is_empty, all, All,
}
use proofplane.Text.{Text, starts_with, ends_with, split}
use proofplane.Text.Join.{join, IsFree, split-ne, split-IsFree, join-split, split-join}
use proofplane.Validation.Paths.{is_canonical_relative_path, is_plain}

-- A segment of such a path.
abbrev pub IsSegment : Text → Type 0
IsSegment s = (is_plain s ≡ true) × IsFree b'/' s

starts_free : (d : ℕ) (s : Text) → IsFree d s → starts_with d s ≡ false
unfolding starts_with
starts_free d [] h = refl
starts_free d (c ∷ s) h = ground arith

ends_free : (d : ℕ) (s : Text) → IsFree d s → ends_with d s ≡ false
unfolding ends_with
ends_free d [] h = refl
ends_free d (c ∷ []) h = ground arith
ends_free d (c ∷ b ∷ s) h = ends_free d (b ∷ s) (ground arith)

ends_with-append :
    (d : ℕ) (s : Text) (c : ℕ) (t : Text) → ends_with d (s ++ c ∷ t) ≡ ends_with d (c ∷ t)
unfolding ends_with
ends_with-append d [] c t = refl
ends_with-append d (a ∷ []) c t = refl
ends_with-append d (a ∷ b ∷ s) c t = ends_with-append d (b ∷ s) c t

join_segment :
    (s : Text) (rest : List Text)
    → IsSegment s
    → (c : ℕ) × (t : Text) × (join b'/' (s ∷ rest) ≡ c ∷ t) × (starts_with b'/' (c ∷ t) ≡ false)
unfolding join starts_with
join_segment [] rest h = cc (h.0)
join_segment (c ∷ s) [] h = (c, s, refl, ground (arith, h.1))
join_segment (c ∷ s) (t ∷ rest) h = (c, s ++ b'/' ∷ join b'/' (t ∷ rest), refl, ground (arith, h.1))

ends_with-join :
    (s : Text) (rest : List Text)
    → All IsSegment (s ∷ rest)
    → ends_with b'/' (join b'/' (s ∷ rest)) ≡ false
unfolding join ends_with
ends_with-join s [] a = ends_free b'/' s a.0.1
ends_with-join s (t ∷ rest) a =
    let (c, u, e, _) = join_segment t rest a.1.0 in
    ends_with-append b'/' s b'/' (join b'/' (t ∷ rest)) ∙ last c u e (ends_with-join t rest a.1)
  where
    last :
        (c : ℕ) (u : Text)
        → join b'/' (t ∷ rest) ≡ c ∷ u
        → ends_with b'/' (join b'/' (t ∷ rest)) ≡ false
        → ends_with b'/' (b'/' ∷ join b'/' (t ∷ rest)) ≡ false
    last c u e h = rw e (rw e at h)

All-plain : (segments : List Text) → All IsSegment segments → all is_plain segments ≡ true
All-plain [] a = refl
All-plain (s ∷ rest) a = ground (arith, a.0.0, All-plain rest a.1)

plain-All :
    (segments : List Text)
    → all is_plain segments ≡ true
    → All (IsFree b'/') segments
    → All IsSegment segments
plain-All [] h f = tt
plain-All (s ∷ rest) h f = (
  (and_left (is_plain s) (all is_plain rest) h, f.0),
  plain-All rest (and_right (is_plain s) (all is_plain rest) h) f.1,
)

IsFree-parts : (segments : List Text) → All IsSegment segments → All (IsFree b'/') segments
IsFree-parts [] a = tt
IsFree-parts (s ∷ rest) a = (a.0.1, IsFree-parts rest a.1)

canonical_of_tests :
    (v : Text)
    → is_empty v ≡ false
    → starts_with b'/' v ≡ false
    → ends_with b'/' v ≡ false
    → all is_plain (split b'/' v) ≡ true
    → is_canonical_relative_path v ≡ true
unfolding is_canonical_relative_path
canonical_of_tests v a b c d = rw (a, b, c, d)

canonical_parts :
    (v : Text) → is_canonical_relative_path v ≡ true → all is_plain (split b'/' v) ≡ true
unfolding is_canonical_relative_path
canonical_parts v h = ground arith

pub is_canonical_relative_path_iff :
    (value : Text)
    → (is_canonical_relative_path value ≡ true) ↔ (
        (s : Text) × (rest : List Text) × All IsSegment (s ∷ rest) × (value ≡ join b'/' (s ∷ rest)))
is_canonical_relative_path_iff value = (
  λ h.
      let (s, rest, e) = split-ne b'/' value in
      let parts =
        plain-All (split b'/' value) (canonical_parts value h) (split-IsFree b'/' value) in
      (s, rest, subst (All IsSegment) e parts, sym (join-split b'/' value) ∙ ap (join b'/') e),
  λ (s, rest, a, e).
      let (c, t, q, start) = join_segment s rest a.0 in
      rw e (
        canonical_of_tests (join b'/' (s ∷ rest)) (rw q refl) (rw q start) (ends_with-join s rest a)
          (rw (split-join b'/' s rest (IsFree-parts (s ∷ rest) a)) (All-plain (s ∷ rest) a))),
)
