-- ===== src/Domain/Fields/FilenamePath.antt =====
-- An accepted file name is one plain segment of a path.
use mathlib.Core.List.{append_assoc}
use proofplane.Prelude.{
  ℕ, ◌≡◌, refl, sym, ap, subst, ◌∙◌, true, false, ◌||◌, List, [], ◌∷◌, ◌++◌, arith, ◌==◌, is_empty,
  any, All,
}
use proofplane.Text.{Text, trim, text_eq_iff, codes}
use proofplane.Domain.Fields.Filename.{is_filename_byte, validate_document_filename}
use proofplane.Domain.Fields.FilenameRules.{IsFilename, validate_document_filename_iff}
use proofplane.Text.Join.{join, IsFree}
use proofplane.Validation.Canonical.{IsSegment, is_canonical_relative_path_iff}
use proofplane.Validation.Paths.{is_canonical_relative_path}
use proofplane.Validation.Types.{valid}

portable_no_slash : (c : ℕ) → is_filename_byte c ≡ true → (b'/' == c) ≡ false
portable_no_slash c h = ground arith

portable_plain : (c : ℕ) → is_filename_byte c ≡ true → (c == b'\\' || c == 0) ≡ false
portable_plain c h = ground arith

portable_IsFree : (v : Text) → All (λ c. is_filename_byte c ≡ true) v → IsFree b'/' v
portable_IsFree [] a = refl
portable_IsFree (c ∷ v) a = ground (arith, portable_no_slash c a.0, portable_IsFree v a.1)

portable_any :
    (v : Text) → All (λ c. is_filename_byte c ≡ true) v → any (λ c. c == b'\\' || c == 0) v ≡ false
portable_any [] a = refl
portable_any (c ∷ v) a = ground (arith, portable_plain c a.0, portable_any v a.1)

trim_empty : is_empty (trim []) ≡ true
unfolding trim
trim_empty = refl

visible_nonempty : (v : Text) → is_empty (trim v) ≡ false → is_empty v ≡ false
visible_nonempty [] h = cc trim_empty
visible_nonempty (c ∷ v) h = refl

join-push :
    (d : ℕ) (s : Text) (rest : List Text) (w : Text)
    → join d (s ∷ (rest ++ w ∷ [])) ≡ join d (s ∷ rest) ++ d ∷ w
unfolding join
join-push d s [] w = refl
join-push d s (t ∷ rest) w =
    ap (λ x. s ++ d ∷ x) (join-push d t rest w)
    ∙ sym (append_assoc s (d ∷ join d (t ∷ rest)) (d ∷ w))

segments-push :
    (segments : List Text) (w : Text)
    → All IsSegment segments
    → IsSegment w
    → All IsSegment (segments ++ w ∷ [])
segments-push [] w a h = (h, tt)
segments-push (s ∷ rest) w a h = (a.0, segments-push rest w a.1 h)

filename-IsSegment : (v : Text) → IsFilename v → IsSegment v
filename-IsSegment v h = (
  ground (
    arith,
    visible_nonempty v h.visible,
    text_eq_iff v (codes "."),
    text_eq_iff v (codes ".."),
    h.not_here,
    h.not_parent,
    portable_any v h.portable,
  ),
  portable_IsFree v h.portable,
)

-- If a prefix is a canonical relative path and a file name is accepted, the prefix, a slash and the
-- accepted name are a canonical relative path again.
pub filename-path :
    (prefix name w : Text)
    → is_canonical_relative_path prefix ≡ true
    → validate_document_filename name ≡ valid w
    → is_canonical_relative_path (prefix ++ b'/' ∷ w) ≡ true
filename-path prefix name w p h =
    let (e, named) = (validate_document_filename_iff name w).0 h in
    let (s, rest, parts, q) = (is_canonical_relative_path_iff prefix).0 p in
    let segment : IsSegment w = subst IsSegment (sym e) (filename-IsSegment name named) in
    (is_canonical_relative_path_iff (prefix ++ b'/' ∷ w)).1 (
      s,
      rest ++ w ∷ [],
      segments-push (s ∷ rest) w parts segment,
      ap (λ x. x ++ b'/' ∷ w) q ∙ sym (join-push b'/' s rest w),
    )
