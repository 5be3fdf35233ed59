-- ===== src/Domain/Fields/FilenameRules.antt =====
-- Which file names `validate_document_filename` accepts, in terms of characters.
use proofplane.Prelude.{
  ◌≤◌, ◌≡◌, sym, ◌∙◌, ◌≢◌, ◌↔◌, Bool, true, false, not, ◌||◌, List, [], ◌∷◌, arith, ltb, length,
  is_empty, all, All,
}
use proofplane.Text.{Text, trim, codes, len, bytes, text_eq, text_eq_iff}
use proofplane.Domain.Error.{DomainError}
use proofplane.Domain.Fields.Filename.{
  filename_errors, validate_document_filename, is_filename_byte, push_if,
}
use proofplane.Domain.Fields.Portable.{bytes_portable, All-iff, len_portable}
use proofplane.Validation.Types.{valid, invalid_many}

-- The rules in terms of characters.
pub record IsFilename (v : Text) : Type 0 where
  pub portable : All (λ c. is_filename_byte c ≡ true) v
  pub visible : is_empty (trim v) ≡ false
  pub short : length v ≤ 255
  pub not_here : v ≢ codes "."
  pub not_parent : v ≢ codes ".."

no_push :
    (a b c d : Bool) (w x y z : DomainError)
    → (push_if d z (push_if (not c) y (push_if b x (push_if a w []))) ≡ [])
      ↔ ((a ≡ false) × (b ≡ false) × (c ≡ true) × (d ≡ false))
no_push true b c d w x y z = (λ h. ground arith, λ h. cc (h.0))
no_push false b c d w x y z = (λ h. ground arith, λ h. ground arith)

-- The four tests of `filename_errors`.
no_errors :
    (v : Text)
    → (filename_errors v ≡ []) ↔ (
        (is_empty (trim v) ≡ false)
        × (ltb 255 (len v) ≡ false)
        × (all is_filename_byte (bytes v) ≡ true)
        × ((text_eq v (codes ".") || text_eq v (codes "..")) ≡ false))
unfolding filename_errors
no_errors v = no_push _ _ _ _ _ _ _ _

pass_on :
    (es : List DomainError) (v w : Text)
    → ((elim es [ [] ↦ valid v | e ∷ es ↦ invalid_many (e ∷ es) ]) ≡ valid w)
      ↔ ((w ≡ v) × (es ≡ []))
pass_on es v w = (λ h. ground arith, λ h. ground arith)

validate_document_filename_lem :
    (v w : Text) → (validate_document_filename v ≡ valid w) ↔ ((w ≡ v) × (filename_errors v ≡ []))
unfolding validate_document_filename
validate_document_filename_lem v w = pass_on (filename_errors v) v w

-- validate_document_filename accepts a name, and as it is, exactly when its characters are all
-- portable, it is not blank, it has at most 255 characters, and it is neither one dot nor two.
pub validate_document_filename_iff :
    (v w : Text) → (validate_document_filename v ≡ valid w) ↔ ((w ≡ v) × IsFilename v)
validate_document_filename_iff v w = (
  λ h.
      let (e, n) = (validate_document_filename_lem v w).0 h in
      let (visible, short, portable, named) = (no_errors v).0 n in
      let chars = sym (bytes_portable v) ∙ portable in
      (
        e,
        record {
          portable = (All-iff is_filename_byte v).0 chars;
          visible = visible;
          short = ground (arith, len_portable v chars);
          not_here = λ q. ground (arith, text_eq_iff v (codes "."));
          not_parent = λ q. ground (arith, text_eq_iff v (codes ".."));
        },
      ),
  λ (e, h).
      let chars = (All-iff is_filename_byte v).1 h.portable in
      (validate_document_filename_lem v w).1 (
        e,
        (no_errors v).1 (
          h.visible,
          ground (arith, len_portable v chars, h.short),
          bytes_portable v ∙ chars,
          ground (
            arith,
            text_eq_iff v (codes "."),
            text_eq_iff v (codes ".."),
            h.not_here,
            h.not_parent,
          ),
        ),
      ),
)
