-- ===== src/Domain/Fields/Filename.antt =====
-- `validate_document_filename`.
use proofplane.Prelude.{
  ℕ, Bool, not, ◌||◌, List, [], ◌∷◌, ◌++◌, ltb, ◌==◌, if◌then◌else◌, is_empty, all,
}
use proofplane.Text.{is_ascii_alphanumeric, trim, Text, len, bytes, text_eq, codes}
use proofplane.Domain.Error.{
  DomainError, empty_document_filename, document_filename_too_long,
  invalid_document_filename_characters, reserved_document_filename,
}
use proofplane.Validation.Types.{Validation, valid, invalid_many}

-- A byte that a file name may hold.
abbrev pub is_filename_byte : ℕ → Bool
is_filename_byte b =
    is_ascii_alphanumeric b
    || b == b' '
    || b == b'.'
    || b == b'_'
    || b == b'-'
    || b == b'('
    || b == b')'

-- `if c { errors.push(e) }`
abbrev pub push_if : Bool → DomainError → List DomainError → List DomainError
push_if c e es = if c then es ++ e ∷ [] else es

unfoldable pub filename_errors : Text → List DomainError
unfolding trim
filename_errors value =
    let blank = push_if (is_empty (trim value)) empty_document_filename [] in
    let long = push_if (ltb 255 (len value)) document_filename_too_long blank in
    let odd =
      push_if (not (all is_filename_byte (bytes value))) invalid_document_filename_characters
        long in
    push_if (text_eq value (codes ".") || text_eq value (codes "..")) reserved_document_filename odd

unfoldable pub validate_document_filename : Text → Validation Text DomainError
unfolding filename_errors
validate_document_filename value = elim (filename_errors value) [
  | [] ↦ valid value
  | e ∷ es ↦ invalid_many (e ∷ es)
]
