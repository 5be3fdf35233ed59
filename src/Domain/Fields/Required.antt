-- ===== src/Domain/Fields/Required.antt =====
-- `required_text` and `optional_text`.
use proofplane.Prelude.{ℕ, Option, none, some, ltb, if◌then◌else◌, length, is_empty}
use proofplane.Text.{trim, Text}
use proofplane.Domain.Error.{
  DomainError, empty_required_text, blank_optional_text, optional_text_too_long,
}
use proofplane.Validation.Types.{Validation, valid, invalid}

unfoldable pub required_text : Text → Text → Validation Text DomainError
unfolding trim
required_text field value =
    if is_empty (trim value) then invalid (empty_required_text field) else valid value

-- The part of `optional_text` that a given value reaches.
unfoldable pub given_text : Text → Text → ℕ → Validation (Option Text) DomainError
given_text field value maximum =
    if is_empty value
    then invalid (blank_optional_text field)
    else if ltb maximum (length value)
    then invalid (optional_text_too_long field maximum)
    else valid (some value)

unfoldable pub optional_text : Text → Option Text → ℕ → Validation (Option Text) DomainError
unfolding given_text trim
optional_text field none maximum = valid none
optional_text field (some value) maximum = given_text field (trim value) maximum
