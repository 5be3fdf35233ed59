-- ===== src/Domain/Error.antt =====
-- src/domain/error.rs: what a field or a list of a request can be refused for.
use proofplane.Prelude.{ℕ}
use proofplane.Text.{Text}

pub data DomainError : Type 0 where
  empty_required_text blank_optional_text : Text → DomainError
  required_text_too_long optional_text_too_long : Text → ℕ → DomainError
  invalid_enum_value : Text → Text → DomainError
  duplicate_permission : Text → DomainError
  duplicate_policy_control_id invalid_coverage_window invalid_audit_review_period : DomainError
  empty_document_filename document_filename_too_long : DomainError
  invalid_document_filename_characters reserved_document_filename : DomainError
  invalid_document_content_type : DomainError
  document_content_length_too_large : ℕ → DomainError
  invalid_document_sha256_checksum : DomainError
