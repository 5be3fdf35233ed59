-- ===== src/Domain/DeclaredFile/Types.antt =====
-- `DeclaredUploadFile` and its operations. A `u64` is a natural number below 2^64.
use Prim.Native.Nat.{min}
use proofplane.Prelude.{
  ℕ, Bool, true, not, ◌&&◌, Option, none, some, List, [], ltb, leb, ◌==◌, if◌then◌else◌, is_none,
  is_some_and, map_some, length, is_empty, ℤ, pos, negsuc, i64_max, Result, ◌>>=◌, ◌>>◌, map_err,
  ok_or, guard,
}
use proofplane.Text.{Text, trim, text_eq, len}
use proofplane.Domain.DeclaredFile.Formats.{Formats, is_lowercase_sha256}
use proofplane.Domain.Error.{
  DomainError, invalid_document_content_type, document_content_length_too_large,
  invalid_document_sha256_checksum,
}
use proofplane.Domain.Fields.Filename.{validate_document_filename, push_if}
use proofplane.Domain.Ids.{Sha256Digest}
use proofplane.Validation.Types.{Validation, into_result, valid, invalid_many, value_of, errors_of}

pub record DeclaredUploadFile : Type 0 where
  pub filename : Text
  pub content_type : Text
  pub expected_content_length : ℕ
  pub expected_sha256 : Option Sha256Digest

pub data DeclaredUploadFileError : Type 0 where
  invalid_rehydration content_type_mismatch : DeclaredUploadFileError
  declared_content_length_mismatch received_content_length_mismatch : DeclaredUploadFileError
  checksum_mismatch : DeclaredUploadFileError

-- The arguments of `new` but the limit.
pub record Declaration : Type 0 where
  pub filename : Text
  pub content_type : Text
  pub expected_content_length : ℕ
  pub expected_sha256 : Option Text

abbrev pub max_content_type_bytes : ℕ
max_content_type_bytes = 255

-- `try_into` to `[u8; 32]`
abbrev pub digest_of_bytes : List ℕ → Option Sha256Digest
digest_of_bytes bs = if length bs == 32 then some bs else none

abbrev pub digest_of_decoded : Option (List ℕ) → Option (Option Sha256Digest)
digest_of_decoded none = none
digest_of_decoded (some bs) = map_some some (digest_of_bytes bs)

module _ (f : Formats) where
  unfoldable pub valid_content_type : Text → Bool
  unfolding trim
  valid_content_type content_type =
      not (is_empty content_type)
      && leb (len content_type) max_content_type_bytes
      && text_eq (trim content_type) content_type
      && f.is_media_type content_type
      && f.is_header_value content_type

  -- `none` is an invalid checksum, `some none` is no checksum.
  unfoldable pub checksum : Option Text → Option (Option Sha256Digest)
  unfolding is_lowercase_sha256
  checksum none = some none
  checksum (some value) =
      if is_lowercase_sha256 value then digest_of_decoded (f.hex_decode value) else none

  unfoldable pub declaration_errors : Declaration → ℕ → List DomainError
  unfolding valid_content_type checksum validate_document_filename
  declaration_errors d max_bytes =
      let maximum = min max_bytes i64_max in
      let names = errors_of (validate_document_filename d.filename) in
      let types =
        push_if (not (valid_content_type d.content_type)) invalid_document_content_type names in
      let sizes =
        push_if (ltb maximum d.expected_content_length) (document_content_length_too_large maximum)
          types in
      push_if (is_none (checksum d.expected_sha256)) invalid_document_sha256_checksum sizes

  -- The last `match` of `new`.
  abbrev pub declared :
      Declaration
      → Option Text
      → Bool
      → Option (Option Sha256Digest)
      → List DomainError
      → Validation DeclaredUploadFile DomainError
  declared d (some filename) true (some sha256) [] = valid (record {
    filename = filename;
    content_type = d.content_type;
    expected_content_length = d.expected_content_length;
    expected_sha256 = sha256;
  })
  declared d _ _ _ errors = invalid_many errors

  unfoldable pub new : Declaration → ℕ → Validation DeclaredUploadFile DomainError
  unfolding declaration_errors
  new d max_bytes =
      declared d (value_of (validate_document_filename d.filename))
        (valid_content_type d.content_type) (checksum d.expected_sha256)
        (declaration_errors d max_bytes)

  -- What `rehydrate` hands to `new`: the digest in hexadecimal.
  abbrev pub redeclared : DeclaredUploadFile → Declaration
  redeclared u = record {
    filename = u.filename;
    content_type = u.content_type;
    expected_content_length = u.expected_content_length;
    expected_sha256 = map_some f.hex_encode u.expected_sha256;
  }

  unfoldable pub rehydrate : DeclaredUploadFile → Result DeclaredUploadFile DeclaredUploadFileError
  unfolding new
  rehydrate u = map_err (λ _. invalid_rehydration) (into_result (new (redeclared u) i64_max))

  unfoldable pub validate_declared :
      DeclaredUploadFile → Text → ℕ → Result (Unit {0}) DeclaredUploadFileError
  validate_declared u content_type content_length = do
    guard (text_eq content_type u.content_type) content_type_mismatch
    guard (content_length == u.expected_content_length) declared_content_length_mismatch

  -- `u64::try_from`
  abbrev pub to_u64 : ℤ → Option ℕ
  to_u64 (pos n) = some n
  to_u64 (negsuc _) = none

  unfoldable pub validate_staged :
      DeclaredUploadFile → ℤ → Text → Result (Unit {0}) DeclaredUploadFileError
  validate_staged u content_length checksum_sha256 = do
    received ← ok_or (to_u64 content_length) received_content_length_mismatch
    guard (received == u.expected_content_length) received_content_length_mismatch
    guard
        (not (is_some_and u.expected_sha256 (λ e. not (text_eq (f.hex_encode e) checksum_sha256))))
        checksum_mismatch
