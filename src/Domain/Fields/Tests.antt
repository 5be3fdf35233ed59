-- ===== src/Domain/Fields/Tests.antt =====
-- File names on concrete data.
use proofplane.Prelude.{◌≡◌, refl, ◌↔◌, true, [], ◌∷◌, ◌++◌}
use proofplane.Text.{codes}
use proofplane.Domain.Error.{invalid_document_filename_characters}
use proofplane.Domain.Fields.Filename.{validate_document_filename}
use proofplane.Domain.Fields.FilenamePath.{filename-path}
use proofplane.Domain.Fields.FilenameRules.{IsFilename, validate_document_filename_iff}
use proofplane.Validation.Paths.{is_canonical_relative_path}
use proofplane.Validation.Types.{invalid_many, valid}

name_test :
    validate_document_filename (codes "../final.pdf")
    ≡ invalid_many (invalid_document_filename_characters ∷ [])
unfolding validate_document_filename
name_test = refl

report_test : validate_document_filename (codes "Q1(final).pdf") ≡ valid (codes "Q1(final).pdf")
unfolding validate_document_filename
report_test = refl

prefix_test : is_canonical_relative_path (codes "documents/7") ≡ true
unfolding is_canonical_relative_path
prefix_test = refl

filename-path_example :
    is_canonical_relative_path (codes "documents/7" ++ b'/' ∷ codes "Q1(final).pdf") ≡ true
filename-path_example =
    filename-path (codes "documents/7") (codes "Q1(final).pdf") (codes "Q1(final).pdf") prefix_test
      report_test

validate_document_filename_iff_example :
    (validate_document_filename (codes "..") ≡ valid (codes ".."))
    ↔ ((codes ".." ≡ codes "..") × IsFilename (codes ".."))
validate_document_filename_iff_example = validate_document_filename_iff (codes "..") (codes "..")
