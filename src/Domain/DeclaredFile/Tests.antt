-- ===== src/Domain/DeclaredFile/Tests.antt =====
-- Declarations on concrete data, with a digest of 32 bytes.
use proofplane.Prelude.{ℕ, zero, suc, ◌≡◌, refl, some, List, [], ◌∷◌, ok}
use proofplane.Text.{codes}
use proofplane.Domain.DeclaredFile.Hex.{plain_formats, encode, plain_formats-HexLaws}
use proofplane.Domain.DeclaredFile.Rules.{new-rehydrate}
use proofplane.Domain.DeclaredFile.Types.{Declaration, DeclaredUploadFile, new, rehydrate}
use proofplane.Domain.Error.{document_content_length_too_large}
use proofplane.Validation.Types.{valid, invalid_many}

abbrev repeat : ℕ → ℕ → List ℕ
repeat zero b = []
repeat (suc n) b = b ∷ repeat n b

abbrev digest : List ℕ
digest = repeat 32 171

abbrev report : Declaration
report = record {
  filename = codes "report.pdf";
  content_type = codes "application/pdf";
  expected_content_length = 3;
  expected_sha256 = some (encode digest);
}

abbrev report_file : DeclaredUploadFile
report_file = record {
  filename = codes "report.pdf";
  content_type = codes "application/pdf";
  expected_content_length = 3;
  expected_sha256 = some digest;
}

new_test : new plain_formats report 100 ≡ valid report_file
unfolding new
new_test = refl

too_large_test :
    new plain_formats report 2 ≡ invalid_many (document_content_length_too_large 2 ∷ [])
unfolding new
too_large_test = refl

new-rehydrate_example : rehydrate plain_formats report_file ≡ ok report_file
new-rehydrate_example =
    new-rehydrate plain_formats plain_formats-HexLaws report 100 report_file new_test
