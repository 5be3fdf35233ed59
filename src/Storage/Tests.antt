-- ===== src/Storage/Tests.antt =====
-- Keys of one workspace and of two, where an identifier is written in as many digits as its number says.
use proofplane.Prelude.{
  ℕ, zero, suc, ◌≡◌, refl, ap, ◌↔◌, true, Option, none, some, [], ◌∷◌, length, all, ok, err,
}
use proofplane.Text.{Text, codes}
use proofplane.Messaging.Types.{Uuids}
use proofplane.Storage.Key.{new, parse, invalid_key, ObjectKey, has_same_workspace}
use proofplane.Storage.KeyRules.{new-parse, has_same_workspace_iff}
use proofplane.Storage.Segments.{is_uuid_code, UuidTextLaws}

abbrev digits : ℕ → Text
digits zero = []
digits (suc n) = b'a' ∷ digits n

abbrev count_digits : Text → Option ℕ
count_digits [] = none
count_digits (_ ∷ s) = some (length s)

abbrev unary : Uuids
unary = record { uuid_text = λ id. digits (suc id); parse_uuid = count_digits }

length-digits : (n : ℕ) → length (digits n) ≡ n
length-digits zero = refl
length-digits (suc n) = ap suc (length-digits n)

digits-all : (n : ℕ) → all is_uuid_code (digits n) ≡ true
digits-all zero = refl
digits-all (suc n) = digits-all n

unary-UuidTextLaws : UuidTextLaws unary
unary-UuidTextLaws = record {
  parse_text = λ id. ap some (length-digits id);
  text_codes = λ id. digits-all (suc id);
  text_nonempty = λ id. refl;
}

abbrev report_key : ObjectKey
report_key = record { value = codes "workspaces/aaa/policies/1/report.pdf" }

abbrev other_key : ObjectKey
other_key = record { value = codes "workspaces/aaaa/policies/1/report.pdf" }

report_key_test : new unary 2 (codes "policies/1") (codes "report.pdf") ≡ ok report_key
unfolding new
report_key_test = refl

other_key_test : new unary 3 (codes "policies/1") (codes "report.pdf") ≡ ok other_key
unfolding new
other_key_test = refl

escaping_test : new unary 2 (codes "policies/../1") (codes "report.pdf") ≡ err invalid_key
unfolding new
escaping_test = refl

short_test : parse unary (codes "workspaces/aaa/report.pdf") ≡ err invalid_key
unfolding parse
short_test = refl

new-parse_example : parse unary report_key.value ≡ ok report_key
new-parse_example =
    new-parse unary unary-UuidTextLaws 2 (codes "policies/1") (codes "report.pdf") report_key
      report_key_test

has_same_workspace_iff_example : (has_same_workspace report_key other_key ≡ true) ↔ ◌≡◌ {A = ℕ} 2 3
has_same_workspace_iff_example =
    has_same_workspace_iff unary unary-UuidTextLaws 2 3 (codes "policies/1") (codes "report.pdf")
      (codes "policies/1") (codes "report.pdf") report_key other_key report_key_test other_key_test
