-- ===== src/Domain/Auditor/Email.antt =====
-- `valid_normalized_email`, which both files declare alike.
use proofplane.Prelude.{Bool, false, not, ◌&&◌, none, some, is_empty, all, contains}
use proofplane.Text.{split_once, trim, Text, text_eq, is_ascii_uppercase, bytes}

unfoldable pub valid_normalized_email : Text → Bool
unfolding split_once trim
valid_normalized_email value = elim (split_once b'@' value) [
  | none ↦ false
  | some (local, domain) ↦
      not (is_empty local)
      && not (is_empty domain)
      && not (contains b'@' domain)
      && text_eq value (trim value)
      && all (λ byte. not (is_ascii_uppercase byte)) (bytes value)
]
