-- ===== src/Validation/Tests.antt =====
-- Paths on concrete data.
use proofplane.Prelude.{◌≡◌, refl, false}
use proofplane.Text.{codes, Text}
use proofplane.Validation.Paths.{is_canonical_relative_path}

escape_test : is_canonical_relative_path (codes "documents/../secrets") ≡ false
unfolding is_canonical_relative_path
escape_test = refl
