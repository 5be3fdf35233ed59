-- ===== src/Validation/Paths.antt =====
-- `is_canonical_relative_path`, which the configuration asks of the prefixes of object keys.
use proofplane.Prelude.{Bool, not, ◌&&◌, ◌||◌, ◌==◌, is_empty, all, any}
use proofplane.Text.{Text, starts_with, text_eq, ends_with, codes, split}

-- A segment that names a file or a directory below the current one.
abbrev pub is_plain : Text → Bool
is_plain segment =
    not (is_empty segment)
    && not (text_eq segment (codes "."))
    && not (text_eq segment (codes ".."))
    && not (any (λ c. c == b'\\' || c == 0) segment)

unfoldable pub is_canonical_relative_path : Text → Bool
unfolding starts_with ends_with split
is_canonical_relative_path value =
    not (is_empty value)
    && not (starts_with b'/' value)
    && not (ends_with b'/' value)
    && all is_plain (split b'/' value)
