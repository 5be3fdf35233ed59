-- ===== src/Text/Split.antt =====
-- `str::split` and `str::split_once` by one character, and the tests on the ends of a text.
use proofplane.Prelude.{ℕ, Bool, false, Option, none, some, List, [], ◌∷◌, ◌==◌, if◌then◌else◌}
use proofplane.Text.Base.{Text}

unfoldable pub starts_with : ℕ → Text → Bool
starts_with d [] = false
starts_with d (c ∷ _) = c == d

unfoldable pub ends_with : ℕ → Text → Bool
ends_with d [] = false
ends_with d (c ∷ []) = c == d
ends_with d (_ ∷ c ∷ s) = ends_with d (c ∷ s)

-- Puts a character in front of the first segment.
abbrev pub cons_first : ℕ → List Text → List Text
cons_first c [] = (c ∷ []) ∷ []
cons_first c (segment ∷ rest) = (c ∷ segment) ∷ rest

-- `str::split`: one segment more than the text has separators.
unfoldable pub split : ℕ → Text → List Text
split d [] = [] ∷ []
split d (c ∷ s) = let rest = split d s in if c == d then [] ∷ rest else cons_first c rest

-- `str::split_once`: what stands before and after the first separator.
unfoldable pub split_once : ℕ → Text → Option (Text × Text)
split_once d [] = none
split_once d (c ∷ s) =
    let rest = split_once d s in
    if c == d
    then some ([], s)
    else elim rest [ none ↦ none | some (before, after) ↦ some (c ∷ before, after) ]
