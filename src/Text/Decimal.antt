-- ===== src/Text/Decimal.antt =====
-- The decimal text of a number, as `to_string` writes it.
use proofplane.Prelude.{ℕ, zero, suc, ◌+◌, ◌/◌, ◌%◌, true, false, [], ◌∷◌, ltb}
use proofplane.Text.{Text}

-- The digits of a number below ten to the power of the fuel, the last one first put down.
abbrev pub digits : ℕ → ℕ → Text → Text
digits zero n rest = rest
digits (suc fuel) n rest = elim (ltb n 10) [
  | true ↦ (48 + n) ∷ rest
  | false ↦ digits fuel (n / 10) ((48 + n % 10) ∷ rest)
]

-- A number has no more digits than it counts, so the fuel is enough.
unfoldable pub decimal : ℕ → Text
decimal n = digits (suc n) n []
