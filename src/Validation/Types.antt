-- ===== src/Validation/Types.antt =====
-- `Validation` and the macro `validate!` at two and three bindings.
use proofplane.Prelude.{Bool, true, false, Option, none, some, List, [], ◌∷◌, ◌++◌, Result, ok, err}

pub data Validation {ℓ κ} (A : Type ℓ) (E : Type κ) : Type (ℓ ⊔ κ) where
  valid : A → Validation A E
  invalid_many : List E → Validation A E

module _ {ℓ κ} {A : Type ℓ} {E : Type κ} where
  -- `Validation::invalid`
  abbrev pub invalid : E → Validation A E
  invalid e = invalid_many (e ∷ [])

  abbrev pub into_result : Validation A E → Result A (List E)
  into_result (valid a) = ok a
  into_result (invalid_many es) = err es

  abbrev pub is_valid : Validation A E → Bool
  is_valid (valid _) = true
  is_valid (invalid_many _) = false

  abbrev pub is_invalid : Validation A E → Bool
  is_invalid (valid _) = false
  is_invalid (invalid_many _) = true

  -- The errors that a binding of `validate!` appends.
  abbrev pub errors_of : Validation A E → List E
  errors_of (valid _) = []
  errors_of (invalid_many es) = es

  -- The value that it leaves in the variable.
  abbrev pub value_of : Validation A E → Option A
  value_of (valid a) = some a
  value_of (invalid_many _) = none

abbrev pub map_valid {ℓ μ κ} :
    {A : Type ℓ} {B : Type μ} {E : Type κ} → (A → B) → Validation A E → Validation B E
map_valid f (valid a) = valid (f a)
map_valid f (invalid_many es) = invalid_many es

abbrev pub and_then {ℓ μ κ} :
    {A : Type ℓ} {B : Type μ} {E : Type κ} → Validation A E → (A → Validation B E) → Validation B E
and_then (valid a) f = f a
and_then (invalid_many es) f = invalid_many es

-- `validate!` with two bindings: the last `match` of the macro is on the variables and on whether an
-- error was appended.
abbrev pub finish₂ {ℓ μ ν κ} :
    {A : Type ℓ} {B : Type μ} {C : Type ν} {E : Type κ}
    → (A → B → C)
    → Option A
    → Option B
    → List E
    → Validation C E
finish₂ f (some a) (some b) [] = valid (f a b)
finish₂ f (some a) (some b) (e ∷ es) = invalid_many (e ∷ es)
finish₂ f (some a) none es = invalid_many es
finish₂ f none b es = invalid_many es

abbrev pub validate₂ {ℓ μ ν κ} :
    {A : Type ℓ} {B : Type μ} {C : Type ν} {E : Type κ}
    → (A → B → C)
    → Validation A E
    → Validation B E
    → Validation C E
validate₂ f a b = finish₂ f (value_of a) (value_of b) (errors_of a ++ errors_of b)

abbrev pub finish₃ {ℓ μ ν ξ κ} :
    {A : Type ℓ} {B : Type μ} {C : Type ν} {D : Type ξ} {E : Type κ}
    → (A → B → C → D)
    → Option A
    → Option B
    → Option C
    → List E
    → Validation D E
finish₃ f (some a) (some b) (some c) [] = valid (f a b c)
finish₃ f (some a) (some b) (some c) (e ∷ es) = invalid_many (e ∷ es)
finish₃ f (some a) (some b) none es = invalid_many es
finish₃ f (some a) none c es = invalid_many es
finish₃ f none b c es = invalid_many es

abbrev pub validate₃ {ℓ μ ν ξ κ} :
    {A : Type ℓ} {B : Type μ} {C : Type ν} {D : Type ξ} {E : Type κ}
    → (A → B → C → D)
    → Validation A E
    → Validation B E
    → Validation C E
    → Validation D E
validate₃ f a b c =
    finish₃ f (value_of a) (value_of b) (value_of c) (errors_of a ++ errors_of b ++ errors_of c)
