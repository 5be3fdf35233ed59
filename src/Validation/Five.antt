-- ===== src/Validation/Five.antt =====
-- `validate!` with five bindings.
use proofplane.Prelude.{Option, none, some, List, [], ◌∷◌, ◌++◌}
use proofplane.Validation.Types.{valid, invalid_many, Validation, value_of, errors_of}

-- The last `match` of the macro: on whether all the variables are set, and whether an error was
-- appended.
abbrev pub finish {ν κ} : {A : Type ν} {E : Type κ} → Option A → List E → Validation A E
finish (some a) [] = valid a
finish (some a) (e ∷ es) = invalid_many (e ∷ es)
finish none es = invalid_many es

abbrev pub and_some {ℓ μ} : {A : Type ℓ} {B : Type μ} → Option A → (A → Option B) → Option B
and_some none f = none
and_some (some a) f = f a

abbrev pub validate₅ {κ} :
    {A B C D F G : Type 0} {E : Type κ}
    → (A → B → C → D → F → G)
    → Validation A E
    → Validation B E
    → Validation C E
    → Validation D E
    → Validation F E
    → Validation G E
validate₅ make a b c d f =
    finish
      (and_some (value_of a) (λ x. and_some (value_of b) (λ y.
        and_some (value_of c)
          (λ z. and_some (value_of d) (λ u. and_some (value_of f) (λ v. some (make x y z u v)))))))
      (errors_of a ++ errors_of b ++ errors_of c ++ errors_of d ++ errors_of f)
