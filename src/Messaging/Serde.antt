-- ===== src/Messaging/Serde.antt =====
-- What the program takes of the crates serde, serde_json and uuid: JSON values, and how the fields of an
-- object are written and read.
use proofplane.Prelude.{
  ℕ, ◌≡◌, Bool, true, false, not, ◌&&◌, Option, none, some, List, [], ◌∷◌, if◌then◌else◌, is_some,
  map_some, all, any, ℤ,
}
use proofplane.Text.{Text, text_eq}
use proofplane.Domain.Ids.{Uuid}
use proofplane.Validation.Five.{and_some}

-- The fields of an object, as `json!` and a derived `Serialize` list them.
abbrev pub Fields : Type 0 → Type 0
Fields Value = List (Text × Value)

abbrev pub lookup : {Value : Type 0} → Text → Fields Value → Option Value
lookup key [] = none
lookup key ((k, v) ∷ rest) = let found = lookup key rest in if text_eq k key then some v else found

abbrev pub has_key : {Value : Type 0} → Text → Fields Value → Bool
has_key key fields = is_some (lookup key fields)

-- Each key stands once.
abbrev pub distinct_keys : {Value : Type 0} → Fields Value → Bool
distinct_keys [] = true
distinct_keys ((k, _) ∷ rest) = not (has_key k rest) && distinct_keys rest

abbrev pub is_among : List Text → Text → Bool
is_among known key = any (text_eq key) known

pub record Serde (Value : Type 0) : Type 0 where
  -- The values that are written.
  pub object_value : Fields Value → Value
  pub null_value : Value
  pub text_value : Text → Value
  pub uuid_value : Uuid → Value
  pub number_value : ℕ → Value
  pub integer_value : ℤ → Value
  -- `get(…)`, `as_str`, and the deserializers of an identifier and of numbers.
  pub get : Value → Text → Option Value
  pub value_as_str : Value → Option Text
  pub is_null : Value → Bool
  pub uuid_from_value : Value → Option Uuid
  pub number_from_value : Value → Option ℕ
  pub integer_from_value : Value → Option ℤ
  -- The value is an object all of whose keys are among these.
  pub only_keys : List Text → Value → Bool
  -- The text of a value in bytes, and `from_slice`.
  pub value_bytes : Value → List ℕ
  pub value_from_slice : List ℕ → Option Value

-- What the documentation of these crates says: an object has the fields that it was written with, and a value is read as
-- it was written.
pub record SerdeLaws {Value : Type 0} (s : Serde Value) : Type 0 where
  pub get_object :
      (fields : Fields Value) (key : Text)
      → distinct_keys fields ≡ true
      → s.get (s.object_value fields) key ≡ lookup key fields
  pub only_keys_object :
      (known : List Text) (fields : Fields Value)
      → s.only_keys known (s.object_value fields) ≡ all (λ f. is_among known f.0) fields
  pub text_of_value : (t : Text) → s.value_as_str (s.text_value t) ≡ some t
  pub uuid_of_value : (id : Uuid) → s.uuid_from_value (s.uuid_value id) ≡ some id
  pub number_of_value : (n : ℕ) → s.number_from_value (s.number_value n) ≡ some n
  pub integer_of_value : (z : ℤ) → s.integer_from_value (s.integer_value z) ≡ some z
  pub null_is_null : s.is_null s.null_value ≡ true
  pub uuid_not_null : (id : Uuid) → s.is_null (s.uuid_value id) ≡ false
  pub value_of_bytes : (v : Value) → s.value_from_slice (s.value_bytes v) ≡ some v

module _ {Value : Type 0} (s : Serde Value) where
  -- `as_object().is_some_and(…contains_key…)`
  unfoldable pub contains_key : Text → Value → Bool
  contains_key key v = is_some (s.get v key)

  -- An `Option<Uuid>`: null where there is none, and a field that is missing is none.
  unfoldable pub optional_uuid : Option Uuid → Value
  optional_uuid none = s.null_value
  optional_uuid (some id) = s.uuid_value id

  unfoldable pub optional_uuid_from : Option Value → Option (Option Uuid)
  optional_uuid_from none = some none
  optional_uuid_from (some v) =
      if s.is_null v then some none else map_some some (s.uuid_from_value v)

  -- A field that has to be there.
  abbrev pub required : {A : Type 0} → Value → Text → (Value → Option A) → Option A
  required v key read = and_some (s.get v key) read
