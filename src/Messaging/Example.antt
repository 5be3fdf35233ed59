-- ===== src/Messaging/Example.antt =====
-- A codec that has the laws: a value is a list of numbers, and an object has its fields one after the other,
-- each with the lengths of its key and of its value in front.
use proofplane.Prelude.{
  ℕ, zero, suc, ◌≡◌, refl, ap, Option, none, some, List, [], ◌∷◌, ◌++◌, length, is_empty, all, ℤ,
  pos, negsuc,
}
use proofplane.Text.{Text}
use proofplane.Messaging.Serde.{Fields, Serde, SerdeLaws, lookup, is_among}
use proofplane.Messaging.Types.{Uuids}
use proofplane.Validation.Five.{and_some}

abbrev pub part : ℕ → List ℕ → List ℕ × List ℕ
part zero xs = ([], xs)
part (suc n) [] = ([], [])
part (suc n) (x ∷ xs) = let (a, b) = part n xs in (x ∷ a, b)

part-append : (xs ys : List ℕ) → part (length xs) (xs ++ ys) ≡ (xs, ys)
part-append [] ys = refl
part-append (x ∷ xs) ys = ap (λ p. (x ∷ p.0, p.1)) (part-append xs ys)

abbrev pub fields_code : Fields (List ℕ) → List ℕ
fields_code [] = []
fields_code ((k, v) ∷ rest) = length k ∷ length v ∷ (k ++ (v ++ fields_code rest))

abbrev pub code_fields : ℕ → List ℕ → Fields (List ℕ)
code_fields zero xs = []
code_fields (suc n) (k ∷ l ∷ xs) =
    let (key, rest) = part k xs in let (v, later) = part l rest in (key, v) ∷ code_fields n later
code_fields (suc n) _ = []

code_fields-fields_code :
    (fields : Fields (List ℕ)) → code_fields (length fields) (fields_code fields) ≡ fields
code_fields-fields_code [] = refl
code_fields-fields_code ((k, v) ∷ rest) =
    rw
      (
        part-append k (v ++ fields_code rest),
        part-append v (fields_code rest),
        code_fields-fields_code rest,
      )
      refl

abbrev pub object_code : Fields (List ℕ) → List ℕ
object_code fields = 1 ∷ length fields ∷ fields_code fields

abbrev pub fields_of : List ℕ → Fields (List ℕ)
fields_of (suc zero ∷ n ∷ xs) = code_fields n xs
fields_of _ = []

abbrev pub first_number : List ℕ → Option ℕ
first_number [] = none
first_number (n ∷ _) = some n

abbrev pub text_of_code : List ℕ → Option Text
text_of_code (zero ∷ t) = some t
text_of_code _ = none

abbrev pub integer_code : ℤ → List ℕ
integer_code (pos n) = 3 ∷ 0 ∷ n ∷ []
integer_code (negsuc n) = 3 ∷ 1 ∷ n ∷ []

abbrev pub code_integer : List ℕ → Option ℤ
code_integer (_ ∷ zero ∷ n ∷ _) = some (pos n)
code_integer (_ ∷ suc _ ∷ n ∷ _) = some (negsuc n)
code_integer _ = none

abbrev pub code_number : List ℕ → Option ℕ
code_number (_ ∷ n ∷ _) = some n
code_number _ = none

abbrev pub codec : Serde (List ℕ)
codec = record {
  object_value = object_code;
  null_value = [];
  text_value = λ t. 0 ∷ t;
  uuid_value = λ id. 0 ∷ id ∷ [];
  number_value = λ n. 2 ∷ n ∷ [];
  integer_value = integer_code;
  get = λ v key. lookup key (fields_of v);
  value_as_str = text_of_code;
  is_null = is_empty;
  uuid_from_value = λ v. and_some (text_of_code v) first_number;
  number_from_value = code_number;
  integer_from_value = code_integer;
  only_keys = λ known v. all (λ f. is_among known f.0) (fields_of v);
  value_bytes = λ v. v;
  value_from_slice = λ bytes. some bytes;
}

integer_of_code : (z : ℤ) → code_integer (integer_code z) ≡ some z
integer_of_code (pos n) = refl
integer_of_code (negsuc n) = refl

pub codec_laws : SerdeLaws codec
codec_laws = record {
  get_object = λ fields key _. ap (lookup key) (code_fields-fields_code fields);
  only_keys_object =
      λ known fields. ap (all (λ f. is_among known f.0)) (code_fields-fields_code fields);
  text_of_value = λ _. refl;
  uuid_of_value = λ _. refl;
  number_of_value = λ _. refl;
  integer_of_value = integer_of_code;
  null_is_null = refl;
  uuid_not_null = λ _. refl;
  value_of_bytes = λ _. refl;
}

abbrev pub uuids : Uuids
uuids = record { uuid_text = λ id. id ∷ []; parse_uuid = first_number }
