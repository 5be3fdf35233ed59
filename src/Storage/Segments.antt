-- ===== src/Storage/Segments.antt =====
-- The text of an identifier is a segment of a path.
use proofplane.Prelude.{
  ℕ, ◌≡◌, refl, sym, ap, ◌∙◌, Bool, true, false, ◌&&◌, ◌||◌, some, List, [], ◌∷◌, ◌++◌, arith, leb,
  ◌==◌, and_right, is_empty, all, any, All, ok,
}
use proofplane.Text.{Text, split}
use proofplane.Domain.Ids.{Uuid}
use proofplane.Messaging.Types.{Uuids}
use proofplane.Storage.Key.{validated_path}
use proofplane.Text.Join.{IsFree, split-join}
use proofplane.Validation.Canonical.{IsSegment, is_canonical_relative_path_iff}
use proofplane.Validation.Paths.{is_canonical_relative_path}

-- A hexadecimal digit or a hyphen.
abbrev pub is_uuid_code : ℕ → Bool
is_uuid_code c = (leb b'0' c && leb c b'9') || (leb b'a' c && leb c b'f') || c == b'-'

-- The documentation of the crate uuid: an identifier is written in digits and hyphens, and parsed from that.
pub record UuidTextLaws (u : Uuids) : Type 0 where
  pub parse_text : (id : Uuid) → u.parse_uuid (u.uuid_text id) ≡ some id
  pub text_codes : (id : Uuid) → all is_uuid_code (u.uuid_text id) ≡ true
  pub text_nonempty : (id : Uuid) → is_empty (u.uuid_text id) ≡ false

uuid_codes-IsFree : (s : Text) → all is_uuid_code s ≡ true → IsFree b'/' s
uuid_codes-IsFree [] h = refl
uuid_codes-IsFree (c ∷ s) h =
    ground (arith, uuid_codes-IsFree s (and_right (is_uuid_code c) (all is_uuid_code s) h))

uuid_codes-any : (s : Text) → all is_uuid_code s ≡ true → any (λ c. c == b'\\' || c == 0) s ≡ false
uuid_codes-any [] h = refl
uuid_codes-any (c ∷ s) h =
    ground (arith, uuid_codes-any s (and_right (is_uuid_code c) (all is_uuid_code s) h))

pub uuid_text-IsSegment : (s : Text) → all is_uuid_code s ≡ true → is_empty s ≡ false → IsSegment s
uuid_text-IsSegment [] h n = ground arith
uuid_text-IsSegment (c ∷ s) h n =
    (ground (arith, uuid_codes-any (c ∷ s) h), uuid_codes-IsFree (c ∷ s) h)

pub segments-append :
    (xs ys : List Text) → All IsSegment xs → All IsSegment ys → All IsSegment (xs ++ ys)
segments-append [] ys a b = b
segments-append (x ∷ xs) ys a b = (a.0, segments-append xs ys a.1 b)

pub segments-IsFree : (xs : List Text) → All IsSegment xs → All (IsFree b'/') xs
segments-IsFree [] a = tt
segments-IsFree (x ∷ xs) a = (a.0.1, segments-IsFree xs a.1)

-- What a path that is accepted splits into.
pub validated_path-ok :
    (value : Text) (segments : List Text)
    → validated_path value ≡ ok segments
    → (s : Text) × (rest : List Text) × (segments ≡ s ∷ rest) × All IsSegment (s ∷ rest)
unfolding validated_path
validated_path-ok value segments h =
    let canonical : is_canonical_relative_path value ≡ true = ground arith in
    let same : split b'/' value ≡ segments = ground arith in
    let (s, rest, parts, e) = (is_canonical_relative_path_iff value).0 canonical in
    (
      s,
      rest,
      sym same ∙ ap (split b'/') e ∙ split-join b'/' s rest (segments-IsFree (s ∷ rest) parts),
      parts,
    )

pub validated_path-canonical :
    (value : Text) (segments : List Text)
    → is_canonical_relative_path value ≡ true
    → split b'/' value ≡ segments
    → validated_path value ≡ ok segments
unfolding validated_path
validated_path-canonical value segments h k = rw (h, k) refl
