-- ===== src/Domain/DeclaredFile/Formats.antt =====
-- What the module takes from other crates: the parsers of `mime` and `http`, and the codec `hex`.
use proofplane.Prelude.{
  ℕ, ◌<◌, ◌≡◌, Bool, true, ◌&&◌, ◌||◌, Option, some, List, leb, ◌==◌, length, all, All,
}
use proofplane.Text.{Text, len, is_ascii_digit, bytes}

pub record Formats : Type 0 where
  -- `parse::<mime::Mime>().is_ok()`
  pub is_media_type : Text → Bool
  -- `HeaderValue::from_str(…).is_ok()`
  pub is_header_value : Text → Bool
  -- `hex::encode` and `hex::decode(…).ok()`
  pub hex_encode : List ℕ → Text
  pub hex_decode : Text → Option (List ℕ)

-- Values of `u8`.
abbrev pub AreBytes : List ℕ → Type 0
AreBytes bs = All (λ b. b < 256) bs

unfoldable pub is_lowercase_sha256 : Text → Bool
is_lowercase_sha256 value =
    len value == 64
    && all (λ byte. is_ascii_digit byte || (leb b'a' byte && leb byte b'f')) (bytes value)

-- What the documentation of `hex` says of the two functions.
pub record HexLaws (f : Formats) : Type 0 where
  pub decode_encode : (bs : List ℕ) → AreBytes bs → f.hex_decode (f.hex_encode bs) ≡ some bs
  pub encode_digest :
      (bs : List ℕ) → AreBytes bs → length bs ≡ 32 → is_lowercase_sha256 (f.hex_encode bs) ≡ true
  pub decode_bytes : (value : Text) (bs : List ℕ) → f.hex_decode value ≡ some bs → AreBytes bs
