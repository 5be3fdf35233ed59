-- ===== src/Domain/DeclaredFile/Hex.antt =====
-- A concrete codec of hexadecimal digits, and that it has the laws asked of the crate hex.
use proofplane.Prelude.{
  ℕ, ◌+◌, ◌-◌, ◌*◌, ◌/◌, ◌%◌, ◌<◌, ◌≡◌, refl, ap, Bool, true, not, ◌&&◌, ◌||◌, Option, none, some,
  List, [], ◌∷◌, arith, ltb, leb, ◌==◌, if◌then◌else◌, ==_iff, length, is_empty, all,
}
use proofplane.Text.{Text, bytes, is_ascii_digit, utf8}
use proofplane.Domain.DeclaredFile.Formats.{AreBytes, is_lowercase_sha256, Formats, HexLaws}

abbrev pub digit : ℕ → ℕ
digit n = if ltb n 10 then 48 + n else 87 + n

abbrev pub undigit : ℕ → Option ℕ
undigit c =
    if leb 48 c && leb c 57
    then some (c - 48)
    else if leb 97 c && leb c 102
    then some (c - 87)
    else none

abbrev pub encode : List ℕ → Text
encode [] = []
encode (b ∷ bs) = digit (b / 16) ∷ digit (b % 16) ∷ encode bs

abbrev join_byte : Option ℕ → Option ℕ → Option (List ℕ) → Option (List ℕ)
join_byte (some h) (some l) (some bs) = some ((16 * h + l) ∷ bs)
join_byte _ _ _ = none

abbrev pub decode : Text → Option (List ℕ)
decode [] = some []
decode (_ ∷ []) = none
decode (h ∷ l ∷ s) = join_byte (undigit h) (undigit l) (decode s)

and_both : {a b : Bool} → a ≡ true → b ≡ true → (a && b) ≡ true
and_both p q = rw (p, q) refl

undigit-digit : (n : ℕ) → n < 16 → undigit (digit n) ≡ some n
undigit-digit n h = ground arith

undigit-lt : (c n : ℕ) → undigit c ≡ some n → n < 16
undigit-lt c n h = ground arith

decode-encode : (bs : List ℕ) → AreBytes bs → decode (encode bs) ≡ some bs
decode-encode [] h = refl
decode-encode (b ∷ bs) (h, hs) =
    rw
      (
        undigit-digit (b / 16) (omega arith),
        undigit-digit (b % 16) (omega arith),
        decode-encode bs hs,
      )
      (ap (λ x. some (x ∷ bs)) (omega arith))

join_byte-AreBytes :
    (h l : Option ℕ) (r : Option (List ℕ)) (bs : List ℕ)
    → ((n : ℕ) → h ≡ some n → n < 16)
    → ((n : ℕ) → l ≡ some n → n < 16)
    → ((cs : List ℕ) → r ≡ some cs → AreBytes cs)
    → join_byte h l r ≡ some bs
    → AreBytes bs
join_byte-AreBytes none l r bs hh hl hr e = ground arith
join_byte-AreBytes (some h) none r bs hh hl hr e = ground arith
join_byte-AreBytes (some h) (some l) none bs hh hl hr e = ground arith
join_byte-AreBytes (some h) (some l) (some cs) [] hh hl hr e = ground arith
join_byte-AreBytes (some h) (some l) (some cs) (b ∷ bs) hh hl hr e =
    let a = hh h refl in let c = hl l refl in (ground arith, hr bs (ground arith))

decode-AreBytes : (s : Text) (bs : List ℕ) → decode s ≡ some bs → AreBytes bs
decode-AreBytes [] [] h = tt
decode-AreBytes [] (b ∷ bs) h = ground arith
decode-AreBytes (_ ∷ []) bs h = ground arith
decode-AreBytes (h ∷ l ∷ s) bs e =
    join_byte-AreBytes (undigit h) (undigit l) (decode s) bs (undigit-lt h) (undigit-lt l)
      (decode-AreBytes s) e

utf8-digit : (n : ℕ) → n < 16 → utf8 (digit n) ≡ digit n ∷ []
utf8-digit n h = ground arith

-- Digits are characters of one byte.
bytes-encode : (bs : List ℕ) → AreBytes bs → bytes (encode bs) ≡ encode bs
bytes-encode [] h = refl
bytes-encode (b ∷ bs) (h, hs) =
    rw (utf8-digit (b / 16) (omega arith), utf8-digit (b % 16) (omega arith), bytes-encode bs hs)
      refl

length-encode : (bs : List ℕ) → length (encode bs) ≡ 2 * length bs
length-encode [] = refl
length-encode (b ∷ bs) = omega (arith, length-encode bs)

abbrev is_lower_digit : ℕ → Bool
is_lower_digit byte = is_ascii_digit byte || (leb b'a' byte && leb byte b'f')

is_lower_digit-digit : (n : ℕ) → n < 16 → is_lower_digit (digit n) ≡ true
is_lower_digit-digit n h = ground arith

encode-digits : (bs : List ℕ) → AreBytes bs → all is_lower_digit (encode bs) ≡ true
encode-digits [] h = refl
encode-digits (b ∷ bs) (h, hs) =
    let p = is_lower_digit-digit (b / 16) (omega arith) in
    let q = is_lower_digit-digit (b % 16) (omega arith) in
    and_both p (and_both q (encode-digits bs hs))

encode-sha256 :
    (bs : List ℕ) → AreBytes bs → length bs ≡ 32 → is_lowercase_sha256 (encode bs) ≡ true
unfolding is_lowercase_sha256
encode-sha256 bs h l =
    let n : (length (encode bs) == 64) ≡ true =
      (==_iff _ _).1 (omega (arith, length-encode bs, l)) in
    rw (bytes-encode bs h) (and_both n (encode-digits bs h))

-- Every type that is not empty, and every header value.
abbrev pub plain_formats : Formats
plain_formats = record {
  is_media_type = λ t. not (is_empty t);
  is_header_value = λ t. true;
  hex_encode = encode;
  hex_decode = decode;
}

pub plain_formats-HexLaws : HexLaws plain_formats
plain_formats-HexLaws = record {
  decode_encode = decode-encode;
  encode_digest = encode-sha256;
  decode_bytes = decode-AreBytes;
}
