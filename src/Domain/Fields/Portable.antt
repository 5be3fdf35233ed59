-- ===== src/Domain/Fields/Portable.antt =====
-- The bytes of a file name: of a portable name they are its characters, one for one.
use proofplane.Prelude.{
  ℕ, suc, ◌+◌, ◌/◌, ◌%◌, ◌≤◌, ◌<◌, ◌≡◌, refl, sym, ap, ◌∙◌, ◌↔◌, inl, inr, Bool, true, false, ◌&&◌,
  List, [], ◌∷◌, ◌++◌, arith, ltb, lt→ltb, Bool-cases, and_left, and_right, length, all, All,
}
use proofplane.Text.{utf8, Text, bytes, len}
use proofplane.Domain.Fields.Filename.{is_filename_byte}

portable_ascii : (c : ℕ) → is_filename_byte c ≡ true → c < 0x80
portable_ascii c h = ground arith

high_not_portable : (b : ℕ) → 128 ≤ b → is_filename_byte b ≡ false
high_not_portable b h = ground arith

utf8_low : (c : ℕ) → ltb c 0x80 ≡ true → utf8 c ≡ c ∷ []
utf8_low c h = rw h

utf8_high :
    (c : ℕ) → ltb c 0x80 ≡ false → (b : ℕ) × (rest : List ℕ) × (utf8 c ≡ b ∷ rest) × (128 ≤ b)
utf8_high c h = elim (Bool-cases (ltb c 0x800)) [
  | inl two ↦ (0xC0 + c / 64, (0x80 + c % 64) ∷ [], rw (h, two), omega arith)
  | inr more ↦ elim (Bool-cases (ltb c 0x10000)) [
    | inl three ↦ (
      0xE0 + c / 4096,
      (0x80 + c / 64 % 64) ∷ (0x80 + c % 64) ∷ [],
      rw (h, more, three),
      omega arith,
    )
    | inr four ↦ (
      0xF0 + c / 262144,
      (0x80 + c / 4096 % 64) ∷ (0x80 + c / 64 % 64) ∷ (0x80 + c % 64) ∷ [],
      rw (h, more, four),
      omega arith,
    )
  ]
]

and-true : (b : Bool) → (b && true) ≡ b
and-true b = ground arith

not_low : (c : ℕ) → ltb c 0x80 ≡ false → 128 ≤ c
not_low c h = ground arith

utf8_portable : (c : ℕ) → all is_filename_byte (utf8 c) ≡ is_filename_byte c
utf8_portable c = elim (Bool-cases (ltb c 0x80)) [
  | inl low ↦ ap (all is_filename_byte) (utf8_low c low) ∙ and-true (is_filename_byte c)
  | inr high ↦
      let (b, rest, e, h) = utf8_high c high in
      ap (all is_filename_byte) e
      ∙ ap (λ x. x && all is_filename_byte rest) (high_not_portable b h)
      ∙ sym (high_not_portable c (not_low c high))
]

all-append {ℓ} :
    {A : Type ℓ} (p : A → Bool) (xs ys : List A) → all p (xs ++ ys) ≡ (all p xs && all p ys)
all-append p [] ys = refl
all-append p (x ∷ xs) ys = ground (arith, all-append p xs ys)

pub bytes_portable : (v : Text) → all is_filename_byte (bytes v) ≡ all is_filename_byte v
bytes_portable [] = refl
bytes_portable (c ∷ v) =
    all-append is_filename_byte (utf8 c) (bytes v)
    ∙ ap (λ b. b && all is_filename_byte (bytes v)) (utf8_portable c)
    ∙ ap (λ b. is_filename_byte c && b) (bytes_portable v)

pub len_portable : (v : Text) → all is_filename_byte v ≡ true → len v ≡ length v
len_portable [] h = refl
len_portable (c ∷ v) h =
    let low : ltb c 0x80 ≡ true =
      lt→ltb c 0x80 (portable_ascii c (and_left _ (all is_filename_byte v) h)) in
    ap (λ s. length (s ++ bytes v)) (utf8_low c low)
    ∙ ap suc (len_portable v (and_right (is_filename_byte c) _ h))

pub All-iff : (p : ℕ → Bool) (v : Text) → (all p v ≡ true) ↔ All (λ c. p c ≡ true) v
All-iff p [] = (λ _. tt, λ _. refl)
All-iff p (c ∷ v) =
    let (to, from) = All-iff p v in
    (
      λ h. (and_left (p c) (all p v) h, to (and_right (p c) (all p v) h)),
      λ a. ground (arith, a.0, from a.1),
    )
