-- ===== src/Domain/DeclaredFile/Rules.antt =====
-- Which declarations are accepted, that an accepted one is read back from the store unchanged, and
-- which uploads fit it.
use Prim.Native.Nat.{min}
use proofplane.Prelude.{
  ℕ, ◌≤◌, ◌≡◌, refl, ap, ◌∙◌, ◌↔◌, inl, inr, Bool, true, false, not, Option, none, some, List, [],
  ◌∷◌, arith, ltb, ◌==◌, if◌then◌else◌, ==_iff, Bool-cases, is_none, is_some_and, map_some, length,
  ℤ, pos, negsuc, i64_max, ok, ◌>>=◌, ◌>>◌, ok_or, guard, is_ok,
}
use proofplane.Text.{Text, text_eq, text_eq_iff}
use proofplane.Domain.DeclaredFile.Formats.{Formats, HexLaws, AreBytes}
use proofplane.Domain.DeclaredFile.Types.{
  Declaration, declaration_errors, DeclaredUploadFile, valid_content_type, declared, checksum, new,
  digest_of_decoded, rehydrate, validate_staged, redeclared, received_content_length_mismatch,
  checksum_mismatch, to_u64,
}
use proofplane.Domain.Error.{DomainError}
use proofplane.Domain.Fields.Filename.{push_if, validate_document_filename}
use proofplane.Domain.Fields.FilenameRules.{validate_document_filename_iff}
use proofplane.Domain.Ids.{Sha256Digest}
use proofplane.Validation.Types.{errors_of, valid, invalid_many, Validation, value_of}

module _ (f : Formats) where
  -- What `new` asks of a declaration, and what it makes of it.
  pub record Accepts (d : Declaration) (max_bytes : ℕ) (u : DeclaredUploadFile) : Type 0 where
    pub name : validate_document_filename d.filename ≡ valid u.filename
    pub media_type : valid_content_type f d.content_type ≡ true
    pub within : d.expected_content_length ≤ min max_bytes i64_max
    pub digest : checksum f d.expected_sha256 ≡ some u.expected_sha256
    pub same_type : u.content_type ≡ d.content_type
    pub same_length : u.expected_content_length ≡ d.expected_content_length

  no_push :
      (es : List DomainError) (a b c : Bool) (w x y : DomainError)
      → (push_if c y (push_if b x (push_if (not a) w es)) ≡ [])
        ↔ ((es ≡ []) × (a ≡ true) × (b ≡ false) × (c ≡ false))
  no_push [] a b c w x y = (λ h. ground arith, λ h. ground arith)
  no_push (e ∷ es) false b c w x y = (λ h. ground arith, λ h. ground arith)
  no_push (e ∷ es) true b c w x y = (λ h. ground arith, λ h. ground arith)

  no_errors :
      (d : Declaration) (max_bytes : ℕ)
      → (declaration_errors f d max_bytes ≡ []) ↔ (
          (errors_of (validate_document_filename d.filename) ≡ [])
          × (valid_content_type f d.content_type ≡ true)
          × (ltb (min max_bytes i64_max) d.expected_content_length ≡ false)
          × (is_none (checksum f d.expected_sha256) ≡ false))
  unfolding declaration_errors
  no_errors d max_bytes = no_push _ _ _ _ _ _ _

  declared_iff :
      (d : Declaration) (n : Option Text) (t : Bool) (s : Option (Option Sha256Digest))
      (es : List DomainError) (u : DeclaredUploadFile)
      → (declared f d n t s es ≡ valid u) ↔ (
          (n ≡ some u.filename)
          × (t ≡ true)
          × (s ≡ some u.expected_sha256)
          × (es ≡ [])
          × (u.content_type ≡ d.content_type)
          × (u.expected_content_length ≡ d.expected_content_length))
  declared_iff d none t s es u = (λ h. ground arith, λ h. ground arith)
  declared_iff d (some n) false s es u = (λ h. ground arith, λ h. ground arith)
  declared_iff d (some n) true none es u = (λ h. ground arith, λ h. ground arith)
  declared_iff d (some n) true (some s) [] u = (λ h. ground arith, λ h. ground arith)
  declared_iff d (some n) true (some s) (e ∷ es) u = (λ h. ground arith, λ h. ground arith)

  named :
      (v : Validation Text DomainError) (n : Text)
      → (v ≡ valid n) ↔ ((value_of v ≡ some n) × (errors_of v ≡ []))
  named (valid m) n = (λ h. ground arith, λ h. ground arith)
  named (invalid_many es) n = (λ h. ground arith, λ h. ground arith)

  -- new accepts a declaration exactly when its name is accepted, its content type is valid, its
  -- length is at most the limit and at most the largest i64, and its checksum is valid or missing;
  -- the accepted file has these values.
  pub new_iff :
      (d : Declaration) (max_bytes : ℕ) (u : DeclaredUploadFile)
      → (new f d max_bytes ≡ valid u) ↔ Accepts d max_bytes u
  unfolding new
  new_iff d max_bytes u = (
    λ h.
        let (n, t, s, es, st, sl) = (declared_iff d _ _ _ _ u).0 h in
        let (q, _, w, _) = (no_errors d max_bytes).0 es in
        record {
          name = (named _ _).1 (n, q);
          media_type = t;
          within = ground arith;
          digest = s;
          same_type = st;
          same_length = sl;
        },
    λ h.
        let (n, q) = (named _ _).0 h.name in
        (declared_iff d _ _ _ _ u).1 (
          n,
          h.media_type,
          h.digest,
          (no_errors d max_bytes).1
              (q, h.media_type, ground (arith, h.within), ap is_none h.digest),
          h.same_type,
          h.same_length,
        ),
  )

  decoded_digest :
      (t : Text) (d : Option (List ℕ)) (bs : Sha256Digest) (a : Bool)
      → ((if a then digest_of_decoded d else none) ≡ some (some bs))
      → (d ≡ some bs) × (length bs ≡ 32)
  decoded_digest t none bs true h = ground arith
  decoded_digest t d bs false h = ground arith
  decoded_digest t (some b) bs true h = elim (Bool-cases (length b == 32)) [
    | inl e ↦ ground (arith, ==_iff (length b) 32)
    | inr e ↦ ground arith
  ]

  -- The digests that a declaration can hold have 32 bytes.
  checksum_bytes :
      HexLaws f
      → (t : Option Text) (bs : Sha256Digest) → (checksum f t ≡ some (some bs))
      → AreBytes bs × (length bs ≡ 32)
  unfolding checksum
  checksum_bytes laws none bs h = ground arith
  checksum_bytes laws (some t) bs h =
      let (e, l) = decoded_digest t _ bs _ h in (laws.decode_bytes t bs e, l)

  checksum_encode :
      HexLaws f
      → (bs : Sha256Digest) → AreBytes bs
      → (length bs ≡ 32)
      → checksum f (some (f.hex_encode bs)) ≡ some (some bs)
  unfolding checksum
  checksum_encode laws bs b l = rw (laws.encode_digest bs b l, laws.decode_encode bs b, l)

  checksum_again :
      HexLaws f
      → (t : Option Text) (s : Option Sha256Digest) → (checksum f t ≡ some s)
      → checksum f (map_some f.hex_encode s) ≡ some s
  unfolding checksum
  checksum_again laws t none h = refl
  checksum_again laws t (some bs) h =
      let (b, l) = checksum_bytes laws t bs h in checksum_encode laws bs b l

  rehydrate_lem :
      (u : DeclaredUploadFile) → (new f (redeclared f u) i64_max ≡ valid u) → rehydrate f u ≡ ok u
  unfolding rehydrate
  rehydrate_lem u h = rw h

  -- If the hexadecimal codec decodes what it encodes, encodes 32 bytes as 64 lowercase digits and
  -- decodes to bytes only, then a file that new accepts, under whatever limit, is accepted by
  -- rehydrate and given back as it is.
  pub new-rehydrate :
      HexLaws f
      → (d : Declaration) (max_bytes : ℕ) (u : DeclaredUploadFile) → (new f d max_bytes ≡ valid u)
      → rehydrate f u ≡ ok u
  new-rehydrate laws d max_bytes u h =
      let a = (new_iff d max_bytes u).0 h in
      let (same, good) = (validate_document_filename_iff d.filename u.filename).0 a.name in
      rehydrate_lem u (
        (new_iff (redeclared f u) i64_max u).1 (record {
          name = ap validate_document_filename same ∙ a.name;
          media_type = ap (valid_content_type f) a.same_type ∙ a.media_type;
          within = ground (arith, a.within, a.same_length);
          digest = checksum_again laws d.expected_sha256 u.expected_sha256 a.digest;
          same_type = refl;
          same_length = refl;
        }))

  -- A digest, where there is one, is written as the given text.
  abbrev pub HasSum : Option Sha256Digest → Text → Type 0
  HasSum none sum = Unit
  HasSum (some bs) sum = f.hex_encode bs ≡ sum

  fits :
      (e : Option Sha256Digest) (sum : Text)
      → (not (is_some_and e (λ d. not (text_eq (f.hex_encode d) sum))) ≡ true) ↔ HasSum e sum
  fits none sum = (λ h. tt, λ h. refl)
  fits (some d) sum = (
    λ h. ground (arith, text_eq_iff (f.hex_encode d) sum),
    λ h. ground (arith, text_eq_iff (f.hex_encode d) sum, h),
  )

  staged_lem :
      (c : ℤ) (n : ℕ) (b : Bool)
      → (is_ok (do
        received ← ok_or (to_u64 f c) received_content_length_mismatch
        guard (received == n) received_content_length_mismatch
        guard b checksum_mismatch)
          ≡ true)
        ↔ ((c ≡ pos n) × (b ≡ true))
  staged_lem (negsuc m) n b = (λ h. ground arith, λ h. ground arith)
  staged_lem (pos m) n b = elim (Bool-cases (m == n)) [
    | inl e ↦ (λ h. ground (arith, ==_iff m n), λ h. ground (arith, ==_iff m n))
    | inr e ↦ (λ h. ground (arith, ==_iff m n), λ h. ground (arith, ==_iff m n))
  ]

  -- validate_staged succeeds exactly when the received length is the declared one and, where a
  -- digest was declared, the received checksum is its hexadecimal form.
  pub validate_staged_iff :
      (u : DeclaredUploadFile) (content_length : ℤ) (sum : Text)
      → (is_ok (validate_staged f u content_length sum) ≡ true)
        ↔ ((content_length ≡ pos u.expected_content_length) × HasSum u.expected_sha256 sum)
  unfolding validate_staged
  validate_staged_iff u content_length sum = (
    λ h.
        let (e, q) = (staged_lem content_length u.expected_content_length _).0 h in
        (e, (fits u.expected_sha256 sum).0 q),
    λ (e, h).
        (staged_lem content_length u.expected_content_length _).1
          (e, (fits u.expected_sha256 sum).1 h),
  )
