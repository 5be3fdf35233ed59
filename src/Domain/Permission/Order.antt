-- ===== src/Domain/Permission/Order.antt =====
-- `canonical_permissions` against an independent description: it accepts exactly the lists without a
-- repetition, and answers with the same permissions in the order of `ALL`.
use mathlib.Core.Path.{fun_ext}
use proofplane.Prelude.{
  ℕ, zero, suc, ◌+◌, ◌≤◌, ◌<◌, ◌≡◌, refl, ap, ◌∙◌, ◌↔◌, inl, inr, Bool, true, false, not, ◌&&◌,
  ◌||◌, List, [], ◌∷◌, arith, ◌==◌, if◌then◌else◌, Bool-cases, length, any, Result, ok, err, ◌>>=◌,
  is_ok,
}
use proofplane.Domain.Error.{DomainError, duplicate_permission}
use proofplane.Domain.Permission.Bits.{keep}
use proofplane.Domain.Permission.Canonical.{flag, set_flag, mark, canonical_permissions, no_flags}
use proofplane.Domain.Permission.Names.{
  WorkspacePermission, permission_index, perm_eq, as_str, all_permissions, read_evidence,
  write_evidence, read_evidence_submissions, write_evidence_submissions, read_controls,
  write_controls, manage_auditor_access,
}

-- The same permission: the same constructor.
abbrev pub same : WorkspacePermission → WorkspacePermission → Bool
same read_evidence q = elim q [ read_evidence ↦ true | _ ↦ false ]
same write_evidence q = elim q [ write_evidence ↦ true | _ ↦ false ]
same read_evidence_submissions q = elim q [ read_evidence_submissions ↦ true | _ ↦ false ]
same write_evidence_submissions q = elim q [ write_evidence_submissions ↦ true | _ ↦ false ]
same read_controls q = elim q [ read_controls ↦ true | _ ↦ false ]
same write_controls q = elim q [ write_controls ↦ true | _ ↦ false ]
same manage_auditor_access q = elim q [ manage_auditor_access ↦ true | _ ↦ false ]

pub same_iff : (p q : WorkspacePermission) → (same p q ≡ true) ↔ (p ≡ q)
same_iff p q = (λ h. ground arith, λ h. ground arith)

-- The index tells permissions apart.
perm_eq-same : (p q : WorkspacePermission) → perm_eq p q ≡ same p q
unfolding permission_index
perm_eq-same p q = ground arith

abbrev pub occurs : WorkspacePermission → List WorkspacePermission → Bool
occurs p ps = any (λ q. same q p) ps

abbrev pub distinct : List WorkspacePermission → Bool
distinct [] = true
distinct (p ∷ ps) = not (occurs p ps) && distinct ps

abbrev pub count : WorkspacePermission → List WorkspacePermission → ℕ
count p [] = 0
count p (q ∷ ps) = (if same q p then 1 else 0) + count p ps

index-lt : (p : WorkspacePermission) → permission_index p < 7
unfolding permission_index
index-lt p = ground arith

same_comm : (p q : WorkspacePermission) → same p q ≡ same q p
same_comm p q = ground arith

flag-set_flag :
    (bs : List Bool) (i j : ℕ) → i < length bs → flag (set_flag bs i) j ≡ (i == j || flag bs j)
flag-set_flag [] i j h = absurd (omega arith)
flag-set_flag (b ∷ bs) zero zero h = ground arith
flag-set_flag (b ∷ bs) zero (suc j) h = ground arith
flag-set_flag (b ∷ bs) (suc i) zero h = ground arith
flag-set_flag (b ∷ bs) (suc i) (suc j) h = ground (arith, flag-set_flag bs i j)

length-set_flag : (bs : List Bool) (i : ℕ) → length (set_flag bs i) ≡ length bs
length-set_flag [] i = refl
length-set_flag (b ∷ bs) zero = refl
length-set_flag (b ∷ bs) (suc i) = omega (arith, length-set_flag bs i)

-- One flag set, as the loop sets it.
flag_after :
    (bs : List Bool) (p q : WorkspacePermission)
    → length bs ≡ 7
    → flag (set_flag bs (permission_index p)) (permission_index q)
      ≡ (same q p || flag bs (permission_index q))
unfolding permission_index
flag_after bs p q h =
    flag-set_flag bs _ _ (omega (arith, index-lt p))
    ∙ ap (λ b. b || flag bs (permission_index q)) (perm_eq-same p q ∙ same_comm p q)

-- Some value is marked already.
clash : List Bool → List WorkspacePermission → Bool
clash bs ps = any (λ p. flag bs (permission_index p)) ps

clash-set_flag :
    (bs : List Bool) (p : WorkspacePermission) (ps : List WorkspacePermission)
    → length bs ≡ 7
    → clash (set_flag bs (permission_index p)) ps ≡ (occurs p ps || clash bs ps)
unfolding clash
clash-set_flag bs p [] h = refl
clash-set_flag bs p (q ∷ ps) h = ground (arith, flag_after bs p q h, clash-set_flag bs p ps h)

mark-is_ok :
    (bs : List Bool) (ps : List WorkspacePermission)
    → length bs ≡ 7
    → is_ok (mark bs ps) ≡ (distinct ps && not (clash bs ps))
unfolding mark clash
mark-is_ok bs [] h = refl
mark-is_ok bs (p ∷ ps) h = ground (
  arith,
  clash-set_flag bs p ps h,
  length-set_flag bs (permission_index p),
  mark-is_ok (set_flag bs (permission_index p)) ps,
)

mark-flags :
    (bs seen : List Bool) (ps : List WorkspacePermission) (q : WorkspacePermission)
    → length bs ≡ 7
    → mark bs ps ≡ ok seen
    → flag seen (permission_index q) ≡ (occurs q ps || flag bs (permission_index q))
unfolding mark
mark-flags bs seen [] q h e = ground arith
mark-flags bs seen (p ∷ ps) q h e = ground (
  arith,
  flag_after bs p q h,
  length-set_flag bs (permission_index p),
  mark-flags (set_flag bs (permission_index p)) seen ps q,
)

mark_repeats :
    (bs : List Bool) (ps : List WorkspacePermission) {e : DomainError}
    → length bs ≡ 7
    → mark bs ps ≡ err e
    → (p : WorkspacePermission) × (e ≡ duplicate_permission (as_str p))
      × (2 ≤ (if flag bs (permission_index p) then 1 else 0) + count p ps)
unfolding mark
mark_repeats bs [] h e = cc
mark_repeats bs (p ∷ ps) h e = elim (Bool-cases (flag bs (permission_index p))) [
  | inl seen ↦ (p, ground arith, ground arith)
  | inr new ↦
      let (q, e', twice) =
        mark_repeats (set_flag bs (permission_index p)) ps
          (omega (arith, length-set_flag bs (permission_index p))) (rw new at e) in
      (q, e', ground (arith, flag_after bs p q h))
]

keep_ext {ℓ} :
    {A : Type ℓ} {p q : A → Bool} (xs : List A) → ((x : A) → p x ≡ q x) → keep p xs ≡ keep q xs
keep_ext xs h = rw (fun_ext h)

no_clash : (vs : List WorkspacePermission) → clash no_flags vs ≡ false
unfolding clash permission_index
no_clash [] = refl
no_clash (read_evidence ∷ vs) = no_clash vs
no_clash (v ∷ vs) = no_clash vs

not_flagged : (p : WorkspacePermission) → flag no_flags (permission_index p) ≡ false
unfolding permission_index
not_flagged p = ground arith

-- What a result says of the requested list.
abbrev pub IsCanonical :
    List WorkspacePermission → Result (List WorkspacePermission) DomainError → Type 0
IsCanonical vs (ok out) = (distinct vs ≡ true) × (out ≡ keep (λ p. occurs p vs) all_permissions)
IsCanonical vs (err e) =
    (p : WorkspacePermission) × (e ≡ duplicate_permission (as_str p)) × (2 ≤ count p vs)

-- If canonical_permissions answers Ok, the request has no permission twice and the answer is the
-- requested permissions in the order of ALL; if it answers Err, the error names a permission that
-- the request has at least twice.
pub canonical_permissions-IsCanonical :
    (vs : List WorkspacePermission) → IsCanonical vs (canonical_permissions vs)
unfolding canonical_permissions
canonical_permissions-IsCanonical vs = go (mark no_flags vs) refl
  where
    go :
        (r : Result (List Bool) DomainError)
        → mark no_flags vs ≡ r
        → IsCanonical vs
            (r >>= λ seen. ok (keep (λ p. flag seen (permission_index p)) all_permissions))
    go (ok seen) e = (
      ground (arith, mark-is_ok no_flags vs refl),
      keep_ext {p = λ p. flag seen (permission_index p)} {q = λ p. occurs p vs} all_permissions
          λ q. ground (arith, mark-flags no_flags seen vs q refl e, not_flagged q),
    )
    go (err e) h =
        let (p, e', twice) = mark_repeats no_flags vs refl h in
        (p, e', ground (arith, not_flagged p))
