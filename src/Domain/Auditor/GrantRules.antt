-- ===== src/Domain/Auditor/GrantRules.antt =====
-- Revocations of an access grant, one after the other.
use proofplane.Prelude.{
  ◌<◌, ◌≡◌, refl, true, false, not, ◌||◌, List, [], ◌∷◌, arith, ltb, leb, is_some, is_some_and,
  Result, ok, err,
}
use proofplane.Domain.Auditor.Email.{valid_normalized_email}
use proofplane.Domain.Auditor.Grant.{
  grant_already_revoked, grant_unavailable, AuditorAccessGrant, revoke, issue, rehydrate,
  AuditorAccessGrantRevocation, ensure_active_at, AuditorAccessGrantLifecycleError,
}
use proofplane.Domain.Ids.{DateTime}

abbrev pub after_revoke :
    AuditorAccessGrant
    → Result (AuditorAccessGrantRevocation × AuditorAccessGrant) AuditorAccessGrantLifecycleError
    → AuditorAccessGrant
after_revoke g (ok (_, h)) = h
after_revoke g (err _) = g

unfoldable pub run : AuditorAccessGrant → List DateTime → AuditorAccessGrant
unfolding revoke
run g [] = g
run g (at ∷ ats) = run (after_revoke g (revoke g at)) ats

pub record IsValid (g : AuditorAccessGrant) : Type 0 where
  pub window : g.created_at < g.expires_at
  pub email : valid_normalized_email g.auditor_email ≡ true
  pub revocation : is_some_and g.revoked_at (λ at. ltb at g.created_at) ≡ false

revoke-IsValid :
    (g : AuditorAccessGrant) (at : DateTime) → IsValid g → IsValid (after_revoke g (revoke g at))
unfolding revoke
revoke-IsValid g at h = ground arith

run-IsValid : (g : AuditorAccessGrant) (ats : List DateTime) → IsValid g → IsValid (run g ats)
unfolding run
run-IsValid g [] h = h
run-IsValid g (at ∷ ats) h = run-IsValid (after_revoke g (revoke g at)) ats (revoke-IsValid g at h)

issue-IsValid : (a g : AuditorAccessGrant) → issue a ≡ ok g → IsValid g
unfolding issue
issue-IsValid a g e = ground arith

issue_tests :
    (g : AuditorAccessGrant)
    → IsValid g
    → (leb g.expires_at g.created_at || not (valid_normalized_email g.auditor_email)) ≡ false
issue_tests g h = ground (arith, h.window, h.email)

IsValid-rehydrate : (g : AuditorAccessGrant) → IsValid g → rehydrate g ≡ ok g
unfolding rehydrate
IsValid-rehydrate g h = rw (issue_tests g h, h.revocation) refl

-- A grant that was issued can be read back after any attempts to revoke it.
pub issue-rehydrate_grant :
    (a g : AuditorAccessGrant) (ats : List DateTime)
    → issue a ≡ ok g
    → rehydrate (run g ats) ≡ ok (run g ats)
issue-rehydrate_grant a g ats e =
    IsValid-rehydrate (run g ats) (run-IsValid g ats (issue-IsValid a g e))

revoke_again :
    (g : AuditorAccessGrant) (at : DateTime)
    → is_some g.revoked_at ≡ true
    → revoke g at ≡ ok (grant_already_revoked, g)
unfolding revoke
revoke_again g at h = ground arith

run_revoked :
    (g : AuditorAccessGrant) (ats : List DateTime) → is_some g.revoked_at ≡ true → run g ats ≡ g
unfolding run
run_revoked g [] h = refl
run_revoked g (at ∷ ats) h = let e = revoke_again g at h in rw e (run_revoked g ats h)

-- If revoke answers Ok on an access grant, any further revocations leave the grant as it is, and
-- ensure_active_at answers Unavailable on it at every instant.
pub revoke-ensure_active_at :
    (g h : AuditorAccessGrant) (r : AuditorAccessGrantRevocation) (at now : DateTime)
    (ats : List DateTime)
    → revoke g at ≡ ok (r, h)
    → (run h ats ≡ h) × (ensure_active_at (run h ats) now ≡ err grant_unavailable)
unfolding revoke ensure_active_at
revoke-ensure_active_at g h r at now ats e =
    let gone : is_some h.revoked_at ≡ true = ground arith in
    let same = run_revoked h ats gone in (same, rw same (ground arith))
