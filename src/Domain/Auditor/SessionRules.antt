-- ===== src/Domain/Auditor/SessionRules.antt =====
-- The snapshots of a session that are accepted, and what its histories keep.
use proofplane.Prelude.{
  ◌≤◌, ◌<◌, ◌≡◌, refl, ◌↔◌, inl, inr, Bool, true, false, not, ◌||◌, Option, none, some, List, [],
  ◌∷◌, arith, ltb, leb, if◌then◌else◌, Bool-cases, is_some_and, is_empty, Result, ok, err,
}
use proofplane.Text.{trim}
use proofplane.Domain.Auditor.Email.{valid_normalized_email}
use proofplane.Domain.Auditor.Session.{
  session_invalid_rehydration, AuditorSession, rehydrate, AuditorSessionTransition, touch,
  AuditorSessionLifecycleError, revoke, session_revoked, create,
}
use proofplane.Domain.Ids.{DateTime}

-- An optional instant between two others.
abbrev pub Between : (from to : DateTime) → Option DateTime → Type 0
Between from to none = Unit
Between from to (some at) = (from ≤ at) × (at ≤ to)

pub record IsValid (s : AuditorSession) : Type 0 where
  pub window : s.created_at < s.expires_at
  pub subject : is_empty (trim s.auth0_subject) ≡ false
  pub email : valid_normalized_email s.auditor_email ≡ true
  pub last_use : Between s.created_at s.updated_at (some s.last_used_at)
  pub revocation : Between s.created_at s.updated_at s.revoked_at

-- The two tests of `rehydrate`.
abbrev create_invalid : AuditorSession → Bool
create_invalid a =
    leb a.expires_at a.created_at
    || is_empty (trim a.auth0_subject)
    || not (valid_normalized_email a.auditor_email)

abbrev state_invalid : AuditorSession → Bool
state_invalid a =
    ltb a.last_used_at a.created_at
    || is_some_and a.revoked_at (λ value. ltb value a.created_at)
    || ltb a.updated_at a.created_at
    || ltb a.updated_at a.last_used_at
    || is_some_and a.revoked_at (λ value. ltb a.updated_at value)

rehydrate_lem :
    (a : AuditorSession)
    → rehydrate a ≡ (
        if create_invalid a
        then err session_invalid_rehydration
        else if state_invalid a
        then err session_invalid_rehydration
        else ok a)
unfolding rehydrate
rehydrate_lem a = elim (Bool-cases (create_invalid a)) [
  | inl bad ↦ rw bad
  | inr good ↦ elim (Bool-cases (state_invalid a)) [
    | inl unfit ↦ rw (good, unfit)
    | inr fits ↦ rw (good, fits)
  ]
]

state-Between :
    (r : Option DateTime) (c l u : DateTime)
    → ((ltb l c
          || is_some_and r (λ value. ltb value c)
          || ltb u c
          || ltb u l
          || is_some_and r (λ value. ltb u value))
        ≡ false)
      ↔ (Between c u (some l) × Between c u r)
state-Between none c l u = (λ h. ground arith, λ h. ground arith)
state-Between (some r) c l u = (λ h. ground arith, λ h. ground arith)

accepted :
    (a : AuditorSession)
    → (create_invalid a ≡ false)
    → Between a.created_at a.updated_at (some a.last_used_at)
      × Between a.created_at a.updated_at a.revoked_at
    → IsValid a
accepted a c b = ground arith

-- A snapshot is accepted exactly if it is valid, and is then taken over unchanged.
pub session_rehydrate_iff : (a s : AuditorSession) → (rehydrate a ≡ ok s) ↔ ((s ≡ a) × IsValid a)
session_rehydrate_iff a s = (
  λ e.
      let r = rehydrate_lem a in
      let b = state-Between a.revoked_at a.created_at a.last_used_at a.updated_at in
      (ground (arith, r), accepted a (ground (arith, r)) (b.0 (ground (arith, r)))),
  λ (q, h).
      let b = state-Between a.revoked_at a.created_at a.last_used_at a.updated_at in
      let t = b.1 (h.last_use, h.revocation) in
      ground (arith, rehydrate_lem a, h.window, h.subject, h.email, t),
)

pub data Call : Type 0 where
  touches revokes : DateTime → Call

abbrev pub time : Call → DateTime
time (touches at) = at
time (revokes at) = at

abbrev pub after_call :
    AuditorSession
    → Result (AuditorSessionTransition × AuditorSession) AuditorSessionLifecycleError
    → AuditorSession
after_call s (ok (_, t)) = t
after_call s (err _) = s

unfoldable pub step : AuditorSession → Call → AuditorSession
unfolding touch revoke
step s (touches at) = after_call s (touch s at)
step s (revokes at) = after_call s (revoke s at)

unfoldable pub run : AuditorSession → List Call → AuditorSession
unfolding step
run s [] = s
run s (x ∷ xs) = run (step s x) xs

step-IsValid :
    (s : AuditorSession) (x : Call)
    → IsValid s
    → s.last_used_at ≤ time x
    → IsValid (step s x) × ((step s x).last_used_at ≤ time x)
unfolding step
step-IsValid s (touches at) h t = ground arith
step-IsValid s (revokes at) h t = ground arith

-- The calls come in the order of their instants, the first not before a given one.
abbrev pub InOrder : DateTime → List Call → Type 0
InOrder from [] = Unit
InOrder from (x ∷ xs) = (from ≤ time x) × InOrder (time x) xs

InOrder-earlier : (a b : DateTime) (xs : List Call) → a ≤ b → InOrder b xs → InOrder a xs
InOrder-earlier a b [] h o = tt
InOrder-earlier a b (x ∷ xs) h (t, o) = (omega arith, o)

run-IsValid :
    (s : AuditorSession) (xs : List Call)
    → IsValid s
    → InOrder s.last_used_at xs
    → IsValid (run s xs)
unfolding run
run-IsValid s [] h o = h
run-IsValid s (x ∷ xs) h (t, o) =
    let (v, u) = step-IsValid s x h t in run-IsValid (step s x) xs v (InOrder-earlier _ _ xs u o)

create-IsValid : (a s : AuditorSession) → create a ≡ ok s → IsValid s
unfolding create
create-IsValid a s e = ground arith

-- If create answers a session, and touches and revocations follow in the order of time and not
-- before its creation, rehydrate accepts what they leave, as it is.
pub create-rehydrate :
    (a s : AuditorSession) (xs : List Call)
    → create a ≡ ok s
    → InOrder s.last_used_at xs
    → rehydrate (run s xs) ≡ ok (run s xs)
create-rehydrate a s xs e o =
    (session_rehydrate_iff _ _).1 (refl, run-IsValid s xs (create-IsValid a s e) o)

-- If a session is not revoked, revoke at an instant from its creation on but before its last use
-- succeeds, and rehydrate refuses the session that it leaves.
pub revoke-rehydrate_early :
    (s : AuditorSession) (at : DateTime)
    → (s.revoked_at ≡ none)
    → s.created_at ≤ at
    → at < s.last_used_at
    → (t : AuditorSession) × (revoke s at ≡ ok (session_revoked, t))
      × (rehydrate t ≡ err session_invalid_rehydration)
unfolding revoke
revoke-rehydrate_early s at n c l = (
  record s { revoked_at = some at; updated_at = at },
  ground arith,
  ground (arith, rehydrate_lem (record s { revoked_at = some at; updated_at = at })),
)
