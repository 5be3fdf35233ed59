-- ===== src/Domain/OauthFlow/Invariant.antt =====
-- The snapshots that the two `rehydrate`s accept, and that every operation stays among them.
use proofplane.Prelude.{
  ◌≤◌, ◌<◌, ◌≡◌, refl, ◌↔◌, inl, inr, Bool, true, false, not, ◌&&◌, ◌||◌, Option, none, some, arith,
  leb, if◌then◌else◌, Bool-cases, is_some, is_none, bool_eq, is_empty, ok, err,
}
use proofplane.Domain.Ids.{DateTime}
use proofplane.Domain.OauthFlow.Operations.{rehydrate, rehydrate_code, is_outside}
use proofplane.Domain.OauthFlow.Types.{
  OauthAuthorizationFlowCode, OauthAuthorizationFlow, invalid_rehydration,
}

-- An optional instant within a window.
abbrev pub Within : DateTime → DateTime → Option DateTime → Type 0
Within created_at expires_at none = Unit
Within created_at expires_at (some t) = (created_at ≤ t) × (t < expires_at)

abbrev pub CodeIsValid : Option OauthAuthorizationFlowCode → Type 0
CodeIsValid none = Unit
CodeIsValid (some c) =
    (c.created_at < c.expires_at) × Within c.created_at c.expires_at c.consumed_at

pub record IsValid (f : OauthAuthorizationFlow) : Type 0 where
  pub window : f.created_at < f.expires_at
  pub client : is_empty f.client_id ≡ false
  pub redirect : is_empty f.redirect_uri ≡ false
  pub challenge : is_empty f.code_challenge ≡ false
  pub target : is_empty f.resource ≡ false
  pub scoped : is_empty f.scopes ≡ false
  pub identified : bool_eq (is_some f.auth0_subject) (is_some f.user_id) ≡ true
  pub consumption : Within f.created_at f.expires_at f.consumed_at
  pub code_after_consent : (is_some f.authorization_code && is_none f.consumed_at) ≡ false
  pub code : CodeIsValid f.authorization_code

outside-Within :
    (at : Option DateTime) (created_at expires_at : DateTime)
    → (is_outside at created_at expires_at ≡ false) ↔ Within created_at expires_at at
outside-Within none created_at expires_at = (λ _. tt, λ _. refl)
outside-Within (some t) created_at expires_at = (λ e. ground arith, λ h. ground arith)

abbrev request_invalid : OauthAuthorizationFlow → Bool
request_invalid f =
    leb f.expires_at f.created_at
    || is_empty f.client_id
    || is_empty f.redirect_uri
    || is_empty f.code_challenge
    || is_empty f.resource
    || is_empty f.scopes

abbrev state_invalid : OauthAuthorizationFlow → Bool
state_invalid f =
    not (bool_eq (is_some f.auth0_subject) (is_some f.user_id))
    || is_outside f.consumed_at f.created_at f.expires_at
    || (is_some f.authorization_code && is_none f.consumed_at)

rehydrate_lem :
    (f : OauthAuthorizationFlow)
    → rehydrate f ≡ (
        if request_invalid f
        then err invalid_rehydration
        else if state_invalid f
        then err invalid_rehydration
        else ok f)
unfolding rehydrate
rehydrate_lem f = elim (Bool-cases (request_invalid f)) [
  | inl bad ↦ rw bad
  | inr good ↦ elim (Bool-cases (state_invalid f)) [
    | inl unfit ↦ rw (good, unfit)
    | inr fits ↦ rw (good, fits)
  ]
]

pub rehydrate_code-CodeIsValid :
    (c d : OauthAuthorizationFlowCode)
    → (rehydrate_code c ≡ ok d) ↔ ((d ≡ c) × CodeIsValid (some c))
unfolding rehydrate_code
rehydrate_code-CodeIsValid c d = (
  λ e. ground (arith, outside-Within c.consumed_at c.created_at c.expires_at),
  λ h. ground (arith, outside-Within c.consumed_at c.created_at c.expires_at),
)

-- The code of a flow, where there is one, is accepted.
abbrev pub CodeIsAccepted : Option OauthAuthorizationFlowCode → Type 0
CodeIsAccepted none = Unit
CodeIsAccepted (some c) = rehydrate_code c ≡ ok c

-- What the store does when it reads a flow back: the code first, and then the flow with it.
abbrev pub IsAccepted : OauthAuthorizationFlow → Type 0
IsAccepted f = (rehydrate f ≡ ok f) × CodeIsAccepted f.authorization_code

code_part : (o : Option OauthAuthorizationFlowCode) → CodeIsAccepted o ↔ CodeIsValid o
code_part none = (λ _. tt, λ _. tt)
code_part (some c) = (
  λ k. ((rehydrate_code-CodeIsValid c c).0 k).1,
  λ h. (rehydrate_code-CodeIsValid c c).1 (refl, h),
)

-- A snapshot is accepted exactly if it is valid.
pub IsAccepted-IsValid : (f : OauthAuthorizationFlow) → IsAccepted f ↔ IsValid f
IsAccepted-IsValid f = (
  λ (e, k).
      let window = outside-Within f.consumed_at f.created_at f.expires_at in
      let code = (code_part f.authorization_code).0 k in
      let good : request_invalid f ≡ false = ground (arith, rehydrate_lem f) in
      let fits : state_invalid f ≡ false = ground (arith, rehydrate_lem f) in
      ground (arith, window),
  λ h. (
    ground (arith, rehydrate_lem f, outside-Within f.consumed_at f.created_at f.expires_at),
    (code_part f.authorization_code).1 h.code,
  ),
)
