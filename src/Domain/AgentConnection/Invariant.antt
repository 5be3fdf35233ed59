-- ===== src/Domain/AgentConnection/Invariant.antt =====
-- The snapshots that `rehydrate` accepts, and which operations stay among them.
use proofplane.Prelude.{
  ◌≤◌, ◌<◌, ◌≡◌, refl, ◌↔◌, inl, inr, Bool, true, false, not, ◌&&◌, ◌||◌, Option, none, some, arith,
  leb, if◌then◌else◌, Bool-cases, is_empty, ok, err,
}
use proofplane.Text.{trim}
use proofplane.Domain.AgentConnection.Operations.{rehydrate, predates, status_valid}
use proofplane.Domain.AgentConnection.Types.{AgentConnection, invalid_rehydration}
use proofplane.Domain.Ids.{DateTime}

-- An optional instant that is not before the creation.
abbrev pub From : DateTime → Option DateTime → Type 0
From created_at none = Unit
From created_at (some t) = created_at ≤ t

pub record IsValid (c : AgentConnection) : Type 0 where
  pub window : c.created_at < c.pending_expires_at
  pub permitted : is_empty c.permissions ≡ false
  pub subject : is_empty (trim c.auth0_subject) ≡ false
  pub client : is_empty (trim c.auth0_client_id) ≡ false
  pub display_name : is_empty (trim c.client_display_name) ≡ false
  pub target : is_empty (trim c.resource) ≡ false
  pub status_fits :
      status_valid c.status c.activated_at c.revoked_at c.authorization.consumed_at ≡ true
  pub activation : From c.created_at c.activated_at
  pub last_use : From c.created_at c.last_used_at
  pub revocation : From c.created_at c.revoked_at
  pub consumption : From c.created_at c.authorization.consumed_at

From-predates :
    (at : Option DateTime) (created_at : DateTime)
    → (predates at created_at ≡ false) ↔ From created_at at
From-predates none created_at = (λ _. tt, λ _. refl)
From-predates (some t) created_at = (λ e. ground arith, λ h. ground arith)

-- The two tests of `rehydrate`.
abbrev request_invalid : AgentConnection → Bool
request_invalid c =
    leb c.pending_expires_at c.created_at
    || is_empty c.permissions
    || is_empty (trim c.auth0_subject)
    || is_empty (trim c.auth0_client_id)
    || is_empty (trim c.client_display_name)
    || is_empty (trim c.resource)

abbrev state_valid : AgentConnection → Bool
state_valid c =
    status_valid c.status c.activated_at c.revoked_at c.authorization.consumed_at
    && not (predates c.activated_at c.created_at)
    && not (predates c.last_used_at c.created_at)
    && not (predates c.revoked_at c.created_at)
    && not (predates c.authorization.consumed_at c.created_at)

rehydrate_lem :
    (c : AgentConnection)
    → rehydrate c ≡ (
        if request_invalid c
        then err invalid_rehydration
        else if state_valid c
        then ok c
        else err invalid_rehydration)
unfolding rehydrate
rehydrate_lem c = elim (Bool-cases (request_invalid c)) [
  | inl bad ↦ rw bad
  | inr good ↦ elim (Bool-cases (state_valid c)) [
    | inl fits ↦ rw (good, fits)
    | inr unfit ↦ rw (good, unfit)
  ]
]

tests-IsValid : (c : AgentConnection) → request_invalid c ≡ false → state_valid c ≡ true → IsValid c
tests-IsValid c r s = ground (
  arith,
  From-predates c.activated_at c.created_at,
  From-predates c.last_used_at c.created_at,
  From-predates c.revoked_at c.created_at,
  From-predates c.authorization.consumed_at c.created_at,
)

IsValid-tests :
    (c : AgentConnection) → IsValid c → (request_invalid c ≡ false) × (state_valid c ≡ true)
IsValid-tests c h = ground (
  arith,
  From-predates c.activated_at c.created_at,
  From-predates c.last_used_at c.created_at,
  From-predates c.revoked_at c.created_at,
  From-predates c.authorization.consumed_at c.created_at,
)

-- A snapshot is accepted exactly if it is valid, and is then taken over unchanged.
pub rehydrate-IsValid : (c v : AgentConnection) → (rehydrate c ≡ ok v) ↔ ((v ≡ c) × IsValid c)
rehydrate-IsValid c v = (
  λ e. (
    ground (arith, rehydrate_lem c),
    tests-IsValid c (ground (arith, rehydrate_lem c)) (ground (arith, rehydrate_lem c)),
  ),
  λ (q, h). let (r, s) = IsValid-tests c h in ground (arith, rehydrate_lem c),
)
