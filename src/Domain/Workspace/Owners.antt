-- ===== src/Domain/Workspace/Owners.antt =====
-- The count of owners and the roles of users.
use proofplane.Prelude.{
  ◌≤◌, ◌≡◌, inl, inr, some, List, [], ◌∷◌, arith, ◌==◌, ==_iff, ==_refl, Bool-cases,
}
use proofplane.Domain.Ids.{UserId}
use proofplane.Domain.Workspace.Adding.{role_in-contains}
use proofplane.Domain.Workspace.Invariant.{NoRepeat}
use proofplane.Domain.Workspace.Members.{role_in, owner_count, user_ids}
use proofplane.Domain.Workspace.Types.{owner, WorkspaceMembership, is_owner}

-- A user with the role of an owner is counted.
pub owner-counted :
    (ms : List WorkspaceMembership) (x : UserId) → role_in ms x ≡ some owner → 1 ≤ owner_count ms
unfolding role_in owner_count
owner-counted [] x h = ground arith
owner-counted (m ∷ ms) x h = elim (Bool-cases (m.user_id == x)) [
  | inl here ↦ ground arith
  | inr there ↦ ground (arith, owner-counted ms x)
]

-- Where an owner is counted, some user has the role.
pub counted-owner :
    (ms : List WorkspaceMembership)
    → NoRepeat (user_ids ms)
    → 1 ≤ owner_count ms
    → (x : UserId) × (role_in ms x ≡ some owner)
unfolding role_in owner_count
counted-owner [] n h = absurd (omega arith)
counted-owner (m ∷ ms) n h = elim (Bool-cases (is_owner m)) [
  | inl first ↦ (m.user_id, ground (arith, ==_refl m.user_id))
  | inr other ↦
      let (x, found) = counted-owner ms n.1 (ground arith) in
      (x, ground (arith, role_in-contains ms m.user_id, ==_iff m.user_id x))
]
