-- ===== src/Domain/Workspace/Removal.antt =====
-- `remove_member`: who may remove whom, and what is left.
use proofplane.Prelude.{
  ℕ, zero, suc, ◌+◌, ◌≡◌, refl, false, none, some, List, [], ◌∷◌, arith, ◌==◌, if◌then◌else◌,
  map_some, All, contains,
}
use proofplane.Domain.Ids.{WorkspaceId, UserId}
use proofplane.Domain.Workspace.Adding.{role_in-contains}
use proofplane.Domain.Workspace.Invariant.{NoRepeat}
use proofplane.Domain.Workspace.Members.{
  owner_count, remove_at, role_in, is_owner_at, position, user_ids,
}
use proofplane.Domain.Workspace.Types.{owner, admin, WorkspaceMembership}

pub owner_count-remove_at :
    (ms : List WorkspaceMembership) (i : ℕ)
    → owner_count (remove_at ms i) + (if is_owner_at ms i then 1 else 0) ≡ owner_count ms
unfolding owner_count remove_at is_owner_at
owner_count-remove_at [] i = omega arith
owner_count-remove_at (m ∷ ms) zero = omega arith
owner_count-remove_at (m ∷ ms) (suc i) = omega (arith, owner_count-remove_at ms i)

pub remove_at-scoped :
    (id : WorkspaceId) (ms : List WorkspaceMembership) (i : ℕ)
    → All (λ m. m.workspace_id ≡ id) ms
    → All (λ m. m.workspace_id ≡ id) (remove_at ms i)
unfolding remove_at
remove_at-scoped id [] i a = tt
remove_at-scoped id (m ∷ ms) zero a = a.1
remove_at-scoped id (m ∷ ms) (suc i) a = (a.0, remove_at-scoped id ms i a.1)

contains-remove_at :
    (ms : List WorkspaceMembership) (i : ℕ) (u : UserId)
    → contains u (user_ids ms) ≡ false
    → contains u (user_ids (remove_at ms i)) ≡ false
unfolding remove_at
contains-remove_at [] i u h = refl
contains-remove_at (m ∷ ms) zero u h = ground arith
contains-remove_at (m ∷ ms) (suc i) u h = ground (arith, contains-remove_at ms i u)

pub remove_at-NoRepeat :
    (ms : List WorkspaceMembership) (i : ℕ)
    → NoRepeat (user_ids ms)
    → NoRepeat (user_ids (remove_at ms i))
unfolding remove_at
remove_at-NoRepeat [] i n = tt
remove_at-NoRepeat (m ∷ ms) zero n = n.1
remove_at-NoRepeat (m ∷ ms) (suc i) n =
    (contains-remove_at ms i m.user_id n.0, remove_at-NoRepeat ms i n.1)

-- The membership that `position` finds is the one that `role_for` reads.
pub role_in-position :
    (ms : List WorkspaceMembership) (u : UserId)
    → role_in ms u ≡ map_some (λ i. if is_owner_at ms i then owner else admin) (position u ms)
unfolding role_in position is_owner_at
role_in-position [] u = refl
role_in-position (m ∷ ms) u = ground (arith, role_in-position ms u)

pub role_in-remove_at :
    (ms : List WorkspaceMembership) (u x : UserId) (i : ℕ)
    → NoRepeat (user_ids ms)
    → position u ms ≡ some i
    → role_in (remove_at ms i) x ≡ (if x == u then none else role_in ms x)
unfolding role_in remove_at position
role_in-remove_at [] u x i n h = cc
role_in-remove_at (m ∷ ms) u x zero n h = ground (arith, role_in-contains ms u)
role_in-remove_at (m ∷ ms) u x (suc i) n h = ground (arith, role_in-remove_at ms u x i n.1)
