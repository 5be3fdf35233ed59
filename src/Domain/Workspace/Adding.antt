-- ===== src/Domain/Workspace/Adding.antt =====
-- `create_owned` and `add_member`: both give valid workspaces.
use proofplane.Prelude.{
  ◌≤◌, ◌≡◌, refl, subst, inl, inr, false, ◌||◌, Option, none, some, List, [], ◌∷◌, ◌++◌, arith,
  ◌==◌, if◌then◌else◌, is_some, Option-cases, All, contains, ok,
}
use proofplane.Text.{Text}
use proofplane.Domain.Ids.{WorkspaceId, UserId, DateTime}
use proofplane.Domain.Workspace.Invariant.{NoRepeat, IsValid}
use proofplane.Domain.Workspace.Members.{
  role_in, owner_count, create_owned, add_member, user_ids, role_for,
}
use proofplane.Domain.Workspace.Types.{WorkspaceMembership, Workspace, WorkspaceRole}

pub role_in-contains :
    (ms : List WorkspaceMembership) (u : UserId) → is_some (role_in ms u) ≡ contains u (user_ids ms)
unfolding role_in
role_in-contains [] u = refl
role_in-contains (m ∷ ms) u = ground (arith, role_in-contains ms u)

module _ (ms : List WorkspaceMembership) (new : WorkspaceMembership) where
  abbrev push : List WorkspaceMembership
  push = ms ++ new ∷ []

contains-push :
    (ms : List WorkspaceMembership) (new : WorkspaceMembership) (u : UserId)
    → contains u (user_ids (push ms new)) ≡ (contains u (user_ids ms) || u == new.user_id)
contains-push [] new u = ground arith
contains-push (m ∷ ms) new u = ground (arith, contains-push ms new u)

push-NoRepeat :
    (ms : List WorkspaceMembership) (new : WorkspaceMembership)
    → contains new.user_id (user_ids ms) ≡ false
    → NoRepeat (user_ids ms)
    → NoRepeat (user_ids (push ms new))
push-NoRepeat [] new h n = (refl, tt)
push-NoRepeat (m ∷ ms) new h n =
    (ground (arith, contains-push ms new m.user_id), push-NoRepeat ms new (ground arith) n.1)

push-scoped :
    (id : WorkspaceId) (ms : List WorkspaceMembership) (new : WorkspaceMembership)
    → new.workspace_id ≡ id
    → All (λ m. m.workspace_id ≡ id) ms
    → All (λ m. m.workspace_id ≡ id) (push ms new)
push-scoped id [] new h a = (h, tt)
push-scoped id (m ∷ ms) new h a = (a.0, push-scoped id ms new h a.1)

owner_count-push :
    (ms : List WorkspaceMembership) (new : WorkspaceMembership)
    → owner_count ms ≤ owner_count (push ms new)
unfolding owner_count
owner_count-push [] new = omega arith
owner_count-push (m ∷ ms) new = omega (arith, owner_count-push ms new)

role_in-push :
    (ms : List WorkspaceMembership) (new : WorkspaceMembership) (u : UserId)
    → role_in ms new.user_id ≡ none
    → role_in (push ms new) u ≡ (if u == new.user_id then some new.role else role_in ms u)
unfolding role_in
role_in-push [] new u h = ground arith
role_in-push (m ∷ ms) new u h = ground (arith, role_in-push ms new u)

pub create_owned-IsValid :
    (id : WorkspaceId) (slug : Option Text) (name : Text) (at : DateTime) (u : UserId)
    → IsValid (create_owned id slug name at u)
unfolding create_owned owner_count
create_owned-IsValid id slug name at u = record {
  scoped = (refl, tt);
  unique = (refl, tt);
  owned = omega arith;
}

abbrev membership : Workspace → UserId → WorkspaceRole → DateTime → WorkspaceMembership
membership w u role at = record { user_id = u; workspace_id = w.id; role = role; created_at = at }

abbrev with_member : Workspace → UserId → WorkspaceRole → DateTime → Workspace
with_member w u role at = record w { memberships = push w.memberships (membership w u role at) }

-- What `add_member` promises of the workspace that it answers with.
abbrev pub Added : Workspace → UserId → WorkspaceRole → Workspace → Type 0
Added w u role v =
    IsValid v
    × (role_for w u ≡ none)
    × ((x : UserId) → role_for v x ≡ (if x == u then some role else role_for w x))

with_member-Added :
    (w : Workspace) (u : UserId) (role : WorkspaceRole) (at : DateTime)
    → IsValid w
    → role_for w u ≡ none
    → Added w u role (with_member w u role at)
unfolding role_for
with_member-Added w u role at h fresh = (
  record {
    scoped = push-scoped w.id w.memberships (membership w u role at) refl h.scoped;
    unique =
        push-NoRepeat w.memberships (membership w u role at)
          (ground (arith, role_in-contains w.memberships u)) h.unique;
    owned = omega (arith, h.owned, owner_count-push w.memberships (membership w u role at));
  },
  fresh,
  λ x. role_in-push w.memberships (membership w u role at) x fresh,
)

-- If a workspace is valid and add_member succeeds, the result is valid, the user had no role before
-- and has the given one, and every other user has the role it had.
pub add_member-Added :
    (w v : Workspace) (u : UserId) (role : WorkspaceRole) (at : DateTime)
    → IsValid w
    → add_member w u role at ≡ ok v
    → Added w u role v
unfolding add_member
add_member-Added w v u role at h e = elim (Option-cases (role_for w u)) [
  | inr (r, old) ↦ ground arith
  | inl fresh ↦ subst (Added w u role) (ground arith) (with_member-Added w u role at h fresh)
]
