-- ===== src/Domain/Workspace/Members.antt =====
-- The operations of `Workspace`. One that takes `&mut self` answers with the new workspace.
use proofplane.Prelude.{
  ℕ, zero, suc, ◌+◌, Bool, false, not, ◌&&◌, ◌||◌, Option, none, some, List, [], ◌∷◌, ◌++◌, map,
  ◌==◌, if◌then◌else◌, is_some, map_some, length, all, any, contains, Result, ok, err, ◌>>=◌, ◌>>◌,
  ok_or, guard,
}
use proofplane.Text.{Text}
use proofplane.Domain.Ids.{WorkspaceId, UserId, DateTime}
use proofplane.Domain.Workspace.Types.{
  owner, invalid_memberships, already_member, unavailable, not_found, last_owner, self_removal,
  WorkspaceMembership, Workspace, WorkspaceError, WorkspaceRole, is_owner, WorkspaceMemberError,
}

unfoldable pub create_owned : WorkspaceId → Option Text → Text → DateTime → UserId → Workspace
create_owned id slug name created_at owner_user_id = record {
  id = id;
  slug = slug;
  name = name;
  created_at = created_at;
  memberships =
      record { user_id = owner_user_id; workspace_id = id; role = owner; created_at = created_at }
      ∷ [];
}

-- `collect::<HashSet<_>>().len()`
unfoldable pub distinct_count : List ℕ → ℕ
distinct_count [] = 0
distinct_count (x ∷ xs) = let rest = distinct_count xs in if contains x xs then rest else suc rest

abbrev pub user_ids : List WorkspaceMembership → List UserId
user_ids = map (λ m. m.user_id)

-- `rehydrate`, its arguments in a record.
unfoldable pub rehydrate : Workspace → Result Workspace WorkspaceError
unfolding distinct_count
rehydrate w =
    let scoped = all (λ m. m.workspace_id == w.id) w.memberships in
    let unique_users = distinct_count (user_ids w.memberships) == length w.memberships in
    let has_owner = any is_owner w.memberships in
    if not scoped || not unique_users || not has_owner then err invalid_memberships else ok w

-- `find`, then the role.
unfoldable pub role_in : List WorkspaceMembership → UserId → Option WorkspaceRole
role_in [] user = none
role_in (m ∷ ms) user = if m.user_id == user then some m.role else role_in ms user

unfoldable pub role_for : Workspace → UserId → Option WorkspaceRole
unfolding role_in
role_for w user = role_in w.memberships user

unfoldable pub add_member :
    Workspace → UserId → WorkspaceRole → DateTime → Result Workspace WorkspaceError
unfolding role_for
add_member w user role created_at =
    if is_some (role_for w user)
    then err already_member
    else ok (record w {
      memberships =
          w.memberships
          ++ record { user_id = user; workspace_id = w.id; role = role; created_at = created_at }
            ∷ [];
    })

-- `position`: the index of the first membership of a user.
unfoldable pub position : UserId → List WorkspaceMembership → Option ℕ
position user [] = none
position user (m ∷ ms) =
    let rest = position user ms in if m.user_id == user then some 0 else map_some suc rest

-- `memberships[index].role == Owner`; an index that `position` found is in bounds.
unfoldable pub is_owner_at : List WorkspaceMembership → ℕ → Bool
is_owner_at [] i = false
is_owner_at (m ∷ ms) zero = is_owner m
is_owner_at (m ∷ ms) (suc i) = is_owner_at ms i

-- `Vec::remove`
unfoldable pub remove_at : List WorkspaceMembership → ℕ → List WorkspaceMembership
remove_at [] i = []
remove_at (m ∷ ms) zero = ms
remove_at (m ∷ ms) (suc i) = m ∷ remove_at ms i

-- `filter(…).count()`
unfoldable pub owner_count : List WorkspaceMembership → ℕ
owner_count [] = 0
owner_count (m ∷ ms) = (if is_owner m then 1 else 0) + owner_count ms

unfoldable pub remove_member : Workspace → UserId → UserId → Result Workspace WorkspaceMemberError
unfolding role_for position is_owner_at remove_at owner_count
remove_member w actor target = do
  guard (is_some (role_for w actor)) unavailable
  index ← ok_or (position target w.memberships) not_found
  guard (not (is_owner_at w.memberships index && owner_count w.memberships == 1)) last_owner
  guard (not (actor == target)) self_removal
  ok (record w { memberships = remove_at w.memberships index })
