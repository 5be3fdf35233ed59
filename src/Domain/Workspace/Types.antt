-- ===== src/Domain/Workspace/Types.antt =====
-- `WorkspaceRole`, `WorkspaceMembership`, `Workspace` and the two error types.
use proofplane.Prelude.{Bool, true, false, Option, List, if◌then◌else◌, Result, ok, err}
use proofplane.Text.{Text, codes, text_eq}
use proofplane.Domain.Ids.{UserId, WorkspaceId, DateTime}

pub data WorkspaceRole : Type 0 where
  owner admin : WorkspaceRole

unfoldable pub role_as_str : WorkspaceRole → Text
role_as_str owner = codes "owner"
role_as_str admin = codes "admin"

unfoldable pub role_from_str : Text → Result WorkspaceRole (Unit {0})
role_from_str value =
    if text_eq value (codes "owner")
    then ok owner
    else if text_eq value (codes "admin")
    then ok admin
    else err tt

pub record WorkspaceMembership : Type 0 where
  pub user_id : UserId
  pub workspace_id : WorkspaceId
  pub role : WorkspaceRole
  pub created_at : DateTime

pub record Workspace : Type 0 where
  pub id : WorkspaceId
  pub slug : Option Text
  pub name : Text
  pub created_at : DateTime
  pub memberships : List WorkspaceMembership

pub data WorkspaceError : Type 0 where
  invalid_memberships already_member : WorkspaceError

pub data WorkspaceMemberError : Type 0 where
  unavailable not_found last_owner self_removal : WorkspaceMemberError

abbrev pub is_owner : WorkspaceMembership → Bool
is_owner m = elim m.role [ owner ↦ true | admin ↦ false ]
