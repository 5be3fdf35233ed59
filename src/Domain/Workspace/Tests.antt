-- ===== src/Domain/Workspace/Tests.antt =====
-- One workspace on concrete data: its owner, an administrator and a second owner.
use proofplane.Prelude.{◌≡◌, refl, ◌↔◌, none, [], ◌∷◌, arith, ok, err}
use proofplane.Text.{codes}
use proofplane.Domain.Ids.{UserId}
use proofplane.Domain.Workspace.Adding.{Added, add_member-Added}
use proofplane.Domain.Workspace.History.{adds, removes, run, rehydrate-run_workspace}
use proofplane.Domain.Workspace.Invariant.{IsValid}
use proofplane.Domain.Workspace.Members.{
  owner_count, remove_member, add_member, rehydrate, create_owned,
}
use proofplane.Domain.Workspace.Types.{
  owner, admin, last_owner, Workspace, WorkspaceRole, WorkspaceMembership,
}
use proofplane.Domain.Workspace.Verdict.{
  Removed, Refused, remove_member-Removed, remove_member-Refused,
}

abbrev member : UserId → WorkspaceRole → WorkspaceMembership
member user role = record { user_id = user; workspace_id = 7; role = role; created_at = 10 }

abbrev team : Workspace
team = record {
  id = 7;
  slug = none;
  name = codes "Acme";
  created_at = 10;
  memberships = member 1 owner ∷ member 2 admin ∷ member 3 owner ∷ [];
}

abbrev team_without : Workspace
team_without = record team { memberships = member 1 owner ∷ member 2 admin ∷ [] }

abbrev team_with : Workspace
team_with = record team {
  memberships = member 1 owner ∷ member 2 admin ∷ member 3 owner ∷ member 4 admin ∷ [];
}

team-IsValid : IsValid team
unfolding owner_count
team-IsValid = record {
  scoped = (refl, (refl, (refl, tt)));
  unique = (refl, (refl, (refl, tt)));
  owned = omega arith;
}

remove_member_test : remove_member team 1 3 ≡ ok team_without
unfolding remove_member
remove_member_test = refl

add_member_test : add_member team 4 admin 10 ≡ ok team_with
unfolding add_member
add_member_test = refl

team_without-IsValid : IsValid team_without
unfolding owner_count
team_without-IsValid = record {
  scoped = (refl, (refl, tt));
  unique = (refl, (refl, tt));
  owned = omega arith;
}

remove_member-Refused_example :
    (remove_member team_without 2 1 ≡ err last_owner) ↔ Refused team_without 2 1 last_owner
remove_member-Refused_example =
    remove_member-Refused team_without 2 1 last_owner team_without-IsValid

remove_member-Removed_example : Removed team 3 team_without
remove_member-Removed_example =
    remove_member-Removed team team_without 1 3 team-IsValid remove_member_test

add_member-Added_example : Added team 4 admin team_with
add_member-Added_example = add_member-Added team team_with 4 admin 10 team-IsValid add_member_test

rehydrate-run_workspace_example :
    rehydrate (run (create_owned 7 none [] 10 1) (adds 2 admin 20 ∷ removes 2 1 ∷ removes 1 2 ∷ []))
    ≡ ok (run (create_owned 7 none [] 10 1) (adds 2 admin 20 ∷ removes 2 1 ∷ removes 1 2 ∷ []))
rehydrate-run_workspace_example =
    rehydrate-run_workspace 7 none [] 10 1 (adds 2 admin 20 ∷ removes 2 1 ∷ removes 1 2 ∷ [])
