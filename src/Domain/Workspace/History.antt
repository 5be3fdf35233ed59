-- ===== src/Domain/Workspace/History.antt =====
-- Any sequence of calls on a new workspace: it stays one that `rehydrate` takes over unchanged.
use proofplane.Prelude.{◌≡◌, refl, Option, List, [], ◌∷◌, Result, ok, err}
use proofplane.Text.{Text}
use proofplane.Domain.Ids.{UserId, WorkspaceId, DateTime}
use proofplane.Domain.Workspace.Adding.{add_member-Added, create_owned-IsValid}
use proofplane.Domain.Workspace.Invariant.{IsValid, rehydrate-IsValid}
use proofplane.Domain.Workspace.Members.{add_member, remove_member, create_owned, rehydrate}
use proofplane.Domain.Workspace.Types.{Workspace, WorkspaceRole}
use proofplane.Domain.Workspace.Verdict.{remove_member-Removed}

pub data Call : Type 0 where
  adds : UserId → WorkspaceRole → DateTime → Call
  removes : UserId → UserId → Call

-- A call that is refused leaves the workspace as it was.
abbrev pub after {ℓ} : {E : Type ℓ} → Workspace → Result Workspace E → Workspace
after w (ok v) = v
after w (err e) = w

unfoldable pub step : Workspace → Call → Workspace
unfolding add_member remove_member
step w (adds user role at) = after w (add_member w user role at)
step w (removes actor target) = after w (remove_member w actor target)

unfoldable pub run : Workspace → List Call → Workspace
unfolding step
run w [] = w
run w (c ∷ cs) = run (step w c) cs

after-cases {ℓ} :
    {E : Type ℓ} (w : Workspace) (r : Result Workspace E)
    → IsValid w
    → ((v : Workspace) → r ≡ ok v → IsValid v)
    → IsValid (after w r)
after-cases w (ok v) h k = k v refl
after-cases w (err e) h k = h

step-IsValid : (w : Workspace) (c : Call) → IsValid w → IsValid (step w c)
unfolding step
step-IsValid w (adds user role at) h =
    after-cases w (add_member w user role at) h λ v e. (add_member-Added w v user role at h e).0
step-IsValid w (removes actor target) h =
    after-cases w (remove_member w actor target) h
      λ v e. (remove_member-Removed w v actor target h e).0

pub run-IsValid : (w : Workspace) (cs : List Call) → IsValid w → IsValid (run w cs)
unfolding run
run-IsValid w [] h = h
run-IsValid w (c ∷ cs) h = run-IsValid (step w c) cs (step-IsValid w c h)

-- After any additions and removals of members on a newly created workspace, those that fail being
-- without effect, rehydrate accepts the workspace and gives it back as it is.
pub rehydrate-run_workspace :
    (id : WorkspaceId) (slug : Option Text) (name : Text) (at : DateTime) (u : UserId)
    (cs : List Call)
    → let w = run (create_owned id slug name at u) cs in rehydrate w ≡ ok w
rehydrate-run_workspace id slug name at u cs =
    (rehydrate-IsValid _ _).1 (
      refl,
      run-IsValid (create_owned id slug name at u) cs (create_owned-IsValid id slug name at u),
    )
