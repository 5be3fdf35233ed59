-- ===== src/Domain/Invitation/Tests.antt =====
-- One invitation on concrete data.
use proofplane.Prelude.{◌≡◌, refl, none, some, List, [], ◌∷◌, ◌==◌, if◌then◌else◌, pos, ok, err}
use proofplane.Text.{codes}
use proofplane.Domain.Invitation.Finality.{accept-accept}
use proofplane.Domain.Invitation.Generations.{Stale, resend-Stale}
use proofplane.Domain.Invitation.History.{revokes, succeeds, Call, run}
use proofplane.Domain.Invitation.Operations.{create, rehydrate, accept, resend}
use proofplane.Domain.Invitation.Types.{
  applied, replay, accepted_by_another_user, WorkspaceInvitation,
}
use proofplane.Domain.Workspace.Types.{admin}

abbrev invited : WorkspaceInvitation
invited = record {
  id = 1;
  workspace_id = 2;
  inviter_user_id = 3;
  invited_email = codes "ada@example.com";
  role = admin;
  generation = pos 1;
  created_at = 1_000_000_000;
  expires_at = 9_000_000_000;
  accepted_at = none;
  revoked_at = none;
  accepting_user_id = none;
  queued_generation = none;
  queued_at = none;
  delivered_generation = none;
  delivered_at = none;
  last_delivery_failure = none;
  delivery_failed_at = none;
}

abbrev joined : WorkspaceInvitation
joined = record invited { accepted_at = some 2_000_000_000; accepting_user_id = some 8 }

abbrev resent : WorkspaceInvitation
resent = record invited {
  generation = pos 2;
  expires_at = 9_500_000_000;
  queued_generation = some (pos 2);
  queued_at = some 2_000_000_000;
}

create_test : create 1 2 3 (codes "ada@example.com") 1_000_000_005 9_000_000_700 ≡ ok invited
unfolding create
create_test = refl

rehydrate_test : rehydrate invited ≡ ok invited
unfolding rehydrate
rehydrate_test = refl

accept_test : accept invited 8 2_000_000_000 ≡ ok (applied, joined)
unfolding accept
accept_test = refl

resend_test : resend invited (pos 1) 2_000_000_000 9_500_000_000 ≡ ok resent
unfolding resend
resend_test = refl

abbrev later_calls : List Call
later_calls = revokes (pos 1) 3_000_000_000 ∷ succeeds (pos 2) 3_000_000_000 ∷ []

accept-accept_example :
    (run joined later_calls ≡ joined)
    × (accept (run joined later_calls) 9 4_000_000_000
        ≡ (if 9 == 8 then ok (replay, joined) else err accepted_by_another_user))
accept-accept_example =
    accept-accept invited joined 8 9 2_000_000_000 4_000_000_000 later_calls accept_test

resend-Stale_example : Stale (pos 1) (run resent later_calls)
resend-Stale_example =
    resend-Stale invited resent (pos 1) 2_000_000_000 9_500_000_000 later_calls resend_test
