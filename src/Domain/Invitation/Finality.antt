-- ===== src/Domain/Invitation/Finality.antt =====
-- The two ends of an invitation, acceptance and revocation, are final.
use proofplane.Prelude.{
  ◌≡◌, refl, Bool, true, ◌||◌, List, [], ◌∷◌, arith, ◌==◌, if◌then◌else◌, ==_iff, is_some, ok, err,
}
use proofplane.Domain.Ids.{UserId, DateTime}
use proofplane.Domain.Invitation.History.{
  accepts, queues, resends, revokes, succeeds, fails, step, run, Call,
}
use proofplane.Domain.Invitation.Operations.{accept}
use proofplane.Domain.Invitation.Types.{
  applied, replay, accepted_by_another_user, WorkspaceInvitation,
}

abbrev pub has_ended : WorkspaceInvitation → Bool
has_ended i = is_some i.accepted_at || is_some i.revoked_at

step_ended : (i : WorkspaceInvitation) (c : Call) → has_ended i ≡ true → step i c ≡ i
unfolding step
step_ended i (accepts user at) h = ground arith
step_ended i (queues g at) h = ground arith
step_ended i (resends g at expires) h = ground arith
step_ended i (revokes g at) h = ground arith
step_ended i (succeeds g at) h = ground arith
step_ended i (fails g f at) h = ground arith

-- No call changes an invitation that was accepted or revoked.
pub run_ended : (i : WorkspaceInvitation) (cs : List Call) → has_ended i ≡ true → run i cs ≡ i
unfolding run
run_ended i [] h = refl
run_ended i (c ∷ cs) h = rw (step_ended i c h) (run_ended i cs h)

-- If an acceptance was applied for a user, no calls change the invitation any more; a later accept
-- answers Replay for that user and AcceptedByAnotherUser for every other, at any instant.
pub accept-accept :
    (i v : WorkspaceInvitation) (user other : UserId) (at later : DateTime) (cs : List Call)
    → accept i user at ≡ ok (applied, v)
    → (run v cs ≡ v)
      × (accept (run v cs) other later
          ≡ (if other == user then ok (replay, v) else err accepted_by_another_user))
unfolding accept
accept-accept i v user other at later cs e =
    let ended : has_ended v ≡ true = ground arith in
    let same = run_ended v cs ended in
    (same, rw same (ground (arith, ==_iff other user, ==_iff user other)))
