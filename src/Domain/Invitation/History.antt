-- ===== src/Domain/Invitation/History.antt =====
-- Any sequence of calls on one invitation: its snapshot stays acceptable, an end is final, and a
-- resend makes the earlier generation useless.
use proofplane.Prelude.{◌≤◌, ◌≡◌, refl, List, [], ◌∷◌, arith, All, ℤ, Result, ok, err}
use proofplane.Domain.Ids.{UserId, DateTime}
use proofplane.Domain.Invitation.Invariant.{
  IsValid, accept-IsValid, rehydrate-IsValid, queue_delivery-IsValid, resend-IsValid,
  revoke-IsValid, record_delivery_success-IsValid, record_delivery_failure-IsValid,
}
use proofplane.Domain.Invitation.Operations.{
  accept, queue_delivery, rehydrate, resend, revoke, record_delivery_success,
  record_delivery_failure,
}
use proofplane.Domain.Invitation.Types.{
  WorkspaceInvitation, WorkspaceInvitationDeliveryFailure, WorkspaceInvitationError,
  InvitationAcceptance,
}

pub data Call : Type 0 where
  accepts : UserId → DateTime → Call
  queues : ℤ → DateTime → Call
  resends : ℤ → DateTime → DateTime → Call
  revokes : ℤ → DateTime → Call
  succeeds : ℤ → DateTime → Call
  fails : ℤ → WorkspaceInvitationDeliveryFailure → DateTime → Call

-- The clock that a call reads.
abbrev pub time : Call → DateTime
time (accepts _ at) = at
time (queues _ at) = at
time (resends _ at _) = at
time (revokes _ at) = at
time (succeeds _ at) = at
time (fails _ _ at) = at

-- A call that is refused leaves the invitation as it was.
abbrev pub after :
    WorkspaceInvitation → Result WorkspaceInvitation WorkspaceInvitationError → WorkspaceInvitation
after i (ok v) = v
after i (err e) = i

abbrev pub after_accept :
    WorkspaceInvitation
    → Result (InvitationAcceptance × WorkspaceInvitation) WorkspaceInvitationError
    → WorkspaceInvitation
after_accept i (ok (_, v)) = v
after_accept i (err e) = i

unfoldable pub step : WorkspaceInvitation → Call → WorkspaceInvitation
unfolding accept queue_delivery resend revoke record_delivery_success record_delivery_failure
step i (accepts user at) = after_accept i (accept i user at)
step i (queues g at) = after i (queue_delivery i g at)
step i (resends g at expires) = after i (resend i g at expires)
step i (revokes g at) = after i (revoke i g at)
step i (succeeds g at) = (record_delivery_success i g at).1
step i (fails g f at) = (record_delivery_failure i g f at).1

unfoldable pub run : WorkspaceInvitation → List Call → WorkspaceInvitation
unfolding step
run i [] = i
run i (c ∷ cs) = run (step i c) cs

after-cases :
    (i : WorkspaceInvitation) (r : Result WorkspaceInvitation WorkspaceInvitationError)
    → IsValid i
    → ((v : WorkspaceInvitation) → r ≡ ok v → IsValid v)
    → IsValid (after i r)
after-cases i (ok v) h k = k v refl
after-cases i (err e) h k = h

after_accept-cases :
    (i : WorkspaceInvitation)
    (r : Result (InvitationAcceptance × WorkspaceInvitation) WorkspaceInvitationError)
    → IsValid i
    → ((a : InvitationAcceptance) (v : WorkspaceInvitation) → r ≡ ok (a, v) → IsValid v)
    → IsValid (after_accept i r)
after_accept-cases i (ok (a, v)) h k = k a v refl
after_accept-cases i (err e) h k = h

step-IsValid :
    (i : WorkspaceInvitation) (c : Call) → i.created_at ≤ time c → IsValid i → IsValid (step i c)
unfolding step
step-IsValid i (accepts user at) t h =
    after_accept-cases i (accept i user at) h λ a v e. accept-IsValid i v user at a h e
step-IsValid i (queues g at) t h =
    after-cases i (queue_delivery i g at) h λ v e. queue_delivery-IsValid i v g at h e
step-IsValid i (resends g at expires) t h =
    after-cases i (resend i g at expires) h λ v e. resend-IsValid i v g at expires t h e
step-IsValid i (revokes g at) t h =
    after-cases i (revoke i g at) h λ v e. revoke-IsValid i v g at h e
step-IsValid i (succeeds g at) t h = record_delivery_success-IsValid i g at h
step-IsValid i (fails g f at) t h = record_delivery_failure-IsValid i g f at h

created_at-step : (i : WorkspaceInvitation) (c : Call) → (step i c).created_at ≡ i.created_at
unfolding step
created_at-step i (accepts user at) = ground arith
created_at-step i c = ground arith

run-IsValid :
    (i : WorkspaceInvitation) (cs : List Call)
    → All (λ c. i.created_at ≤ time c) cs
    → IsValid i
    → IsValid (run i cs)
unfolding run
run-IsValid i [] t h = h
run-IsValid i (c ∷ cs) t h =
    run-IsValid (step i c) cs (rw (created_at-step i c) t.1) (step-IsValid i c t.0 h)

-- If rehydrate accepts an invitation as it is and no call of a history is at an instant before its
-- creation, rehydrate accepts what the history leaves, as it is.
pub rehydrate-run_invitation :
    (i : WorkspaceInvitation) (cs : List Call)
    → rehydrate i ≡ ok i
    → All (λ c. i.created_at ≤ time c) cs
    → rehydrate (run i cs) ≡ ok (run i cs)
rehydrate-run_invitation i cs h t =
    (rehydrate-IsValid _ _).1 (refl, run-IsValid i cs t ((rehydrate-IsValid i i).0 h).1)
