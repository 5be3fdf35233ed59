-- ===== src/Domain/Invitation/Operations.antt =====
-- The operations of `WorkspaceInvitation`. One that takes `&mut self` answers with the new invitation.
use proofplane.Prelude.{
  ◌-◌, ◌%◌, Bool, true, false, not, ◌&&◌, ◌||◌, Option, none, some, ltb, leb, ◌==◌, if◌then◌else◌,
  is_some, is_none, is_none_or, option_eq, bool_eq, is_empty, ℤ, pos, int_eq, int_le, is_positive,
  checked_suc, Result, ok, err, ◌>>=◌, ◌>>◌, ok_or, guard,
}
use proofplane.Text.{trim, Text}
use proofplane.Domain.Ids.{DateTime, Uuid, UserId, WorkspaceId}
use proofplane.Domain.Invitation.Types.{
  applied, replay, recorded, ignored, invalid_snapshot, unavailable, accepted_by_another_user,
  stale_generation, WorkspaceInvitation, status_at, WorkspaceInvitationError,
  InvitationDeliveryUpdate, WorkspaceInvitationDeliveryFailure, is_pending, InvitationAcceptance,
}
use proofplane.Domain.Workspace.Types.{WorkspaceRole, owner, admin}

-- `with_nanosecond(0)`: the whole second. It fails for no instant, 0 being in range.
abbrev pub whole_second : DateTime → DateTime
whole_second t = t - t % 1_000_000_000

abbrev pub terminal_valid : Option DateTime → Option DateTime → Option UserId → Bool
terminal_valid (some _) none (some _) = true
terminal_valid none (some _) none = true
terminal_valid none none none = true
terminal_valid _ _ _ = false

abbrev pub in_generations : ℤ → ℤ → Bool
in_generations generation value = is_positive value && int_le value generation

unfoldable pub delivery_valid : WorkspaceInvitation → Bool
delivery_valid i =
    bool_eq (is_none i.queued_generation) (is_none i.queued_at)
    && bool_eq (is_none i.delivered_generation) (is_none i.delivered_at)
    && bool_eq (is_none i.last_delivery_failure) (is_none i.delivery_failed_at)
    && is_none_or i.queued_generation (in_generations i.generation)
    && is_none_or i.delivered_generation (in_generations i.generation)

abbrev is_admin : WorkspaceRole → Bool
is_admin r = elim r [ admin ↦ true | owner ↦ false ]

-- `rehydrate`, its arguments in a record.
unfoldable pub rehydrate : WorkspaceInvitation → Result WorkspaceInvitation WorkspaceInvitationError
unfolding delivery_valid trim
rehydrate i =
    if not (is_admin i.role)
      || not (is_positive i.generation)
      || is_empty (trim i.invited_email)
      || leb i.expires_at i.created_at
      || not (terminal_valid i.accepted_at i.revoked_at i.accepting_user_id)
      || not (delivery_valid i)
    then err invalid_snapshot
    else ok i

unfoldable pub create :
    Uuid
    → WorkspaceId
    → UserId
    → Text
    → DateTime
    → DateTime
    → Result WorkspaceInvitation WorkspaceInvitationError
unfolding rehydrate
create id workspace inviter email created_at expires_at = rehydrate (record {
  id = id;
  workspace_id = workspace;
  inviter_user_id = inviter;
  invited_email = email;
  role = admin;
  generation = pos 1;
  created_at = whole_second created_at;
  expires_at = whole_second expires_at;
  accepted_at = none;
  revoked_at = none;
  accepting_user_id = none;
  queued_generation = none;
  queued_at = none;
  delivered_generation = none;
  delivered_at = none;
  last_delivery_failure = none;
  delivery_failed_at = none;
})

unfoldable pub ensure_current :
    WorkspaceInvitation → ℤ → DateTime → DateTime → Result (Unit {0}) WorkspaceInvitationError
unfolding status_at
ensure_current i generation expires_at now =
    guard
      (int_eq i.generation generation && i.expires_at == expires_at && is_pending (status_at i now))
      unavailable

unfoldable pub accept :
    WorkspaceInvitation
    → UserId
    → DateTime
    → Result (InvitationAcceptance × WorkspaceInvitation) WorkspaceInvitationError
unfolding status_at
accept i user at =
    if option_eq i.accepting_user_id (some user) && is_some i.accepted_at
    then ok (replay, i)
    else if is_some i.accepted_at
    then err accepted_by_another_user
    else if not (is_pending (status_at i at))
    then err unavailable
    else ok (applied, record i { accepted_at = some at; accepting_user_id = some user })

unfoldable pub queue_delivery :
    WorkspaceInvitation → ℤ → DateTime → Result WorkspaceInvitation WorkspaceInvitationError
unfolding status_at
queue_delivery i generation at = do
  guard (int_eq generation i.generation) stale_generation
  guard (is_pending (status_at i at)) unavailable
  ok (record i {
    queued_generation = some generation;
    queued_at = some at;
    last_delivery_failure = none;
    delivery_failed_at = none;
  })

unfoldable pub resend :
    WorkspaceInvitation
    → ℤ
    → DateTime
    → DateTime
    → Result WorkspaceInvitation WorkspaceInvitationError
unfolding status_at
resend i expected_generation sent_at expires_at = do
  guard (int_eq expected_generation i.generation) stale_generation
  guard (is_pending (status_at i sent_at) && ltb sent_at expires_at) unavailable
  generation ← ok_or (checked_suc i.generation) invalid_snapshot
  ok (record i {
    generation = generation;
    expires_at = expires_at;
    queued_generation = some generation;
    queued_at = some sent_at;
    last_delivery_failure = none;
    delivery_failed_at = none;
  })

unfoldable pub revoke :
    WorkspaceInvitation → ℤ → DateTime → Result WorkspaceInvitation WorkspaceInvitationError
unfolding status_at
revoke i expected_generation at = do
  guard (int_eq expected_generation i.generation) stale_generation
  guard (is_pending (status_at i at)) unavailable
  ok (record i { revoked_at = some at })

unfoldable pub record_delivery_success :
    WorkspaceInvitation → ℤ → DateTime → InvitationDeliveryUpdate × WorkspaceInvitation
unfolding status_at
record_delivery_success i generation at =
    if not (int_eq generation i.generation) || not (is_pending (status_at i at))
    then (ignored, i)
    else (
      recorded,
      record i {
        delivered_generation = some generation;
        delivered_at = some at;
        last_delivery_failure = none;
        delivery_failed_at = none;
      },
    )

unfoldable pub record_delivery_failure :
    WorkspaceInvitation
    → ℤ
    → WorkspaceInvitationDeliveryFailure
    → DateTime
    → InvitationDeliveryUpdate × WorkspaceInvitation
unfolding status_at
record_delivery_failure i generation classification at =
    if not (int_eq generation i.generation) || not (is_pending (status_at i at))
    then (ignored, i)
    else (
      recorded,
      record i { last_delivery_failure = some classification; delivery_failed_at = some at },
    )
