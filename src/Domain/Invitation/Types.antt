-- ===== src/Domain/Invitation/Types.antt =====
-- The data of src/domain/workspace_invitation.rs, with the two statuses that are computed.
use proofplane.Prelude.{
  Bool, true, false, Option, some, leb, if◌then◌else◌, is_some, ℤ, int_option_eq, Result, ok, err,
}
use proofplane.Text.{Text, codes, text_eq}
use proofplane.Domain.Ids.{Uuid, DateTime, WorkspaceId, UserId}
use proofplane.Domain.Workspace.Types.{WorkspaceRole}

pub data WorkspaceInvitationDeliveryFailure : Type 0 where
  retryable permanent exhausted : WorkspaceInvitationDeliveryFailure

unfoldable pub failure_as_str : WorkspaceInvitationDeliveryFailure → Text
failure_as_str retryable = codes "retryable"
failure_as_str permanent = codes "permanent"
failure_as_str exhausted = codes "exhausted"

pub record WorkspaceInvitation : Type 0 where
  pub id : Uuid
  pub workspace_id : WorkspaceId
  pub inviter_user_id : UserId
  pub invited_email : Text
  pub role : WorkspaceRole
  pub generation : ℤ
  pub created_at : DateTime
  pub expires_at : DateTime
  pub accepted_at : Option DateTime
  pub revoked_at : Option DateTime
  pub accepting_user_id : Option UserId
  pub queued_generation : Option ℤ
  pub queued_at : Option DateTime
  pub delivered_generation : Option ℤ
  pub delivered_at : Option DateTime
  pub last_delivery_failure : Option WorkspaceInvitationDeliveryFailure
  pub delivery_failed_at : Option DateTime

pub data WorkspaceInvitationStatus : Type 0 where
  pending accepted revoked expired : WorkspaceInvitationStatus

pub data InvitationAcceptance : Type 0 where
  applied replay : InvitationAcceptance

pub data WorkspaceInvitationDeliveryState : Type 0 where
  not_queued queued delivered failed : WorkspaceInvitationDeliveryState

pub data InvitationDeliveryUpdate : Type 0 where
  recorded ignored : InvitationDeliveryUpdate

pub data WorkspaceInvitationError : Type 0 where
  invalid_snapshot unavailable accepted_by_another_user stale_generation : WorkspaceInvitationError

unfoldable pub failure_from_str :
    Text → Result WorkspaceInvitationDeliveryFailure WorkspaceInvitationError
failure_from_str value =
    if text_eq value (codes "retryable")
    then ok retryable
    else if text_eq value (codes "permanent")
    then ok permanent
    else if text_eq value (codes "exhausted")
    then ok exhausted
    else err invalid_snapshot

unfoldable pub from_snapshot :
    ℤ
    → Option ℤ
    → Option ℤ
    → Option WorkspaceInvitationDeliveryFailure
    → WorkspaceInvitationDeliveryState
from_snapshot generation queued_generation delivered_generation last_delivery_failure =
    if is_some last_delivery_failure
    then failed
    else if int_option_eq delivered_generation (some generation)
    then delivered
    else if int_option_eq queued_generation (some generation)
    then queued
    else not_queued

unfoldable pub delivery_state : WorkspaceInvitation → WorkspaceInvitationDeliveryState
unfolding from_snapshot
delivery_state i =
    from_snapshot i.generation i.queued_generation i.delivered_generation i.last_delivery_failure

unfoldable pub status_at : WorkspaceInvitation → DateTime → WorkspaceInvitationStatus
status_at i now =
    if is_some i.accepted_at
    then accepted
    else if is_some i.revoked_at
    then revoked
    else if leb i.expires_at now
    then expired
    else pending

abbrev pub is_pending : WorkspaceInvitationStatus → Bool
is_pending s = elim s [ pending ↦ true | _ ↦ false ]
