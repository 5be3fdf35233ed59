-- ===== src/Domain/Invitation/Invariant.antt =====
-- The snapshots that `rehydrate` accepts, and that every operation stays among them.
use proofplane.Prelude.{
  ◌≤◌, ◌<◌, ◌≡◌, ◌↔◌, true, false, arith, is_empty, ℤ, pos, negsuc, int_le, is_positive, int_eq_iff,
  ok,
}
use proofplane.Text.{trim}
use proofplane.Domain.Ids.{UserId, DateTime}
use proofplane.Domain.Invitation.Operations.{
  rehydrate, accept, queue_delivery, revoke, record_delivery_success, record_delivery_failure,
  resend, delivery_valid, terminal_valid,
}
use proofplane.Domain.Invitation.Types.{
  WorkspaceInvitation, WorkspaceInvitationDeliveryFailure, InvitationAcceptance,
}
use proofplane.Domain.Workspace.Types.{admin}

pub record IsValid (i : WorkspaceInvitation) : Type 0 where
  pub for_admin : i.role ≡ admin
  pub counted : is_positive i.generation ≡ true
  pub addressed : is_empty (trim i.invited_email) ≡ false
  pub window : i.created_at < i.expires_at
  pub terminal : terminal_valid i.accepted_at i.revoked_at i.accepting_user_id ≡ true
  pub delivery : delivery_valid i ≡ true

-- A snapshot is accepted exactly if it is valid, and is then taken over unchanged.
pub rehydrate-IsValid : (i v : WorkspaceInvitation) → (rehydrate i ≡ ok v) ↔ ((v ≡ i) × IsValid i)
unfolding rehydrate
rehydrate-IsValid i v = (λ e. (ground arith, ground arith), λ h. ground (arith, h.1))

int_le_refl : (a : ℤ) → int_le a a ≡ true
int_le_refl (pos a) = ground arith
int_le_refl (negsuc a) = ground arith

pub accept-IsValid :
    (i v : WorkspaceInvitation) (user : UserId) (at : DateTime) (r : InvitationAcceptance)
    → IsValid i
    → accept i user at ≡ ok (r, v)
    → IsValid v
unfolding accept delivery_valid
accept-IsValid i v user at r h e = ground arith

pub queue_delivery-IsValid :
    (i v : WorkspaceInvitation) (g : ℤ) (at : DateTime)
    → IsValid i
    → queue_delivery i g at ≡ ok v
    → IsValid v
unfolding queue_delivery delivery_valid
queue_delivery-IsValid i v g at h e =
    ground (arith, int_le_refl i.generation, int_eq_iff g i.generation)

pub revoke-IsValid :
    (i v : WorkspaceInvitation) (g : ℤ) (at : DateTime)
    → IsValid i
    → revoke i g at ≡ ok v
    → IsValid v
unfolding revoke delivery_valid
revoke-IsValid i v g at h e = ground arith

pub record_delivery_success-IsValid :
    (i : WorkspaceInvitation) (g : ℤ) (at : DateTime)
    → IsValid i
    → IsValid (record_delivery_success i g at).1
unfolding record_delivery_success delivery_valid
record_delivery_success-IsValid i g at h =
    ground (arith, int_le_refl i.generation, int_eq_iff g i.generation)

pub record_delivery_failure-IsValid :
    (i : WorkspaceInvitation) (g : ℤ) (f : WorkspaceInvitationDeliveryFailure) (at : DateTime)
    → IsValid i
    → IsValid (record_delivery_failure i g f at).1
unfolding record_delivery_failure delivery_valid
record_delivery_failure-IsValid i g f at h = ground arith

-- A later window needs a clock that has not gone back before the creation.
pub resend-IsValid :
    (i v : WorkspaceInvitation) (g : ℤ) (at expires : DateTime)
    → i.created_at ≤ at
    → IsValid i
    → resend i g at expires ≡ ok v
    → IsValid v
unfolding resend delivery_valid
resend-IsValid i v g at expires c h e = ground arith
