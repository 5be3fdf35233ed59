-- ===== src/Domain/Invitation/Generations.antt =====
-- Generations: a resend starts a new one, and calls that name an earlier one are refused from then on.
use proofplane.Prelude.{
  ◌≡◌, true, false, some, List, [], ◌∷◌, arith, ℤ, int_eq, int_le, checked_suc, int_eq_iff, ok, err,
}
use proofplane.Domain.Ids.{DateTime}
use proofplane.Domain.Invitation.History.{
  accepts, queues, resends, revokes, succeeds, fails, step, run, Call,
}
use proofplane.Domain.Invitation.Operations.{
  queue_delivery, resend, revoke, ensure_current, record_delivery_success, record_delivery_failure,
}
use proofplane.Domain.Invitation.Types.{
  ignored, unavailable, stale_generation, WorkspaceInvitation, WorkspaceInvitationDeliveryFailure,
}

int_le_trans : (a b c : ℤ) → int_le a b ≡ true → int_le b c ≡ true → int_le a c ≡ true
int_le_trans a b c p q = ground arith

int_le_refl : (a : ℤ) → int_le a a ≡ true
int_le_refl a = ground arith

generation-step :
    (i : WorkspaceInvitation) (c : Call) → int_le i.generation (step i c).generation ≡ true
unfolding step
generation-step i (accepts user at) = ground (arith, int_le_refl i.generation)
generation-step i (queues g at) = ground (arith, int_le_refl i.generation)
generation-step i (resends g at expires) = ground (arith, int_le_refl i.generation)
generation-step i (revokes g at) = ground (arith, int_le_refl i.generation)
generation-step i (succeeds g at) = ground (arith, int_le_refl i.generation)
generation-step i (fails g f at) = ground (arith, int_le_refl i.generation)

pub generation-run :
    (i : WorkspaceInvitation) (cs : List Call) → int_le i.generation (run i cs).generation ≡ true
unfolding run
generation-run i [] = int_le_refl i.generation
generation-run i (c ∷ cs) =
    int_le_trans i.generation (step i c).generation (run (step i c) cs).generation
      (generation-step i c) (generation-run (step i c) cs)

-- Every call that names the generation `g` is refused by `w`, and changes nothing.
pub record Stale (g : ℤ) (w : WorkspaceInvitation) : Type 0 where
  pub no_queue : (at : DateTime) → queue_delivery w g at ≡ err stale_generation
  pub no_resend : (at expires : DateTime) → resend w g at expires ≡ err stale_generation
  pub no_revoke : (at : DateTime) → revoke w g at ≡ err stale_generation
  pub no_link : (expires now : DateTime) → ensure_current w g expires now ≡ err unavailable
  pub no_success : (at : DateTime) → record_delivery_success w g at ≡ (ignored, w)
  pub no_failure :
      (f : WorkspaceInvitationDeliveryFailure) (at : DateTime)
      → record_delivery_failure w g f at ≡ (ignored, w)

other-Stale : (g : ℤ) (w : WorkspaceInvitation) → int_eq g w.generation ≡ false → Stale g w
unfolding queue_delivery resend revoke ensure_current record_delivery_success
    record_delivery_failure
other-Stale g w h = record {
  no_queue = λ at. ground arith;
  no_resend = λ at expires. ground arith;
  no_revoke = λ at. ground arith;
  no_link = λ expires now. ground (arith, int_eq_iff g w.generation, int_eq_iff w.generation g);
  no_success = λ at. ground arith;
  no_failure = λ f at. ground arith;
}

resend-generation :
    (i v : WorkspaceInvitation) (g : ℤ) (at expires : DateTime)
    → resend i g at expires ≡ ok v
    → (g ≡ i.generation) × (checked_suc g ≡ some v.generation)
unfolding resend
resend-generation i v g at expires e = ground (arith, int_eq_iff g i.generation)

below-ne : (g h k : ℤ) → checked_suc g ≡ some h → int_le h k ≡ true → int_eq g k ≡ false
below-ne g h k e l = ground arith

-- If a resend from generation g succeeds, then after any further calls whatever names g is refused:
-- queueing, resending and revoking as stale, the link as unavailable, and delivery reports are
-- ignored without a change.
pub resend-Stale :
    (i v : WorkspaceInvitation) (g : ℤ) (at expires : DateTime) (cs : List Call)
    → resend i g at expires ≡ ok v
    → Stale g (run v cs)
resend-Stale i v g at expires cs e =
    other-Stale g (run v cs)
      (below-ne g v.generation _ (resend-generation i v g at expires e).1 (generation-run v cs))
