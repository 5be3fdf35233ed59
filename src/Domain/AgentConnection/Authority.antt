-- ===== src/Domain/AgentConnection/Authority.antt =====
-- What an agent must have shown to be let in, and that a revocation cannot be undone.
use proofplane.Prelude.{
  ◌≤◌, ◌≡◌, refl, ◌⊎◌, inl, inr, Bool, false, ◌&&◌, List, [], ◌∷◌, arith, ltb, All, ok,
}
use proofplane.Domain.AgentConnection.History.{
  consumes, activates, uses, revokes, step, run, Call, stage, run-stage,
}
use proofplane.Domain.AgentConnection.Operations.{revoke, consume_continuation, use_at}
use proofplane.Domain.AgentConnection.Types.{
  pending, revoked, consumption_authorized, consumption_unavailable, use_unavailable,
  AgentConnection, AgentConnectionRevocation,
}
use proofplane.Domain.Ids.{Sha256Digest, DateTime, digest_eq}

step_revoked : (c : AgentConnection) (x : Call) → c.status ≡ revoked → step c x ≡ c
unfolding step
step_revoked c (consumes continuation nonce at) h = ground arith
step_revoked c (activates at) h = ground arith
step_revoked c (uses at) h = ground arith
step_revoked c (revokes at) h = ground arith

-- No call changes a revoked connection.
pub run_revoked : (c : AgentConnection) (xs : List Call) → c.status ≡ revoked → run c xs ≡ c
unfolding run
run_revoked c [] h = refl
run_revoked c (x ∷ xs) h = rw (step_revoked c x h) (run_revoked c xs h)

-- If revoke answers Ok, then after any further calls use_at is refused, and the connection is still
-- the one that revoke left.
pub revoke-use_at :
    (c d : AgentConnection) (r : AgentConnectionRevocation) (at : DateTime) (xs : List Call)
    (now : DateTime)
    → revoke c at ≡ ok (r, d)
    → use_at (run d xs) now ≡ (use_unavailable, d)
unfolding revoke use_at
revoke-use_at c d r at xs now e =
    let gone : d.status ≡ revoked = ground arith in rw (run_revoked d xs gone) (ground arith)

-- If consume_continuation answers Authorized, then after any further calls consume_continuation is
-- refused for every continuation, nonce and instant, and changes nothing.
pub consume_continuation_once :
    (c d : AgentConnection) (continuation nonce k n : Sha256Digest) (at now : DateTime)
    (xs : List Call)
    → consume_continuation c continuation nonce at ≡ (consumption_authorized, d)
    → consume_continuation (run d xs) k n now ≡ (consumption_unavailable, run d xs)
unfolding consume_continuation
consume_continuation_once c d continuation nonce k n at now xs e =
    let past : 1 ≤ stage (run d xs).status =
      omega (arith, run-stage d xs, (let s : 1 ≤ stage d.status = ground arith in s)) in
    ground arith

-- The call shows the continuation and the nonce of the connection in time.
abbrev pub presents : AgentConnection → Call → Bool
presents c (consumes continuation nonce at) =
    digest_eq c.authorization.continuation_digest continuation
    && digest_eq c.authorization.nonce_digest nonce
    && ltb at c.pending_expires_at
presents c (activates _) = false
presents c (uses _) = false
presents c (revokes _) = false

step_pending :
    (c : AgentConnection) (x : Call)
    → c.status ≡ pending
    → presents c x ≡ false
    → (step c x ≡ c) ⊎ ((step c x).status ≡ revoked)
unfolding step
step_pending c (consumes continuation nonce at) h p = ground arith
step_pending c (activates at) h p = ground arith
step_pending c (uses at) h p = ground arith
step_pending c (revokes at) h p = ground arith

-- If a connection is pending and no call of a history shows both its continuation and its nonce
-- before the pending expiry, then after the history it is pending or revoked, so neither authorized
-- nor active.
pub run_pending :
    (c : AgentConnection) (xs : List Call)
    → c.status ≡ pending
    → All (λ x. presents c x ≡ false) xs
    → ((run c xs).status ≡ pending) ⊎ ((run c xs).status ≡ revoked)
unfolding run
run_pending c [] h p = inl h
run_pending c (x ∷ xs) h p = elim (step_pending c x h p.0) [
  | inl same ↦ rw (run, same) (run_pending c xs h p.1)
  | inr gone ↦ inr (rw (run, run_revoked (step c x) xs gone) gone)
]
