-- ===== src/Domain/AgentConnection/History.antt =====
-- Histories of one connection: the order of its statuses, the one use of its continuation, and that
-- its snapshot stays acceptable.
use proofplane.Prelude.{ℕ, ◌+◌, ◌≤◌, ◌≡◌, refl, ◌⊎◌, List, [], ◌∷◌, arith, All, Result, ok, err}
use proofplane.Domain.AgentConnection.Invariant.{IsValid, rehydrate-IsValid}
use proofplane.Domain.AgentConnection.Operations.{
  consume_continuation, activate, use_at, revoke, rehydrate,
}
use proofplane.Domain.AgentConnection.Types.{
  pending, authorized, active, revoked, AgentConnection, AgentConnectionStatus,
  AgentConnectionRevocation, AgentConnectionLifecycleError,
}
use proofplane.Domain.Ids.{Sha256Digest, DateTime}

pub data Call : Type 0 where
  consumes : (continuation nonce : Sha256Digest) → DateTime → Call
  activates uses revokes : DateTime → Call

abbrev pub time : Call → DateTime
time (consumes _ _ at) = at
time (activates at) = at
time (uses at) = at
time (revokes at) = at

abbrev pub after_revoke :
    AgentConnection
    → Result (AgentConnectionRevocation × AgentConnection) AgentConnectionLifecycleError
    → AgentConnection
after_revoke c (ok (_, d)) = d
after_revoke c (err e) = c

unfoldable pub step : AgentConnection → Call → AgentConnection
unfolding consume_continuation activate use_at revoke
step c (consumes continuation nonce at) = (consume_continuation c continuation nonce at).1
step c (activates at) = (activate c at).1
step c (uses at) = (use_at c at).1
step c (revokes at) = after_revoke c (revoke c at)

unfoldable pub run : AgentConnection → List Call → AgentConnection
unfolding step
run c [] = c
run c (x ∷ xs) = run (step c x) xs

-- How far a connection has come.
abbrev pub stage : AgentConnectionStatus → ℕ
stage pending = 0
stage authorized = 1
stage active = 2
stage revoked = 3

-- One call moves the status by one place, or to `revoked`, or not at all.
step-stage :
    (c : AgentConnection) (x : Call)
    → ((step c x).status ≡ c.status)
      ⊎ (stage (step c x).status ≡ stage c.status + 1)
      ⊎ ((step c x).status ≡ revoked)
unfolding step
step-stage c (consumes continuation nonce at) = ground arith
step-stage c (activates at) = ground arith
step-stage c (uses at) = ground arith
step-stage c (revokes at) = ground arith

pub run-stage : (c : AgentConnection) (xs : List Call) → stage c.status ≤ stage (run c xs).status
unfolding run
run-stage c [] = omega arith
run-stage c (x ∷ xs) = ground (arith, step-stage c x, run-stage (step c x) xs)

created_at-step : (c : AgentConnection) (x : Call) → (step c x).created_at ≡ c.created_at
unfolding step
created_at-step c (consumes continuation nonce at) = ground arith
created_at-step c (activates at) = ground arith
created_at-step c (uses at) = ground arith
created_at-step c (revokes at) = ground arith

step-IsValid :
    (c : AgentConnection) (x : Call) → c.created_at ≤ time x → IsValid c → IsValid (step c x)
unfolding step
step-IsValid c (consumes continuation nonce at) t h = ground arith
step-IsValid c (activates at) t h = ground arith
step-IsValid c (uses at) t h = ground arith
step-IsValid c (revokes at) t h = ground arith

pub run-IsValid :
    (c : AgentConnection) (xs : List Call)
    → All (λ x. c.created_at ≤ time x) xs
    → IsValid c
    → IsValid (run c xs)
unfolding run
run-IsValid c [] t h = h
run-IsValid c (x ∷ xs) t h =
    run-IsValid (step c x) xs (rw (created_at-step c x) t.1) (step-IsValid c x t.0 h)

-- If rehydrate accepts a connection as it is and no call of a history is at an instant before its
-- creation, rehydrate accepts what the history leaves, as it is.
pub rehydrate-run_connection :
    (c : AgentConnection) (xs : List Call)
    → rehydrate c ≡ ok c
    → All (λ x. c.created_at ≤ time x) xs
    → rehydrate (run c xs) ≡ ok (run c xs)
rehydrate-run_connection c xs h t =
    (rehydrate-IsValid _ _).1 (refl, run-IsValid c xs t ((rehydrate-IsValid c c).0 h).1)
