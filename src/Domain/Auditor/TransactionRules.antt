-- ===== src/Domain/Auditor/TransactionRules.antt =====
-- Attempts to claim a sign-in, one after the other.
use proofplane.Prelude.{
  ℕ, ◌+◌, ◌≤◌, ◌<◌, ◌≡◌, refl, true, false, not, ◌&&◌, ◌||◌, List, [], ◌∷◌, arith, ltb, leb,
  if◌then◌else◌, is_some, is_some_and, Result, ok, err, is_ok,
}
use proofplane.Text.{len}
use proofplane.Domain.Auditor.Transaction.{
  transaction_unavailable, AuditorAuthTransaction, claim, start, rehydrate,
  AuditorAuthTransactionLifecycleError,
}
use proofplane.Domain.Ids.{DateTime}

abbrev pub after_claim :
    AuditorAuthTransaction
    → Result AuditorAuthTransaction AuditorAuthTransactionLifecycleError
    → AuditorAuthTransaction
after_claim t (ok u) = u
after_claim t (err _) = t

unfoldable pub run : AuditorAuthTransaction → List DateTime → AuditorAuthTransaction
unfolding claim
run t [] = t
run t (at ∷ ats) = run (after_claim t (claim t at)) ats

-- How many of the attempts succeed.
unfoldable pub successes : AuditorAuthTransaction → List DateTime → ℕ
unfolding claim
successes t [] = 0
successes t (at ∷ ats) =
    (if is_ok (claim t at) then 1 else 0) + successes (after_claim t (claim t at)) ats

pub record IsValid (t : AuditorAuthTransaction) : Type 0 where
  pub window : t.created_at < t.expires_at
  pub verifier : (leb 43 (len t.pkce_verifier) && leb (len t.pkce_verifier) 128) ≡ true
  pub consumption :
      is_some_and t.consumed_at (λ value. ltb value t.created_at || leb t.expires_at value) ≡ false
  pub update : t.created_at ≤ t.updated_at
  pub claimed : is_some_and t.consumed_at (λ value. ltb t.updated_at value) ≡ false

claim-IsValid :
    (t : AuditorAuthTransaction) (at : DateTime) → IsValid t → IsValid (after_claim t (claim t at))
unfolding claim
claim-IsValid t at h = ground arith

run-IsValid : (t : AuditorAuthTransaction) (ats : List DateTime) → IsValid t → IsValid (run t ats)
unfolding run
run-IsValid t [] h = h
run-IsValid t (at ∷ ats) h = run-IsValid (after_claim t (claim t at)) ats (claim-IsValid t at h)

start-IsValid : (a t : AuditorAuthTransaction) → start a ≡ ok t → IsValid t
unfolding start
start-IsValid a t e = ground arith

start_tests :
    (t : AuditorAuthTransaction)
    → IsValid t
    → (leb t.expires_at t.created_at
        || not (leb 43 (len t.pkce_verifier) && leb (len t.pkce_verifier) 128))
      ≡ false
start_tests t h = ground (arith, h.window, h.verifier)

state_tests :
    (t : AuditorAuthTransaction)
    → IsValid t
    → (is_some_and t.consumed_at (λ value. ltb value t.created_at || leb t.expires_at value)
        || ltb t.updated_at t.created_at
        || is_some_and t.consumed_at (λ value. ltb t.updated_at value))
      ≡ false
state_tests t h = ground (arith, h.consumption, h.update, h.claimed)

IsValid-rehydrate : (t : AuditorAuthTransaction) → IsValid t → rehydrate t ≡ ok t
unfolding rehydrate
IsValid-rehydrate t h = rw (start_tests t h, state_tests t h) refl

claim_claimed :
    (t : AuditorAuthTransaction) (at : DateTime)
    → is_some t.consumed_at ≡ true
    → claim t at ≡ err transaction_unavailable
unfolding claim
claim_claimed t at h = ground arith

successes_claimed :
    (t : AuditorAuthTransaction) (ats : List DateTime)
    → is_some t.consumed_at ≡ true
    → successes t ats ≡ 0
unfolding successes
successes_claimed t [] h = refl
successes_claimed t (at ∷ ats) h =
    let refused : claim t at ≡ err transaction_unavailable = claim_claimed t at h in
    rw refused (omega (arith, successes_claimed t ats h))

one_success :
    (t : AuditorAuthTransaction) (at : DateTime) (ats : List DateTime)
    (r : Result AuditorAuthTransaction AuditorAuthTransactionLifecycleError)
    → claim t at ≡ r
    → successes t ats ≤ 1
    → (if is_ok r then 1 else 0) + successes (after_claim t r) ats ≤ 1
unfolding claim
one_success t at ats (err x) e h = omega arith
one_success t at ats (ok u) e h =
    omega
      (arith, successes_claimed u ats (let c : is_some u.consumed_at ≡ true = ground arith in c))

successes_once : (t : AuditorAuthTransaction) (ats : List DateTime) → successes t ats ≤ 1
unfolding successes
successes_once t [] = omega arith
successes_once t (at ∷ ats) = one_success t at ats (claim t at) refl (successes_once t ats)

-- If start answers a transaction, then of any attempts to claim it at most one succeeds, and
-- rehydrate accepts, as it is, what they leave.
pub start-successes :
    (a t : AuditorAuthTransaction) (ats : List DateTime)
    → start a ≡ ok t
    → (successes t ats ≤ 1) × (rehydrate (run t ats) ≡ ok (run t ats))
start-successes a t ats e =
    (successes_once t ats, IsValid-rehydrate (run t ats) (run-IsValid t ats (start-IsValid a t e)))
