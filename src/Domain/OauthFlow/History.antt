-- ===== src/Domain/OauthFlow/History.antt =====
-- Histories of one flow: its snapshot stays acceptable, its code is used once, and only after consent.
use proofplane.Prelude.{
  ◌≡◌, refl, subst, inl, inr, some, List, [], ◌∷◌, arith, Option-cases, Result, ok, err,
}
use proofplane.Text.{Text}
use proofplane.Domain.Ids.{UserId, DateTime, Sha256Digest, AgentConnectionId, WorkspaceId}
use proofplane.Domain.OauthFlow.Invariant.{IsValid, IsAccepted, IsAccepted-IsValid, CodeIsValid}
use proofplane.Domain.OauthFlow.Operations.{
  attach_subject, consume_issued, cancel, approve_and_issue_code, consume_code,
}
use proofplane.Domain.OauthFlow.Types.{
  OauthAuthorizationFlow, OauthAuthorizationFlowError, OauthAuthorizationFlowCode,
}

pub data Call : Type 0 where
  attaches : Text → UserId → DateTime → Call
  cancels : DateTime → Call
  approves :
      Sha256Digest → AgentConnectionId → WorkspaceId → (now code_expires_at : DateTime) → Call
  exchanges : (client_id redirect_uri : Text) → DateTime → Call

-- A call that is refused leaves the flow as it was.
abbrev pub after :
    OauthAuthorizationFlow
    → Result OauthAuthorizationFlow OauthAuthorizationFlowError
    → OauthAuthorizationFlow
after f (ok g) = g
after f (err e) = f

unfoldable pub call :
    OauthAuthorizationFlow → Call → Result OauthAuthorizationFlow OauthAuthorizationFlowError
unfolding attach_subject cancel approve_and_issue_code consume_code
call f (attaches subject user now) = attach_subject f subject user now
call f (cancels now) = cancel f now
call f (approves digest connection workspace now expires) =
    approve_and_issue_code f digest connection workspace now expires
call f (exchanges client_id redirect_uri now) = consume_code f client_id redirect_uri now

unfoldable pub run : OauthAuthorizationFlow → List Call → OauthAuthorizationFlow
unfolding call
run f [] = f
run f (x ∷ xs) = run (after f (call f x)) xs

consume_issued-IsValid :
    (f g : OauthAuthorizationFlow) (c : OauthAuthorizationFlowCode) (client_id redirect_uri : Text)
    (now : DateTime)
    → IsValid f
    → f.authorization_code ≡ some c
    → consume_issued f c client_id redirect_uri now ≡ ok g
    → IsValid g
unfolding consume_issued
consume_issued-IsValid f g c client_id redirect_uri now h q e =
    let issued = subst CodeIsValid q h.code in ground arith

call-IsValid : (f g : OauthAuthorizationFlow) (x : Call) → IsValid f → call f x ≡ ok g → IsValid g
unfolding call
call-IsValid f g (attaches subject user now) h e = ground arith
call-IsValid f g (cancels now) h e = ground arith
call-IsValid f g (approves digest connection workspace now expires) h e = ground arith
call-IsValid f g (exchanges client_id redirect_uri now) h e =
    elim (Option-cases f.authorization_code) [
      | inl missing ↦ ground arith
      | inr (c, issued) ↦
          consume_issued-IsValid f g c client_id redirect_uri now h issued (rw issued at e)
    ]

after-cases {ℓ} :
    (P : OauthAuthorizationFlow → Type ℓ) (f : OauthAuthorizationFlow)
    (r : Result OauthAuthorizationFlow OauthAuthorizationFlowError)
    → P f
    → ((g : OauthAuthorizationFlow) → r ≡ ok g → P g)
    → P (after f r)
after-cases P f (ok g) h k = k g refl
after-cases P f (err e) h k = h

-- What every call keeps, every history keeps.
pub run-keeps {ℓ} :
    (P : OauthAuthorizationFlow → Type ℓ)
    → ((f g : OauthAuthorizationFlow) (x : Call) → P f → call f x ≡ ok g → P g)
    → (f : OauthAuthorizationFlow) (xs : List Call) → P f
    → P (run f xs)
unfolding run
run-keeps P k f [] h = h
run-keeps P k f (x ∷ xs) h =
    run-keeps P k (after f (call f x)) xs (after-cases P f (call f x) h λ g e. k f g x h e)

-- If the two rehydrate functions accept a flow and its code as they are, they accept, as it is,
-- what any sequence of calls leaves of them.
pub run-IsAccepted :
    (f : OauthAuthorizationFlow) (xs : List Call) → IsAccepted f → IsAccepted (run f xs)
run-IsAccepted f xs h =
    (IsAccepted-IsValid _).1 (run-keeps IsValid call-IsValid f xs ((IsAccepted-IsValid f).0 h))
