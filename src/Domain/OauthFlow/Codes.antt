-- ===== src/Domain/OauthFlow/Codes.antt =====
-- The code of a flow: who may exchange it, that it is used once, and that a cancelled flow has none.
use proofplane.Prelude.{
  ◌≤◌, ◌<◌, ◌≡◌, refl, ◌↔◌, inl, inr, Bool, true, false, ◌&&◌, none, some, List, [], ◌∷◌, arith,
  is_some, is_none_or, Option-cases, ok, err,
}
use proofplane.Text.{Text, text_eq_iff}
use proofplane.Domain.Ids.{DateTime}
use proofplane.Domain.OauthFlow.History.{
  attaches, cancels, approves, exchanges, call, run, Call, run-keeps,
}
use proofplane.Domain.OauthFlow.Invariant.{IsValid, IsAccepted, IsAccepted-IsValid}
use proofplane.Domain.OauthFlow.Operations.{consume_code, request, FlowRequest, consume_issued}
use proofplane.Domain.OauthFlow.Types.{
  unavailable, OauthAuthorizationFlow, OauthAuthorizationFlowCode,
}

-- Nothing is left to be done with the flow: it was consumed, and its code, if there is one, too.
abbrev pub is_closed : OauthAuthorizationFlow → Bool
is_closed f = is_some f.consumed_at && is_none_or f.authorization_code (λ c. is_some c.consumed_at)

call_closed :
    (f : OauthAuthorizationFlow) (x : Call) → is_closed f ≡ true → call f x ≡ err unavailable
unfolding call
call_closed f (attaches subject user now) h = ground arith
call_closed f (cancels now) h = ground arith
call_closed f (approves digest connection workspace now expires) h = ground arith
call_closed f (exchanges client_id redirect_uri now) h = ground arith

run_closed : (f : OauthAuthorizationFlow) (xs : List Call) → is_closed f ≡ true → run f xs ≡ f
unfolding run
run_closed f [] h = refl
run_closed f (x ∷ xs) h = rw (call_closed f x h) (run_closed f xs h)

-- The calls that end a flow.
abbrev pub is_closing : Call → Bool
is_closing (attaches _ _ _) = false
is_closing (cancels _) = true
is_closing (approves _ _ _ _ _) = false
is_closing (exchanges _ _ _) = true

closing_closes :
    (f g : OauthAuthorizationFlow) (x : Call)
    → IsValid f
    → is_closing x ≡ true
    → call f x ≡ ok g
    → is_closed g ≡ true
unfolding call
closing_closes f g (attaches subject user now) h c e = cc
closing_closes f g (cancels now) h c e = ground (arith, h.code_after_consent)
closing_closes f g (approves digest connection workspace now expires) h c e = cc
closing_closes f g (exchanges client_id redirect_uri now) h c e =
    ground (arith, h.code_after_consent)

-- Let the store accept the snapshot of a flow, and let a cancellation or an exchange of the code
-- succeed on it: then every further call on the resulting flow answers Unavailable, and no sequence
-- of calls changes it.
pub closing-final :
    (f g : OauthAuthorizationFlow) (x : Call)
    → IsAccepted f
    → is_closing x ≡ true
    → call f x ≡ ok g
    → ((y : Call) → call g y ≡ err unavailable) × ((xs : List Call) → run g xs ≡ g)
closing-final f g x h c e =
    let closed = closing_closes f g x ((IsAccepted-IsValid f).0 h) c e in
    (λ y. call_closed g y closed, λ xs. run_closed g xs closed)

-- What an exchange asks of the code.
abbrev pub MayExchange :
    OauthAuthorizationFlow → Text → Text → DateTime → OauthAuthorizationFlowCode → Type 0
MayExchange f client_id redirect_uri now c =
    (f.authorization_code ≡ some c)
    × (f.client_id ≡ client_id)
    × (f.redirect_uri ≡ redirect_uri)
    × (c.consumed_at ≡ none)
    × (c.created_at ≤ now)
    × (now < c.expires_at)

consume_issued_ok :
    (f g : OauthAuthorizationFlow) (c : OauthAuthorizationFlowCode) (client_id redirect_uri : Text)
    (now : DateTime)
    → f.authorization_code ≡ some c
    → consume_issued f c client_id redirect_uri now ≡ ok g
    → MayExchange f client_id redirect_uri now c
      × (g ≡ record f { authorization_code = some (record c { consumed_at = some now }) })
unfolding consume_issued
consume_issued_ok f g c client_id redirect_uri now q e =
    ground (arith, text_eq_iff f.client_id client_id, text_eq_iff f.redirect_uri redirect_uri)

-- consume_code succeeds exactly when the flow has a code, the client id and the redirect address
-- are those of the flow, the code has not been consumed, and the instant is from the code's
-- creation on and before its expiry; then it sets the code's consumed_at and nothing else.
pub consume_code_iff :
    (f g : OauthAuthorizationFlow) (client_id redirect_uri : Text) (now : DateTime)
    → (consume_code f client_id redirect_uri now ≡ ok g) ↔ (
        (c : OauthAuthorizationFlowCode) × MayExchange f client_id redirect_uri now c
        × (g ≡ record f { authorization_code = some (record c { consumed_at = some now }) }))
unfolding consume_code
consume_code_iff f g client_id redirect_uri now = (
  λ e. elim (Option-cases f.authorization_code) [
    | inl missing ↦ ground arith
    | inr (c, issued) ↦
        let (m, q) = consume_issued_ok f g c client_id redirect_uri now issued (rw issued at e) in
        (c, m, q)
  ],
  λ (c, m, q).
      ground (arith, text_eq_iff f.client_id client_id, text_eq_iff f.redirect_uri redirect_uri),
)

-- A code stands only in a flow whose user is known.
abbrev pub Consented : OauthAuthorizationFlow → Type 0
Consented f =
    is_some f.authorization_code ≡ true
    → (is_some f.auth0_subject ≡ true) × (is_some f.user_id ≡ true)

call-Consented :
    (f g : OauthAuthorizationFlow) (x : Call) → Consented f → call f x ≡ ok g → Consented g
unfolding call
call-Consented f g (attaches subject user now) h e = λ c. ground (arith, h)
call-Consented f g (cancels now) h e = λ c. ground (arith, h)
call-Consented f g (approves digest connection workspace now expires) h e = λ c. ground arith
call-Consented f g (exchanges client_id redirect_uri now) h e = λ c. ground (arith, h)

request-Consented :
    (r : FlowRequest) (f : OauthAuthorizationFlow) (xs : List Call)
    → request r ≡ ok f
    → Consented (run f xs)
unfolding request
request-Consented r f xs e = run-keeps Consented call-Consented f xs (λ c. ground arith)

-- If request answers a flow and, after any calls on it, the flow has an authorization code, then it
-- has a subject and a user.
pub request-run :
    (r : FlowRequest) (f : OauthAuthorizationFlow) (xs : List Call)
    → request r ≡ ok f
    → is_some (run f xs).authorization_code ≡ true
    → (is_some (run f xs).auth0_subject ≡ true) × (is_some (run f xs).user_id ≡ true)
request-run r f xs e c = request-Consented r f xs e c
