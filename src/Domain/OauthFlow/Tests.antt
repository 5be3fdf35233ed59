-- ===== src/Domain/OauthFlow/Tests.antt =====
-- One flow on concrete data.
use proofplane.Prelude.{◌≡◌, refl, ap, ◌↔◌, true, none, some, List, [], ◌∷◌, is_some, ok, err}
use proofplane.Text.{codes}
use proofplane.Domain.OauthFlow.Codes.{closing-final, request-run, MayExchange, consume_code_iff}
use proofplane.Domain.OauthFlow.History.{attaches, approves, exchanges, Call, run, call}
use proofplane.Domain.OauthFlow.Invariant.{IsAccepted}
use proofplane.Domain.OauthFlow.Operations.{
  FlowRequest, request, rehydrate, consume_code, rehydrate_code,
}
use proofplane.Domain.OauthFlow.Types.{
  unavailable, OauthAuthorizationFlow, OauthAuthorizationFlowCode,
}
use proofplane.Domain.Permission.Names.{read_evidence}

abbrev ask : FlowRequest
ask = record {
  id = 1;
  client_id = codes "agent";
  client_name = codes "Agent";
  redirect_uri = codes "https://agent.example/cb";
  code_challenge = codes "challenge";
  state = codes "s";
  resource = codes "https://proofplane.example/mcp";
  scopes = read_evidence ∷ [];
  csrf_digest = [];
  created_at = 100;
  expires_at = 700;
}

abbrev asked : OauthAuthorizationFlow
asked = record {
  id = 1;
  client_id = codes "agent";
  client_name = codes "Agent";
  redirect_uri = codes "https://agent.example/cb";
  code_challenge = codes "challenge";
  state = codes "s";
  resource = codes "https://proofplane.example/mcp";
  scopes = read_evidence ∷ [];
  csrf_digest = [];
  auth0_subject = none;
  user_id = none;
  expires_at = 700;
  created_at = 100;
  consumed_at = none;
  authorization_code = none;
}

abbrev code : OauthAuthorizationFlowCode
code = record {
  code_digest = 1 ∷ [];
  agent_connection_id = 5;
  workspace_id = 6;
  expires_at = 400;
  consumed_at = none;
  created_at = 300;
}

abbrev approved : OauthAuthorizationFlow
approved = record asked {
  auth0_subject = some (codes "auth0|u");
  user_id = some 9;
  consumed_at = some 300;
  authorization_code = some code;
}

abbrev exchanged : OauthAuthorizationFlow
exchanged = record approved { authorization_code = some (record code { consumed_at = some 350 }) }

abbrev consent : List Call
consent = attaches (codes "auth0|u") 9 200 ∷ approves (1 ∷ []) 5 6 300 400 ∷ []

request_test : request ask ≡ ok asked
unfolding request
request_test = refl

consent_test : run asked consent ≡ approved
unfolding run
consent_test = refl

exchange_test :
    call approved (exchanges (codes "agent") (codes "https://agent.example/cb") 350) ≡ ok exchanged
unfolding call
exchange_test = refl

approved-IsAccepted : IsAccepted approved
unfolding rehydrate rehydrate_code
approved-IsAccepted = (refl, refl)

consume_code_iff_example :
    (consume_code approved (codes "agent") (codes "https://agent.example/cb") 350 ≡ ok exchanged)
    ↔ ((c : OauthAuthorizationFlowCode) × MayExchange approved
          (codes "agent")
          (codes "https://agent.example/cb")
          350
          c
        × (exchanged
            ≡ record approved { authorization_code = some (record c { consumed_at = some 350 }) }))
consume_code_iff_example =
    consume_code_iff approved exchanged (codes "agent") (codes "https://agent.example/cb") 350

closing-final_example :
    ((y : Call) → call exchanged y ≡ err unavailable)
    × ((xs : List Call) → run exchanged xs ≡ exchanged)
closing-final_example =
    closing-final approved exchanged
      (exchanges (codes "agent") (codes "https://agent.example/cb") 350) approved-IsAccepted refl
      exchange_test

code_test : is_some (run asked consent).authorization_code ≡ true
code_test = ap (λ f. is_some f.authorization_code) consent_test

request-run_example :
    (is_some (run asked consent).auth0_subject ≡ true)
    × (is_some (run asked consent).user_id ≡ true)
request-run_example = request-run ask asked consent request_test code_test
