-- ===== src/Domain/AgentConnection/Tests.antt =====
-- One connection on concrete data.
use proofplane.Prelude.{◌≡◌, refl, ◌⊎◌, none, some, List, [], ◌∷◌, arith, ok}
use proofplane.Text.{codes}
use proofplane.Domain.AgentConnection.Authority.{
  revoke-use_at, consume_continuation_once, run_pending,
}
use proofplane.Domain.AgentConnection.History.{
  consumes, activates, uses, Call, run, rehydrate-run_connection,
}
use proofplane.Domain.AgentConnection.Operations.{revoke, consume_continuation, rehydrate, use_at}
use proofplane.Domain.AgentConnection.Types.{
  pending, authorized, revoked, consumption_authorized, consumption_unavailable, use_unavailable,
  revoked_now, AgentConnection,
}
use proofplane.Domain.Permission.Names.{read_evidence}

abbrev new_connection : AgentConnection
new_connection = record {
  id = 1;
  user_id = 2;
  workspace_id = 3;
  auth0_subject = codes "auth0|u";
  auth0_client_id = codes "client";
  client_display_name = codes "Agent";
  resource = codes "https://proofplane.example/mcp";
  status = pending;
  permissions = read_evidence ∷ [];
  pending_expires_at = 500;
  activated_at = none;
  last_used_at = none;
  revoked_at = none;
  created_at = 100;
  authorization = record {
    id = 4;
    continuation_digest = 1 ∷ [];
    nonce_digest = 2 ∷ [];
    consumed_at = none;
  };
}

abbrev revoked_connection : AgentConnection
revoked_connection = record new_connection { status = revoked; revoked_at = some 200 }

abbrev authorized_connection : AgentConnection
authorized_connection = record new_connection {
  status = authorized;
  authorization = record {
    id = 4;
    continuation_digest = 1 ∷ [];
    nonce_digest = 2 ∷ [];
    consumed_at = some 150;
  };
}

revoke_test : revoke new_connection 200 ≡ ok (revoked_now, revoked_connection)
unfolding revoke
revoke_test = refl

consume_test :
    consume_continuation new_connection (1 ∷ []) (2 ∷ []) 150
    ≡ (consumption_authorized, authorized_connection)
unfolding consume_continuation
consume_test = refl

rehydrate_test : rehydrate new_connection ≡ ok new_connection
unfolding rehydrate
rehydrate_test = refl

abbrev tries : List Call
tries = activates 210 ∷ consumes (1 ∷ []) (2 ∷ []) 220 ∷ uses 230 ∷ []

revoke-use_at_example :
    use_at (run revoked_connection tries) 300 ≡ (use_unavailable, revoked_connection)
revoke-use_at_example =
    revoke-use_at new_connection revoked_connection revoked_now 200 tries 300 revoke_test

consume_continuation_once_example :
    consume_continuation (run authorized_connection tries) (1 ∷ []) (2 ∷ []) 300
    ≡ (consumption_unavailable, run authorized_connection tries)
consume_continuation_once_example =
    consume_continuation_once new_connection authorized_connection (1 ∷ []) (2 ∷ []) (1 ∷ [])
      (2 ∷ []) 150 300 tries consume_test

abbrev guesses : List Call
guesses = consumes (1 ∷ []) (3 ∷ []) 200 ∷ activates 210 ∷ uses 220 ∷ []

run_pending_example :
    ((run new_connection guesses).status ≡ pending)
    ⊎ ((run new_connection guesses).status ≡ revoked)
run_pending_example = run_pending new_connection guesses refl (refl, (refl, (refl, tt)))

rehydrate-run_connection_example :
    rehydrate (run new_connection tries) ≡ ok (run new_connection tries)
rehydrate-run_connection_example =
    rehydrate-run_connection new_connection tries rehydrate_test
      (omega arith, (omega arith, (omega arith, tt)))
