-- ===== src/Domain/Auditor/Tests.antt =====
-- One session on concrete data.
use proofplane.Domain.Auditor.Grant
use proofplane.Domain.Auditor.Transaction
use proofplane.Domain.Auditor.TransactionRules
use proofplane.Prelude.{◌≤◌, ◌≡◌, refl, none, some, [], ◌∷◌, arith, ok, err}
use proofplane.Text.{codes}
use proofplane.Domain.Auditor.Grant.{grant_revoked, grant_unavailable, AuditorAccessGrant}
use proofplane.Domain.Auditor.Session.{
  session_revoked, session_invalid_rehydration, AuditorSession, create, rehydrate, revoke,
}
use proofplane.Domain.Auditor.SessionRules.{
  touches, revokes, run, create-rehydrate, revoke-rehydrate_early,
}
use proofplane.Domain.Auditor.Transaction.{AuditorAuthTransaction, start}
use proofplane.Domain.Auditor.TransactionRules.{successes, start-successes}

abbrev opened : AuditorSession
opened = record {
  id = 1;
  grant_id = 2;
  workspace_id = 3;
  auditor_email = codes "auditor@example.com";
  auth0_subject = codes "auth0|a";
  expires_at = 900;
  period = record { start = 10; end = 20 };
  revoked_at = none;
  last_used_at = 100;
  created_at = 100;
  updated_at = 100;
  session_digest = [];
}

abbrev used : AuditorSession
used = record opened { last_used_at = 300; updated_at = 300 }

create_test : create opened ≡ ok opened
unfolding create
create_test = refl

create-rehydrate_example :
    rehydrate (run opened (touches 300 ∷ revokes 400 ∷ []))
    ≡ ok (run opened (touches 300 ∷ revokes 400 ∷ []))
create-rehydrate_example =
    create-rehydrate opened opened (touches 300 ∷ revokes 400 ∷ []) create_test
      (omega arith, (omega arith, tt))

revoke-rehydrate_early_example :
    (t : AuditorSession) × (revoke used 200 ≡ ok (session_revoked, t))
    × (rehydrate t ≡ err session_invalid_rehydration)
revoke-rehydrate_early_example = revoke-rehydrate_early used 200 refl (omega arith) (omega arith)

abbrev sign_in : AuditorAuthTransaction
sign_in = record {
  id = 1;
  grant_id = 2;
  state_digest = [];
  nonce_digest = [];
  pkce_verifier = codes "0123456789012345678901234567890123456789abc";
  expires_at = 500;
  consumed_at = none;
  created_at = 100;
  updated_at = 100;
}

start_test : start sign_in ≡ ok sign_in
unfolding start
start_test = refl

claims_test : successes sign_in (50 ∷ 200 ∷ 300 ∷ []) ≡ 1
unfolding successes
claims_test = refl

start-successes_example :
    (successes sign_in (50 ∷ 200 ∷ 300 ∷ []) ≤ 1)
    × (Transaction.rehydrate (TransactionRules.run sign_in (50 ∷ 200 ∷ 300 ∷ []))
        ≡ ok (TransactionRules.run sign_in (50 ∷ 200 ∷ 300 ∷ [])))
start-successes_example = start-successes sign_in sign_in (50 ∷ 200 ∷ 300 ∷ []) start_test

abbrev access : AuditorAccessGrant
access = record {
  id = 2;
  workspace_id = 3;
  auditor_email = codes "auditor@example.com";
  created_by_user_id = 4;
  created_via_agent_connection_id = 5;
  created_at = 100;
  expires_at = 900;
  period = record { start = 10; end = 20 };
  revoked_at = none;
  secret_digest = [];
}

abbrev withdrawn : AuditorAccessGrant
withdrawn = record access { revoked_at = some 200 }

withdraw_test : Grant.revoke access 200 ≡ ok (grant_revoked, withdrawn)
unfolding Grant.revoke
withdraw_test = refl
