-- ===== src/Domain/Auditor/Transaction.antt =====
-- src/domain/auditor_auth_transaction.rs: the sign-in of an auditor, which one callback claims.
use proofplane.Prelude.{
  not, ◌&&◌, ◌||◌, Option, none, some, ltb, leb, if◌then◌else◌, is_some, is_some_and, Result, ok,
  err, ◌>>=◌, ◌>>◌, map_err, guard,
}
use proofplane.Text.{len, Text}
use proofplane.Domain.Auditor.Grant.{AuditorAccessGrantId}
use proofplane.Domain.Ids.{Uuid, DateTime, Sha256Digest}

abbrev pub AuditorAuthTransactionId : Type 0
AuditorAuthTransactionId = Uuid

pub record AuditorAuthTransaction : Type 0 where
  pub id : AuditorAuthTransactionId
  pub grant_id : AuditorAccessGrantId
  pub state_digest : Sha256Digest
  pub nonce_digest : Sha256Digest
  pub pkce_verifier : Text
  pub expires_at : DateTime
  pub consumed_at : Option DateTime
  pub created_at : DateTime
  pub updated_at : DateTime

pub data AuditorAuthTransactionLifecycleError : Type 0 where
  transaction_invalid_creation transaction_invalid_rehydration :
      AuditorAuthTransactionLifecycleError
  transaction_unavailable : AuditorAuthTransactionLifecycleError

-- `start`, its arguments in a record whose `consumed_at` and `updated_at` are not read.
unfoldable pub start :
    AuditorAuthTransaction → Result AuditorAuthTransaction AuditorAuthTransactionLifecycleError
start a =
    if leb a.expires_at a.created_at
      || not (leb 43 (len a.pkce_verifier) && leb (len a.pkce_verifier) 128)
    then err transaction_invalid_creation
    else ok (record {
      id = a.id;
      grant_id = a.grant_id;
      state_digest = a.state_digest;
      nonce_digest = a.nonce_digest;
      pkce_verifier = a.pkce_verifier;
      expires_at = a.expires_at;
      consumed_at = none;
      created_at = a.created_at;
      updated_at = a.created_at;
    })

-- `rehydrate`, its arguments in a record.
unfoldable pub rehydrate :
    AuditorAuthTransaction → Result AuditorAuthTransaction AuditorAuthTransactionLifecycleError
unfolding start
rehydrate a = do
  transaction ← map_err (λ _. transaction_invalid_rehydration) (start a)
  guard
      (not (
        is_some_and a.consumed_at (λ value. ltb value a.created_at || leb a.expires_at value)
        || ltb a.updated_at a.created_at
        || is_some_and a.consumed_at (λ value. ltb a.updated_at value)))
      transaction_invalid_rehydration
  ok (record transaction { consumed_at = a.consumed_at; updated_at = a.updated_at })

unfoldable pub claim :
    AuditorAuthTransaction
    → DateTime
    → Result AuditorAuthTransaction AuditorAuthTransactionLifecycleError
claim t consumed_at =
    if is_some t.consumed_at || ltb consumed_at t.created_at || leb t.expires_at consumed_at
    then err transaction_unavailable
    else ok (record t { consumed_at = some consumed_at; updated_at = consumed_at })
