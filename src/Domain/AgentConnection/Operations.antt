-- ===== src/Domain/AgentConnection/Operations.antt =====
-- The operations of `AgentConnection`.
use proofplane.Prelude.{
  Bool, not, ◌&&◌, ◌||◌, Option, none, some, ltb, leb, if◌then◌else◌, is_some, is_none, is_some_and,
  is_empty, Result, ok, err, ◌>>=◌, ◌>>◌, map_err, guard,
}
use proofplane.Text.{trim}
use proofplane.Domain.AgentConnection.Types.{
  pending, authorized, active, revoked, consumption_authorized, consumption_unavailable, activated,
  already_active, activation_unavailable, used, use_unavailable, revoked_now, already_revoked,
  invalid_request, invalid_rehydration, invalid_transition, AgentConnectionStatus, AgentConnection,
  AgentAuthorizationTransaction, NewPendingAgentConnection, AgentConnectionLifecycleError,
  AgentConnectionActivation, AgentConnectionUse, AgentConnectionRevocation,
  AgentConnectionConsumption, status_eq,
}
use proofplane.Domain.Ids.{DateTime, Sha256Digest, digest_eq}

-- `request`, its arguments but the instant in the record `NewPendingAgentConnection`.
unfoldable pub request :
    NewPendingAgentConnection → DateTime → Result AgentConnection AgentConnectionLifecycleError
unfolding trim
request new created_at =
    if leb new.pending_expires_at created_at
      || is_empty new.permissions
      || is_empty (trim new.auth0_subject)
      || is_empty (trim new.auth0_client_id)
      || is_empty (trim new.client_display_name)
      || is_empty (trim new.resource)
    then err invalid_request
    else ok (record {
      id = new.id;
      user_id = new.user_id;
      workspace_id = new.workspace_id;
      auth0_subject = new.auth0_subject;
      auth0_client_id = new.auth0_client_id;
      client_display_name = new.client_display_name;
      resource = new.resource;
      status = pending;
      permissions = new.permissions;
      pending_expires_at = new.pending_expires_at;
      activated_at = none;
      last_used_at = none;
      revoked_at = none;
      created_at = created_at;
      authorization = record {
        id = new.transaction_id;
        continuation_digest = new.continuation_digest;
        nonce_digest = new.nonce_digest;
        consumed_at = none;
      };
    })

-- The timestamps that each status asks for.
abbrev pub status_valid :
    AgentConnectionStatus → Option DateTime → Option DateTime → Option DateTime → Bool
status_valid pending activated_at revoked_at consumed_at =
    is_none activated_at && is_none revoked_at && is_none consumed_at
status_valid authorized activated_at revoked_at consumed_at =
    is_none activated_at && is_none revoked_at && is_some consumed_at
status_valid active activated_at revoked_at consumed_at =
    is_some activated_at && is_none revoked_at && is_some consumed_at
status_valid revoked activated_at revoked_at consumed_at = is_some revoked_at

-- A timestamp from before the creation.
abbrev pub predates : Option DateTime → DateTime → Bool
predates at created_at = is_some_and at (λ t. ltb t created_at)

-- The arguments that `rehydrate` passes on to `request`.
abbrev as_requested : AgentConnection → NewPendingAgentConnection
as_requested c = record {
  id = c.id;
  transaction_id = c.authorization.id;
  user_id = c.user_id;
  workspace_id = c.workspace_id;
  auth0_subject = c.auth0_subject;
  auth0_client_id = c.auth0_client_id;
  client_display_name = c.client_display_name;
  resource = c.resource;
  permissions = c.permissions;
  pending_expires_at = c.pending_expires_at;
  continuation_digest = c.authorization.continuation_digest;
  nonce_digest = c.authorization.nonce_digest;
}

-- `rehydrate`, its arguments in a record. It makes a pending connection and then sets the fields that
-- the lifecycle changes.
unfoldable pub rehydrate : AgentConnection → Result AgentConnection AgentConnectionLifecycleError
unfolding request
rehydrate c = do
  connection ← map_err (λ _. invalid_rehydration) (request (as_requested c) c.created_at)
  guard
      (status_valid c.status c.activated_at c.revoked_at c.authorization.consumed_at
        && not (predates c.activated_at c.created_at)
        && not (predates c.last_used_at c.created_at)
        && not (predates c.revoked_at c.created_at)
        && not (predates c.authorization.consumed_at c.created_at))
      invalid_rehydration
  let authorization : AgentAuthorizationTransaction = connection.authorization
  ok (record connection {
    status = c.status;
    activated_at = c.activated_at;
    last_used_at = c.last_used_at;
    revoked_at = c.revoked_at;
    authorization = record authorization { consumed_at = c.authorization.consumed_at };
  })

abbrev consume_at : AgentAuthorizationTransaction → DateTime → AgentAuthorizationTransaction
consume_at a now = record a { consumed_at = some now }

unfoldable pub consume_continuation :
    AgentConnection
    → (continuation nonce : Sha256Digest) → DateTime
    → AgentConnectionConsumption × AgentConnection
consume_continuation c continuation nonce now =
    if not (status_eq c.status pending)
      || leb c.pending_expires_at now
      || not (digest_eq c.authorization.continuation_digest continuation)
      || not (digest_eq c.authorization.nonce_digest nonce)
    then (consumption_unavailable, c)
    else (
      consumption_authorized,
      record c { status = authorized; authorization = consume_at c.authorization now },
    )

activate_from :
    AgentConnectionStatus → AgentConnection → DateTime → AgentConnectionActivation × AgentConnection
activate_from active c now = (already_active, c)
activate_from authorized c now =
    if ltb now c.pending_expires_at
    then (activated, record c { status = active; activated_at = some now })
    else (activation_unavailable, c)
activate_from _ c now = (activation_unavailable, c)

unfoldable pub activate : AgentConnection → DateTime → AgentConnectionActivation × AgentConnection
unfolding activate_from
activate c now = activate_from c.status c now

unfoldable pub use_at : AgentConnection → DateTime → AgentConnectionUse × AgentConnection
use_at c now =
    if not (status_eq c.status active)
    then (use_unavailable, c)
    else (used, record c { last_used_at = some now })

unfoldable pub revoke :
    AgentConnection
    → DateTime
    → Result (AgentConnectionRevocation × AgentConnection) AgentConnectionLifecycleError
revoke c now =
    if status_eq c.status revoked
    then ok (already_revoked, c)
    else if ltb now c.created_at
    then err invalid_transition
    else ok (revoked_now, record c { status = revoked; revoked_at = some now })
