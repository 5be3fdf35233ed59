-- ===== src/Domain/OauthFlow/Operations.antt =====
-- The operations of `OAuthAuthorizationFlow` and of its code.
use proofplane.Prelude.{
  Bool, not, ◌&&◌, ◌||◌, Option, none, some, List, ltb, leb, if◌then◌else◌, is_some, is_none,
  is_some_and, bool_eq, is_empty, Result, ok, err, ◌>>=◌, ◌>>◌, map_err, guard,
}
use proofplane.Text.{Text, text_eq}
use proofplane.Domain.Ids.{Uuid, DateTime, Sha256Digest, UserId, AgentConnectionId, WorkspaceId}
use proofplane.Domain.OauthFlow.Types.{
  unavailable, invalid_creation, invalid_rehydration, OauthAuthorizationFlow,
  OauthAuthorizationFlowCode, OauthAuthorizationFlowError,
}
use proofplane.Domain.Permission.Names.{WorkspacePermission}

-- The arguments of `request`.
pub record FlowRequest : Type 0 where
  pub id : Uuid
  pub client_id : Text
  pub client_name : Text
  pub redirect_uri : Text
  pub code_challenge : Text
  pub state : Text
  pub resource : Text
  pub scopes : List WorkspacePermission
  pub csrf_digest : Sha256Digest
  pub created_at : DateTime
  pub expires_at : DateTime

unfoldable pub request : FlowRequest → Result OauthAuthorizationFlow OauthAuthorizationFlowError
request r =
    if leb r.expires_at r.created_at
      || is_empty r.client_id
      || is_empty r.redirect_uri
      || is_empty r.code_challenge
      || is_empty r.resource
      || is_empty r.scopes
    then err invalid_creation
    else ok (record {
      id = r.id;
      client_id = r.client_id;
      client_name = r.client_name;
      redirect_uri = r.redirect_uri;
      code_challenge = r.code_challenge;
      state = r.state;
      resource = r.resource;
      scopes = r.scopes;
      csrf_digest = r.csrf_digest;
      auth0_subject = none;
      user_id = none;
      expires_at = r.expires_at;
      created_at = r.created_at;
      consumed_at = none;
      authorization_code = none;
    })

-- The instant lies outside `created_at .. expires_at`.
abbrev pub is_outside : Option DateTime → DateTime → DateTime → Bool
is_outside at created_at expires_at = is_some_and at (λ t. ltb t created_at || leb expires_at t)

-- `OAuthAuthorizationFlowCode::rehydrate`, its arguments in a record.
unfoldable pub rehydrate_code :
    OauthAuthorizationFlowCode → Result OauthAuthorizationFlowCode OauthAuthorizationFlowError
rehydrate_code c =
    if leb c.expires_at c.created_at || is_outside c.consumed_at c.created_at c.expires_at
    then err invalid_rehydration
    else ok c

abbrev as_requested : OauthAuthorizationFlow → FlowRequest
as_requested f = record {
  id = f.id;
  client_id = f.client_id;
  client_name = f.client_name;
  redirect_uri = f.redirect_uri;
  code_challenge = f.code_challenge;
  state = f.state;
  resource = f.resource;
  scopes = f.scopes;
  csrf_digest = f.csrf_digest;
  created_at = f.created_at;
  expires_at = f.expires_at;
}

-- `rehydrate`, its arguments in a record: a new request, and then the fields that the lifecycle sets.
unfoldable pub rehydrate :
    OauthAuthorizationFlow → Result OauthAuthorizationFlow OauthAuthorizationFlowError
unfolding request
rehydrate f = do
  flow ← map_err (λ _. invalid_rehydration) (request (as_requested f))
  guard
      (not (
        not (bool_eq (is_some f.auth0_subject) (is_some f.user_id))
        || is_outside f.consumed_at f.created_at f.expires_at
        || (is_some f.authorization_code && is_none f.consumed_at)))
      invalid_rehydration
  ok (record flow {
    auth0_subject = f.auth0_subject;
    user_id = f.user_id;
    consumed_at = f.consumed_at;
    authorization_code = f.authorization_code;
  })

unfoldable pub available_at : OauthAuthorizationFlow → DateTime → Bool
available_at f now = is_none f.consumed_at && leb f.created_at now && ltb now f.expires_at

unfoldable pub attach_subject :
    OauthAuthorizationFlow
    → Text
    → UserId
    → DateTime
    → Result OauthAuthorizationFlow OauthAuthorizationFlowError
unfolding available_at
attach_subject f subject user now =
    if not (available_at f now) || is_some f.auth0_subject || is_empty subject
    then err unavailable
    else ok (record f { auth0_subject = some subject; user_id = some user })

unfoldable pub cancel :
    OauthAuthorizationFlow → DateTime → Result OauthAuthorizationFlow OauthAuthorizationFlowError
unfolding available_at
cancel f now =
    if not (available_at f now) || is_none f.auth0_subject || is_none f.user_id
    then err unavailable
    else ok (record f { consumed_at = some now })

unfoldable pub approve_and_issue_code :
    OauthAuthorizationFlow
    → Sha256Digest
    → AgentConnectionId
    → WorkspaceId
    → (now code_expires_at : DateTime) → Result OauthAuthorizationFlow OauthAuthorizationFlowError
unfolding available_at
approve_and_issue_code f digest connection workspace now code_expires_at =
    if not (available_at f now)
      || is_none f.auth0_subject
      || is_none f.user_id
      || leb code_expires_at now
    then err unavailable
    else ok (record f {
      consumed_at = some now;
      authorization_code = some (record {
        code_digest = digest;
        agent_connection_id = connection;
        workspace_id = workspace;
        expires_at = code_expires_at;
        consumed_at = none;
        created_at = now;
      });
    })

-- The branch of `consume_code` in which there is a code.
unfoldable pub consume_issued :
    OauthAuthorizationFlow
    → OauthAuthorizationFlowCode
    → (client_id redirect_uri : Text) → DateTime
    → Result OauthAuthorizationFlow OauthAuthorizationFlowError
consume_issued f code client_id redirect_uri now =
    if not (text_eq f.client_id client_id)
      || not (text_eq f.redirect_uri redirect_uri)
      || is_some code.consumed_at
      || ltb now code.created_at
      || leb code.expires_at now
    then err unavailable
    else ok (record f { authorization_code = some (record code { consumed_at = some now }) })

unfoldable pub consume_code :
    OauthAuthorizationFlow
    → (client_id redirect_uri : Text) → DateTime
    → Result OauthAuthorizationFlow OauthAuthorizationFlowError
unfolding consume_issued
consume_code f client_id redirect_uri now = elim f.authorization_code [
  | none ↦ err unavailable
  | some code ↦ consume_issued f code client_id redirect_uri now
]
