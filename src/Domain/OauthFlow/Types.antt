-- ===== src/Domain/OauthFlow/Types.antt =====
-- The data of src/domain/oauth.rs: one authorization request and its code.
use proofplane.Prelude.{Option, List}
use proofplane.Text.{Text}
use proofplane.Domain.Ids.{Sha256Digest, Uuid, AgentConnectionId, WorkspaceId, DateTime, UserId}
use proofplane.Domain.Permission.Names.{WorkspacePermission}

pub record OauthAuthorizationFlowCode : Type 0 where
  pub code_digest : Sha256Digest
  pub agent_connection_id : AgentConnectionId
  pub workspace_id : WorkspaceId
  pub expires_at : DateTime
  pub consumed_at : Option DateTime
  pub created_at : DateTime

pub record OauthAuthorizationFlow : Type 0 where
  pub id : Uuid
  pub client_id : Text
  pub client_name : Text
  pub redirect_uri : Text
  pub code_challenge : Text
  pub state : Text
  pub resource : Text
  pub scopes : List WorkspacePermission
  pub csrf_digest : Sha256Digest
  pub auth0_subject : Option Text
  pub user_id : Option UserId
  pub expires_at : DateTime
  pub created_at : DateTime
  pub consumed_at : Option DateTime
  pub authorization_code : Option OauthAuthorizationFlowCode

pub data OauthAuthorizationFlowError : Type 0 where
  unavailable invalid_creation invalid_rehydration : OauthAuthorizationFlowError
