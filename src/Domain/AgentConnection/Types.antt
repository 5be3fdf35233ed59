-- ===== src/Domain/AgentConnection/Types.antt =====
-- The data of src/domain/agent_connection.rs.
use proofplane.Prelude.{Bool, true, false, Option, List, if◌then◌else◌, Result, ok, err}
use proofplane.Text.{Text, codes, text_eq}
use proofplane.Domain.Ids.{Uuid, AgentConnectionId, Sha256Digest, UserId, DateTime, WorkspaceId}
use proofplane.Domain.Permission.Names.{WorkspacePermission}

pub data AgentConnectionStatus : Type 0 where
  pending authorized active revoked : AgentConnectionStatus

unfoldable pub as_str : AgentConnectionStatus → Text
as_str pending = codes "pending"
as_str authorized = codes "authorized"
as_str active = codes "active"
as_str revoked = codes "revoked"

unfoldable pub from_str : Text → Result AgentConnectionStatus (Unit {0})
from_str value =
    if text_eq value (codes "pending")
    then ok pending
    else if text_eq value (codes "authorized")
    then ok authorized
    else if text_eq value (codes "active")
    then ok active
    else if text_eq value (codes "revoked")
    then ok revoked
    else err tt

pub record AgentAuthorizationTransaction : Type 0 where
  pub id : Uuid
  pub continuation_digest : Sha256Digest
  pub nonce_digest : Sha256Digest
  pub consumed_at : Option DateTime

pub record AgentConnection : Type 0 where
  pub id : AgentConnectionId
  pub user_id : UserId
  pub workspace_id : WorkspaceId
  pub auth0_subject : Text
  pub auth0_client_id : Text
  pub client_display_name : Text
  pub resource : Text
  pub status : AgentConnectionStatus
  pub permissions : List WorkspacePermission
  pub pending_expires_at : DateTime
  pub activated_at : Option DateTime
  pub last_used_at : Option DateTime
  pub revoked_at : Option DateTime
  pub created_at : DateTime
  pub authorization : AgentAuthorizationTransaction

pub record NewPendingAgentConnection : Type 0 where
  pub id : AgentConnectionId
  pub transaction_id : Uuid
  pub user_id : UserId
  pub workspace_id : WorkspaceId
  pub auth0_subject : Text
  pub auth0_client_id : Text
  pub client_display_name : Text
  pub resource : Text
  pub permissions : List WorkspacePermission
  pub pending_expires_at : DateTime
  pub continuation_digest : Sha256Digest
  pub nonce_digest : Sha256Digest

pub data AgentConnectionConsumption : Type 0 where
  consumption_authorized consumption_unavailable : AgentConnectionConsumption

pub data AgentConnectionActivation : Type 0 where
  activated already_active activation_unavailable : AgentConnectionActivation

pub data AgentConnectionUse : Type 0 where
  used use_unavailable : AgentConnectionUse

pub data AgentConnectionRevocation : Type 0 where
  revoked_now already_revoked : AgentConnectionRevocation

pub data AgentConnectionLifecycleError : Type 0 where
  invalid_request invalid_rehydration invalid_transition : AgentConnectionLifecycleError

-- `==` on statuses.
abbrev pub status_eq : AgentConnectionStatus → AgentConnectionStatus → Bool
status_eq pending s = elim s [ pending ↦ true | _ ↦ false ]
status_eq authorized s = elim s [ authorized ↦ true | _ ↦ false ]
status_eq active s = elim s [ active ↦ true | _ ↦ false ]
status_eq revoked s = elim s [ revoked ↦ true | _ ↦ false ]
