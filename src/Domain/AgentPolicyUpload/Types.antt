-- ===== src/Domain/AgentPolicyUpload/Types.antt =====
-- The data of src/domain/agent_policy_document_upload_grant.rs.
use proofplane.Domain.DeclaredFile.Types.{
  DeclaredUploadFileError, invalid_rehydration, content_type_mismatch,
  declared_content_length_mismatch, received_content_length_mismatch, checksum_mismatch,
  DeclaredUploadFile,
}
use proofplane.Domain.Ids.{
  Uuid, WorkspaceId, DocumentId, PolicyId, DateTime, UserId, AgentConnectionId,
}

abbrev pub AgentPolicyDocumentUploadGrantId : Type 0
AgentPolicyDocumentUploadGrantId = Uuid

-- What the upload token says.
pub record AgentPolicyDocumentUploadAuthority : Type 0 where
  pub upload_id : AgentPolicyDocumentUploadGrantId
  pub workspace_id : WorkspaceId
  pub policy_id : PolicyId
  pub issued_by_user_id : UserId
  pub issued_via_agent_connection_id : AgentConnectionId
  pub expires_at : DateTime

pub data Lifecycle : Type 0 where
  policy_upload_pending : Lifecycle
  policy_upload_completed : DocumentId → DateTime → Lifecycle

pub record AgentPolicyDocumentUploadGrant : Type 0 where
  pub id : AgentPolicyDocumentUploadGrantId
  pub workspace_id : WorkspaceId
  pub policy_id : PolicyId
  pub declaration : DeclaredUploadFile
  pub issued_by_user_id : UserId
  pub issued_via_agent_connection_id : AgentConnectionId
  pub issued_at : DateTime
  pub expires_at : DateTime
  pub lifecycle : Lifecycle

-- The arguments of `issue`.
pub record Issuance : Type 0 where
  pub id : AgentPolicyDocumentUploadGrantId
  pub workspace_id : WorkspaceId
  pub policy_id : PolicyId
  pub declaration : DeclaredUploadFile
  pub issued_by_user_id : UserId
  pub issued_via_agent_connection_id : AgentConnectionId
  pub issued_at : DateTime
  pub expires_at : DateTime

pub data AgentPolicyDocumentUploadGrantError : Type 0 where
  policy_upload_invalid_issuance : AgentPolicyDocumentUploadGrantError
  policy_upload_invalid_rehydration : AgentPolicyDocumentUploadGrantError
  policy_upload_authority_mismatch : AgentPolicyDocumentUploadGrantError
  policy_upload_expired : AgentPolicyDocumentUploadGrantError
  policy_upload_already_completed : AgentPolicyDocumentUploadGrantError
  policy_upload_invalid_completion : AgentPolicyDocumentUploadGrantError
  policy_upload_content_type_mismatch : AgentPolicyDocumentUploadGrantError
  policy_upload_declared_length_mismatch : AgentPolicyDocumentUploadGrantError
  policy_upload_received_length_mismatch : AgentPolicyDocumentUploadGrantError
  policy_upload_checksum_mismatch : AgentPolicyDocumentUploadGrantError

-- `From<DeclaredUploadFileError>`
unfoldable pub from_declared : DeclaredUploadFileError → AgentPolicyDocumentUploadGrantError
from_declared invalid_rehydration = policy_upload_invalid_rehydration
from_declared content_type_mismatch = policy_upload_content_type_mismatch
from_declared declared_content_length_mismatch = policy_upload_declared_length_mismatch
from_declared received_content_length_mismatch = policy_upload_received_length_mismatch
from_declared checksum_mismatch = policy_upload_checksum_mismatch
