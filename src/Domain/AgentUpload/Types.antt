-- ===== src/Domain/AgentUpload/Types.antt =====
-- The data of src/domain/agent_evidence_upload_grant.rs.
use proofplane.Domain.DeclaredFile.Types.{
  DeclaredUploadFileError, invalid_rehydration, content_type_mismatch,
  declared_content_length_mismatch, received_content_length_mismatch, checksum_mismatch,
  DeclaredUploadFile,
}
use proofplane.Domain.Ids.{
  Uuid, WorkspaceId, DocumentId, EvidenceSubmissionId, EvidenceId, DateTime, UserId,
  AgentConnectionId,
}
use proofplane.Domain.Submission.{CoverageWindow}

abbrev pub AgentEvidenceUploadGrantId : Type 0
AgentEvidenceUploadGrantId = Uuid

-- What the upload token says.
pub record AgentEvidenceUploadAuthority : Type 0 where
  pub upload_id : AgentEvidenceUploadGrantId
  pub workspace_id : WorkspaceId
  pub evidence_id : EvidenceId
  pub submission_id : EvidenceSubmissionId
  pub issued_by_user_id : UserId
  pub issued_via_agent_connection_id : AgentConnectionId
  pub expires_at : DateTime

pub data AgentEvidenceUploadGrantLifecycle : Type 0 where
  upload_pending : AgentEvidenceUploadGrantLifecycle
  upload_completed : DocumentId → DateTime → AgentEvidenceUploadGrantLifecycle

pub record AgentEvidenceUploadGrant : Type 0 where
  pub id : AgentEvidenceUploadGrantId
  pub submission_id : EvidenceSubmissionId
  pub workspace_id : WorkspaceId
  pub evidence_id : EvidenceId
  pub coverage : CoverageWindow
  pub declaration : DeclaredUploadFile
  pub issued_by_user_id : UserId
  pub issued_via_agent_connection_id : AgentConnectionId
  pub issued_at : DateTime
  pub expires_at : DateTime
  pub lifecycle : AgentEvidenceUploadGrantLifecycle

-- The arguments of `issue`.
pub record Issuance : Type 0 where
  pub id : AgentEvidenceUploadGrantId
  pub submission_id : EvidenceSubmissionId
  pub workspace_id : WorkspaceId
  pub evidence_id : EvidenceId
  pub coverage : CoverageWindow
  pub declaration : DeclaredUploadFile
  pub issued_by_user_id : UserId
  pub issued_via_agent_connection_id : AgentConnectionId
  pub issued_at : DateTime
  pub expires_at : DateTime

pub data AgentEvidenceUploadGrantError : Type 0 where
  invalid_issuance upload_invalid_rehydration authority_mismatch : AgentEvidenceUploadGrantError
  upload_expired upload_already_completed invalid_completion : AgentEvidenceUploadGrantError
  upload_content_type_mismatch upload_declared_length_mismatch : AgentEvidenceUploadGrantError
  upload_received_length_mismatch upload_checksum_mismatch : AgentEvidenceUploadGrantError

-- `From<DeclaredUploadFileError>`
unfoldable pub from_declared : DeclaredUploadFileError → AgentEvidenceUploadGrantError
from_declared invalid_rehydration = upload_invalid_rehydration
from_declared content_type_mismatch = upload_content_type_mismatch
from_declared declared_content_length_mismatch = upload_declared_length_mismatch
from_declared received_content_length_mismatch = upload_received_length_mismatch
from_declared checksum_mismatch = upload_checksum_mismatch
