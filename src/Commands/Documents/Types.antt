-- ===== src/Commands/Documents/Types.antt =====
-- The data of src/application/commands/documents.rs.
use proofplane.Text.{Text}
use proofplane.Commands.Metadata.{AgentConnectionContext}
use proofplane.Domain.AgentPolicyUpload.Types.{
  AgentPolicyDocumentUploadGrant, AgentPolicyDocumentUploadAuthority,
}
use proofplane.Domain.AgentUpload.Types.{AgentEvidenceUploadGrant, AgentEvidenceUploadAuthority}
use proofplane.Domain.Document.Types.{
  DocumentIdentity, Document, DocumentTransitionOutcome, created, scanned, finalized, archived_now,
  ignored, rejected, CreateDocumentPayload,
}
use proofplane.Domain.Ids.{EvidenceSubmissionId, EvidenceId, PolicyId, DocumentId, DateTime}
use proofplane.Domain.Submission.{CoverageWindow}
use proofplane.Outbox.Rows.{PersistenceError}

pub record CreateEvidenceSubmissionDocument : Type 0 where
  pub connection : AgentConnectionContext
  pub submission_id : EvidenceSubmissionId
  pub evidence_id : EvidenceId
  pub coverage : CoverageWindow
  pub document_id : DocumentId
  pub document : CreateDocumentPayload
  pub received_at : DateTime

pub record CreatePolicyDocument : Type 0 where
  pub connection : AgentConnectionContext
  pub policy_id : PolicyId
  pub document_id : DocumentId
  pub document : CreateDocumentPayload
  pub created_at : DateTime

pub record ArchiveDocument : Type 0 where
  pub connection : AgentConnectionContext
  pub identity : DocumentIdentity

pub data ScanDocumentResult : Type 0 where
  clean_result malicious_result failed_result : ScanDocumentResult

pub record ScanDocument : Type 0 where
  pub identity : DocumentIdentity
  pub object_key : Text
  pub result : ScanDocumentResult

pub record FinalizeDocument : Type 0 where
  pub identity : DocumentIdentity
  pub quarantine_object_key : Text
  pub final_object_key : Text

pub record CompleteAgentEvidenceUpload : Type 0 where
  pub grant : AgentEvidenceUploadGrant
  pub authority : AgentEvidenceUploadAuthority
  pub staged_submission_id : EvidenceSubmissionId
  pub document_id : DocumentId
  pub document : CreateDocumentPayload
  pub completed_at : DateTime

pub record CompleteAgentPolicyDocumentUpload : Type 0 where
  pub grant : AgentPolicyDocumentUploadGrant
  pub authority : AgentPolicyDocumentUploadAuthority
  pub policy_id : PolicyId
  pub document_id : DocumentId
  pub document : CreateDocumentPayload
  pub completed_at : DateTime

pub data CreatedDocument : Type 0 where
  created_document : Document → CreatedDocument
  replayed_document : Document → CreatedDocument

pub data CreatePolicyDocumentOutcome : Type 0 where
  policy_created : Document → CreatePolicyDocumentOutcome
  policy_replayed : Document → CreatePolicyDocumentOutcome
  policy_unavailable : CreatePolicyDocumentOutcome
  policy_current_document : CreatePolicyDocumentOutcome

pub data ArchiveDocumentOutcome : Type 0 where
  archive_archived archive_replayed archive_unavailable archive_not_terminal :
      ArchiveDocumentOutcome

pub data CompleteAgentEvidenceUploadOutcome : Type 0 where
  upload_created : EvidenceSubmissionId → Document → CompleteAgentEvidenceUploadOutcome
  upload_replayed : EvidenceSubmissionId → DocumentId → CompleteAgentEvidenceUploadOutcome
  upload_unavailable : CompleteAgentEvidenceUploadOutcome

pub data CompleteAgentPolicyDocumentUploadOutcome : Type 0 where
  completion_created : Document → CompleteAgentPolicyDocumentUploadOutcome
  completion_replayed : DocumentId → CompleteAgentPolicyDocumentUploadOutcome
  completion_current_document : CompleteAgentPolicyDocumentUploadOutcome
  completion_unavailable : CompleteAgentPolicyDocumentUploadOutcome

pub data DocumentCommandOutcome : Type 0 where
  command_applied command_ignored command_rejected : DocumentCommandOutcome

pub data DocumentCommandError : Type 0 where
  command_unavailable : DocumentCommandError
  command_invalid : DocumentCommandError
  command_repository : PersistenceError → DocumentCommandError

unfoldable pub outcome_of_transition : DocumentTransitionOutcome → DocumentCommandOutcome
outcome_of_transition ignored = command_ignored
outcome_of_transition rejected = command_rejected
outcome_of_transition created = command_applied
outcome_of_transition scanned = command_applied
outcome_of_transition finalized = command_applied
outcome_of_transition archived_now = command_applied
