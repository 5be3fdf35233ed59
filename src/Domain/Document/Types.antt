-- ===== src/Domain/Document/Types.antt =====
-- The data of src/domain/document.rs. A content length, an `i64`, is an integer.
use proofplane.Prelude.{Bool, true, false, Option, ◌==◌, if◌then◌else◌, ℤ, Result, ok, err}
use proofplane.Text.{Text, codes, text_eq}
use proofplane.Domain.Error.{DomainError, invalid_enum_value}
use proofplane.Domain.Ids.{
  EvidenceSubmissionId, Uuid, DocumentId, WorkspaceId, PolicyId, UserId, DateTime,
}

pub data DocumentUploadStatus : Type 0 where
  pending_upload finalizing uploaded contains_virus failed_upload : DocumentUploadStatus

unfoldable pub as_str : DocumentUploadStatus → Text
as_str pending_upload = codes "pending"
as_str finalizing = codes "finalizing"
as_str uploaded = codes "uploaded"
as_str contains_virus = codes "contains_virus"
as_str failed_upload = codes "failed"

unfoldable pub from_str : Text → Result DocumentUploadStatus DomainError
from_str value =
    if text_eq value (codes "pending")
    then ok pending_upload
    else if text_eq value (codes "finalizing")
    then ok finalizing
    else if text_eq value (codes "uploaded")
    then ok uploaded
    else if text_eq value (codes "contains_virus")
    then ok contains_virus
    else if text_eq value (codes "failed")
    then ok failed_upload
    else err (invalid_enum_value (codes "upload_status") value)

pub data DocumentOwner : Type 0 where
  evidence_submission : EvidenceSubmissionId → DocumentOwner
  policy : PolicyId → DocumentOwner

unfoldable pub owner_type : DocumentOwner → Text
owner_type (evidence_submission _) = codes "evidence_submission"
owner_type (policy _) = codes "policy"

unfoldable pub owner_uuid : DocumentOwner → Uuid
owner_uuid (evidence_submission id) = id
owner_uuid (policy id) = id

-- `==` on owners.
abbrev pub owner_eq : DocumentOwner → DocumentOwner → Bool
owner_eq (evidence_submission a) (evidence_submission b) = a == b
owner_eq (evidence_submission a) (policy b) = false
owner_eq (policy a) (evidence_submission b) = false
owner_eq (policy a) (policy b) = a == b

pub data DocumentIdentity : Type 0 where
  evidence_identity : EvidenceSubmissionId → DocumentId → DocumentIdentity
  policy_identity : PolicyId → DocumentId → DocumentIdentity

unfoldable pub document_id : DocumentIdentity → DocumentId
document_id (evidence_identity _ document) = document
document_id (policy_identity _ document) = document

unfoldable pub owner_of : DocumentIdentity → DocumentOwner
owner_of (evidence_identity submission _) = evidence_submission submission
owner_of (policy_identity id _) = policy id

pub record Document : Type 0 where
  pub identity : DocumentIdentity
  pub workspace_id : WorkspaceId
  pub created_by_user_id : UserId
  pub filename : Text
  pub content_type : Text
  pub content_length : ℤ
  pub object_key : Text
  pub checksum_sha256 : Text
  pub checksum_crc32c : Text
  pub upload_status : DocumentUploadStatus
  pub archived : Bool
  pub created_at : DateTime

pub record CreateDocumentPayload : Type 0 where
  pub owner : DocumentOwner
  pub filename : Text
  pub content_type : Text
  pub content_length : ℤ
  pub object_key : Text
  pub checksum_sha256 : Text
  pub checksum_crc32c : Text

pub data DocumentEvent : Type 0 where
  scan_requested finalization_requested : DocumentIdentity → Text → DocumentEvent

pub data DocumentTransitionOutcome : Type 0 where
  created scanned finalized archived_now ignored rejected : DocumentTransitionOutcome

pub record DocumentTransition : Type 0 where
  pub outcome : DocumentTransitionOutcome
  pub event : Option DocumentEvent

unfoldable pub changed : DocumentTransition → Bool
changed t = elim t.outcome [ ignored ↦ false | rejected ↦ false | _ ↦ true ]

pub data DocumentLifecycleError : Type 0 where
  owner_mismatch negative_content_length : DocumentLifecycleError
