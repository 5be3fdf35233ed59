-- ===== src/Persistence/Work.antt =====
-- src/persistence/reads/documents.rs: what is left to do for a document that a message names. An id is the
-- primary key, so the row is the one of the id and owner, if the other conditions hold.
use proofplane.Prelude.{Bool, true, not, ◌&&◌, Option, none, some, ◌==◌, if◌then◌else◌, any, ℤ}
use proofplane.Text.{Text, text_eq}
use proofplane.Domain.Document.Lifecycle.{status_eq}
use proofplane.Domain.Document.Types.{
  DocumentIdentity, DocumentOwner, pending_upload, finalizing, evidence_submission, policy,
  Document, owner_of, document_id, DocumentUploadStatus,
}
use proofplane.Domain.Ids.{WorkspaceId}
use proofplane.Persistence.Database.{get_document, Database}

pub record TypedDocumentUploadWork : Type 0 where
  pub workspace_id : WorkspaceId
  pub identity : DocumentIdentity
  pub filename : Text
  pub content_type : Text
  pub content_length : ℤ
  pub object_key : Text
  pub checksum_sha256 : Text
  pub upload_status : DocumentUploadStatus

abbrev pub work_of : DocumentIdentity → Document → TypedDocumentUploadWork
work_of identity d = record {
  workspace_id = d.workspace_id;
  identity = identity;
  filename = d.filename;
  content_type = d.content_type;
  content_length = d.content_length;
  object_key = d.object_key;
  checksum_sha256 = d.checksum_sha256;
  upload_status = d.upload_status;
}

module _ {Value : Type 0} where
  -- The policy that owns a document is not archived.
  abbrev pub owner_is_active : DocumentOwner → WorkspaceId → Database Value → Bool
  owner_is_active (evidence_submission _) workspace db = true
  owner_is_active (policy id) workspace db =
      any (λ p. p.id == id && p.workspace_id == workspace && not p.is_archived) db.policies

  unfoldable pub is_work : Text → DocumentUploadStatus → Document → Database Value → Bool
  unfolding owner_of
  is_work object_key status d db =
      text_eq d.object_key object_key
      && status_eq d.upload_status status
      && not d.archived
      && owner_is_active (owner_of d.identity) d.workspace_id db

  abbrev pub work_if :
      DocumentIdentity
      → Text
      → DocumentUploadStatus
      → Database Value
      → Option Document
      → Option TypedDocumentUploadWork
  work_if identity object_key status db none = none
  work_if identity object_key status db (some d) =
      if is_work object_key status d db then some (work_of identity d) else none

  unfoldable pub load :
      DocumentIdentity
      → Text
      → DocumentUploadStatus
      → Database Value
      → Option TypedDocumentUploadWork
  unfolding get_document is_work document_id owner_of
  load identity object_key status db =
      work_if identity object_key status db
        (get_document (document_id identity) (owner_of identity) db)

  unfoldable pub load_pending_upload_work :
      DocumentIdentity → Text → Database Value → Option TypedDocumentUploadWork
  unfolding load
  load_pending_upload_work identity object_key db = load identity object_key pending_upload db

  unfoldable pub load_finalizing_upload_work :
      DocumentIdentity → Text → Database Value → Option TypedDocumentUploadWork
  unfolding load
  load_finalizing_upload_work identity object_key db = load identity object_key finalizing db
