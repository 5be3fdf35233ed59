-- ===== src/Persistence/DocumentRecord.antt =====
-- src/persistence/aggregates/documents.rs: a document as a row.
use proofplane.Prelude.{◌≡◌, refl, Bool, ℤ, Result, ok, ◌>>=◌}
use proofplane.Text.{Text}
use proofplane.Domain.Document.Types.{
  as_str, from_str, document_id, owner_type, owner_uuid, owner_of, Document, DocumentUploadStatus,
  DocumentIdentity, DocumentOwner, pending_upload, finalizing, uploaded, contains_virus,
  failed_upload, evidence_submission, policy, evidence_identity, policy_identity,
}
use proofplane.Domain.Error.{DomainError}
use proofplane.Domain.Ids.{Uuid, DocumentId, WorkspaceId, UserId, DateTime}

pub record DocumentRecord : Type 0 where
  pub id : Uuid
  pub workspace_id : WorkspaceId
  pub owner_type : Text
  pub owner_id : Uuid
  pub created_by_user_id : UserId
  pub filename : Text
  pub content_type : Text
  pub content_length : ℤ
  pub object_key : Text
  pub checksum_sha256 : Text
  pub checksum_crc32c : Text
  pub archived : Bool
  pub upload_status : Text
  pub created_at : DateTime

unfoldable pub from_domain : Document → DocumentRecord
unfolding document_id owner_of owner_type owner_uuid as_str
from_domain d = record {
  id = document_id d.identity;
  workspace_id = d.workspace_id;
  owner_type = owner_type (owner_of d.identity);
  owner_id = owner_uuid (owner_of d.identity);
  created_by_user_id = d.created_by_user_id;
  filename = d.filename;
  content_type = d.content_type;
  content_length = d.content_length;
  object_key = d.object_key;
  checksum_sha256 = d.checksum_sha256;
  checksum_crc32c = d.checksum_crc32c;
  archived = d.archived;
  upload_status = as_str d.upload_status;
  created_at = d.created_at;
}

-- The status is parsed; the identity is the one that was asked for.
unfoldable pub into_domain : DocumentRecord → DocumentIdentity → Result Document DomainError
unfolding from_str
into_domain r identity = do
  upload_status ← from_str r.upload_status
  ok (record {
    identity = identity;
    workspace_id = r.workspace_id;
    created_by_user_id = r.created_by_user_id;
    filename = r.filename;
    content_type = r.content_type;
    content_length = r.content_length;
    object_key = r.object_key;
    checksum_sha256 = r.checksum_sha256;
    checksum_crc32c = r.checksum_crc32c;
    upload_status = upload_status;
    archived = r.archived;
    created_at = r.created_at;
  })

unfoldable pub document_identity : DocumentId → DocumentOwner → DocumentIdentity
document_identity id (evidence_submission submission) = evidence_identity submission id
document_identity id (policy policy_id) = policy_identity policy_id id

from_str-as_str : (s : DocumentUploadStatus) → from_str (as_str s) ≡ ok s
unfolding from_str as_str
from_str-as_str pending_upload = refl
from_str-as_str finalizing = refl
from_str-as_str uploaded = refl
from_str-as_str contains_virus = refl
from_str-as_str failed_upload = refl

document_identity-owner_of :
    (i : DocumentIdentity) → document_identity (document_id i) (owner_of i) ≡ i
unfolding document_identity document_id owner_of
document_identity-owner_of (evidence_identity s d) = refl
document_identity-owner_of (policy_identity p d) = refl

-- The row that a document is written to is read, under the identity of its id and owner, as that
-- document.
pub from_domain-into_domain :
    (d : Document)
    → into_domain (from_domain d) (document_identity (document_id d.identity) (owner_of d.identity))
      ≡ ok d
unfolding into_domain from_domain
from_domain-into_domain d =
    rw (document_identity-owner_of d.identity, from_str-as_str d.upload_status) refl
