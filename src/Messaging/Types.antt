-- ===== src/Messaging/Types.antt =====
-- The data of src/messaging.rs, and of the crate uuid the text of an identifier.
use proofplane.Prelude.{ℕ, ◌≡◌, Option, some, ℤ}
use proofplane.Text.{Text, codes}
use proofplane.Domain.Document.Types.{
  DocumentOwner, owner_of, document_id, evidence_submission, policy, DocumentIdentity,
}
use proofplane.Domain.Ids.{Uuid, EvidenceSubmissionId, PolicyId}

-- `Uuid::to_string` and `Uuid::parse_str(…).ok()`
pub record Uuids : Type 0 where
  pub uuid_text : Uuid → Text
  pub parse_uuid : Text → Option Uuid

-- The documentation of the crate: the text of an identifier is parsed to it.
pub record UuidLaws (u : Uuids) : Type 0 where
  pub parse_text : (id : Uuid) → u.parse_uuid (u.uuid_text id) ≡ some id

pub data IntegrationMessageKind : Type 0 where
  command event : IntegrationMessageKind

unfoldable pub kind_as_str : IntegrationMessageKind → Text
kind_as_str command = codes "command"
kind_as_str event = codes "event"

pub record IntegrationMessageMetadata : Type 0 where
  pub message_id : Uuid
  pub subject : Text
  pub correlation_id : Option Uuid
  pub causation_id : Option Uuid

-- The `message_id` is the random UUID that `Uuid::new_v4` answers.
unfoldable pub new_metadata : Uuid → Text → Option Uuid → Option Uuid → IntegrationMessageMetadata
new_metadata message_id subject correlation_id causation_id = record {
  message_id = message_id;
  subject = subject;
  correlation_id = correlation_id;
  causation_id = causation_id;
}

-- `EvidenceDocumentWork` and `PolicyDocumentWork`: the owner and the object key.
pub data DocumentWork : Type 0 where
  evidence_work : EvidenceSubmissionId → Text → DocumentWork
  policy_work : PolicyId → Text → DocumentWork

pub record WorkspaceInvitationDeliveryWork : Type 0 where
  pub invitation_id : Uuid
  pub generation : ℤ

pub data IntegrationPayload : Type 0 where
  document : DocumentWork → IntegrationPayload
  workspace_invitation : WorkspaceInvitationDeliveryWork → IntegrationPayload

unfoldable pub work_aggregate_type : DocumentWork → Text
work_aggregate_type (evidence_work _ _) = codes "evidence_document"
work_aggregate_type (policy_work _ _) = codes "policy_document"

unfoldable pub aggregate_type : IntegrationPayload → Text
unfolding work_aggregate_type
aggregate_type (document work) = work_aggregate_type work
aggregate_type (workspace_invitation _) = codes "workspace_invitation"

unfoldable pub work_of_owner : DocumentOwner → Text → DocumentWork
work_of_owner (evidence_submission id) object_key = evidence_work id object_key
work_of_owner (policy id) object_key = policy_work id object_key

unfoldable pub new_document_work : DocumentIdentity → Text → DocumentWork
unfolding owner_of work_of_owner
new_document_work identity object_key = work_of_owner (owner_of identity) object_key

pub data IntegrationMessage : Type 0 where
  scan_document : IntegrationMessageMetadata → IntegrationPayload → IntegrationMessage
  finalize_document : IntegrationMessageMetadata → IntegrationPayload → IntegrationMessage
  send_workspace_invitation : IntegrationMessageMetadata → IntegrationPayload → IntegrationMessage

unfoldable pub metadata : IntegrationMessage → IntegrationMessageMetadata
metadata (scan_document m _) = m
metadata (finalize_document m _) = m
metadata (send_workspace_invitation m _) = m

unfoldable pub payload : IntegrationMessage → IntegrationPayload
payload (scan_document _ p) = p
payload (finalize_document _ p) = p
payload (send_workspace_invitation _ p) = p

unfoldable pub kind : IntegrationMessage → IntegrationMessageKind
kind _ = command

abbrev pub scan_document_type : Text
scan_document_type = codes "ScanDocument"

abbrev pub finalize_document_type : Text
finalize_document_type = codes "FinalizeDocument"

abbrev pub send_workspace_invitation_type : Text
send_workspace_invitation_type = codes "SendWorkspaceInvitation"

unfoldable pub message_type : IntegrationMessage → Text
message_type (scan_document _ _) = scan_document_type
message_type (finalize_document _ _) = finalize_document_type
message_type (send_workspace_invitation _ _) = send_workspace_invitation_type

abbrev pub current_message_version : ℕ
current_message_version = 1

-- Versions are `i32` and not negative in the table.
unfoldable pub version : IntegrationMessage → ℕ
version _ = current_message_version

module _ (u : Uuids) where
  unfoldable pub new_scan_document :
      Uuid → DocumentIdentity → Text → Option Uuid → Option Uuid → IntegrationMessage
  unfolding new_metadata new_document_work document_id
  new_scan_document message_id identity object_key correlation_id causation_id =
      scan_document
        (new_metadata message_id (u.uuid_text (document_id identity)) correlation_id causation_id)
        (document (new_document_work identity object_key))

  unfoldable pub new_finalize_document :
      Uuid → DocumentIdentity → Text → Option Uuid → Option Uuid → IntegrationMessage
  unfolding new_metadata new_document_work document_id
  new_finalize_document message_id identity object_key correlation_id causation_id =
      finalize_document
        (new_metadata message_id (u.uuid_text (document_id identity)) correlation_id causation_id)
        (document (new_document_work identity object_key))

  unfoldable pub new_send_workspace_invitation :
      Uuid → Uuid → ℤ → Option Uuid → Option Uuid → IntegrationMessage
  unfolding new_metadata
  new_send_workspace_invitation message_id invitation_id generation correlation_id causation_id =
      send_workspace_invitation
        (new_metadata message_id (u.uuid_text invitation_id) correlation_id causation_id)
        (workspace_invitation (record { invitation_id = invitation_id; generation = generation }))
