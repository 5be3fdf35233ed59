-- ===== src/Domain/Document/Lifecycle.antt =====
-- The operations of `Document`: each answers with the document and the transition.
use proofplane.Prelude.{
  Bool, true, false, not, ◌||◌, Option, none, some, if◌then◌else◌, is_negative, Result, ok, ◌>>◌,
  guard,
}
use proofplane.Text.{Text}
use proofplane.Domain.Document.Types.{
  pending_upload, finalizing, uploaded, contains_virus, failed_upload, scan_requested,
  finalization_requested, created, scanned, finalized, archived_now, ignored, rejected,
  owner_mismatch, negative_content_length, DocumentTransitionOutcome, owner_of,
  DocumentUploadStatus, Document, DocumentEvent, DocumentIdentity, DocumentTransition,
  CreateDocumentPayload, DocumentLifecycleError, owner_eq,
}
use proofplane.Domain.Ids.{WorkspaceId, UserId, DateTime}

abbrev applied : DocumentTransitionOutcome → Option DocumentEvent → DocumentTransition
applied outcome event = record { outcome = outcome; event = event }

unfoldable pub create :
    DocumentIdentity
    → WorkspaceId
    → UserId
    → CreateDocumentPayload
    → DateTime
    → Result (Document × DocumentTransition) DocumentLifecycleError
unfolding owner_of
create identity workspace user payload created_at = do
  guard (owner_eq payload.owner (owner_of identity)) owner_mismatch
  guard (not (is_negative payload.content_length)) negative_content_length
  ok (
    record {
      identity = identity;
      workspace_id = workspace;
      created_by_user_id = user;
      filename = payload.filename;
      content_type = payload.content_type;
      content_length = payload.content_length;
      object_key = payload.object_key;
      checksum_sha256 = payload.checksum_sha256;
      checksum_crc32c = payload.checksum_crc32c;
      upload_status = pending_upload;
      archived = false;
      created_at = created_at;
    },
    applied created (some (scan_requested identity payload.object_key)),
  )

-- `==` on statuses.
abbrev pub status_eq : DocumentUploadStatus → DocumentUploadStatus → Bool
status_eq pending_upload s = elim s [ pending_upload ↦ true | _ ↦ false ]
status_eq finalizing s = elim s [ finalizing ↦ true | _ ↦ false ]
status_eq uploaded s = elim s [ uploaded ↦ true | _ ↦ false ]
status_eq contains_virus s = elim s [ contains_virus ↦ true | _ ↦ false ]
status_eq failed_upload s = elim s [ failed_upload ↦ true | _ ↦ false ]

unfoldable pub transition :
    Document
    → DocumentUploadStatus
    → DocumentUploadStatus
    → Option DocumentEvent
    → Document × DocumentTransition
transition d expected next event =
    if d.archived || not (status_eq d.upload_status expected)
    then (d, applied ignored none)
    else (record d { upload_status = next }, applied scanned event)

unfoldable pub scan_clean : Document → Document × DocumentTransition
unfolding transition
scan_clean d =
    transition d pending_upload finalizing (some (finalization_requested d.identity d.object_key))

unfoldable pub scan_malicious : Document → Document × DocumentTransition
unfolding transition
scan_malicious d = transition d pending_upload contains_virus none

unfoldable pub scan_failed : Document → Document × DocumentTransition
unfolding transition
scan_failed d = transition d pending_upload failed_upload none

unfoldable pub finalize_uploaded : Document → Text → Document × DocumentTransition
finalize_uploaded d final_object_key =
    if d.archived || not (status_eq d.upload_status finalizing)
    then (d, applied ignored none)
    else (
      record d { object_key = final_object_key; upload_status = uploaded },
      applied finalized none,
    )

-- The statuses in which a document may be archived.
abbrev pub is_settled : DocumentUploadStatus → Bool
is_settled s = elim s [ uploaded ↦ true | contains_virus ↦ true | failed_upload ↦ true | _ ↦ false ]

unfoldable pub archive : Document → Document × DocumentTransition
archive d =
    if d.archived
    then (d, applied ignored none)
    else if not (is_settled d.upload_status)
    then (d, applied rejected none)
    else (record d { archived = true }, applied archived_now none)
