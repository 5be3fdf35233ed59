-- ===== src/Handlers/Finalization.antt =====
-- src/handlers/document_finalization.rs: `handle_finalization_requested`, with the calls that it makes on the two
-- stores of objects. The answer of a deletion is not looked at, and the records of the audit are left out.
use proofplane.Prelude.{
  ℕ, suc, ◌-◌, ◌^◌, Bool, not, ◌||◌, Option, none, some, List, [], ◌∷◌, ◌++◌, ◌==◌, if◌then◌else◌,
  map_some, ℤ, pos, negsuc, Result, ok, err,
}
use proofplane.Text.{Text, codes, text_eq}
use proofplane.Commands.Documents.Types.{
  DocumentCommandOutcome, FinalizeDocument, DocumentCommandError,
}
use proofplane.Commands.Documents.Worker.{handle_finalize_document}
use proofplane.Commands.Metadata.{Environment}
use proofplane.Domain.Document.Types.{DocumentIdentity, evidence_identity, policy_identity}
use proofplane.Domain.Ids.{Uuid}
use proofplane.Handlers.Payload.{payload_uuid, payload_text}
use proofplane.Handlers.Scan.{retryable, RetryableWorkerError, ObjectMetadata, is_applied}
use proofplane.Messaging.Serde.{Serde}
use proofplane.Messaging.Types.{Uuids}
use proofplane.Persistence.Database.{Database}
use proofplane.Persistence.Work.{TypedDocumentUploadWork, load_finalizing_upload_work}
use proofplane.Storage.Key.{new, parse, ObjectKey, StorageError}
use proofplane.Validation.Five.{and_some}
use proofplane.Worker.Types.{WorkerMessage}

pub data StoreCall : Type 0 where
  promoted : ObjectKey → ObjectKey → StoreCall
  deleted_evidence : ObjectKey → StoreCall
  deleted_quarantine : ObjectKey → StoreCall

pub record FinalizationRequestedPayload : Type 0 where
  pub identity : DocumentIdentity
  pub object_key : ObjectKey

pub record FinalizationOutside (Value : Type 0) : Type 0 where
  pub reads_fail : Bool
  pub promote : ObjectKey → ObjectKey → Result ObjectMetadata StorageError
  pub meanwhile : Database Value → Database Value
  pub environment : Environment

-- `as u64` on an `i64`
unfoldable pub as_u64 : ℤ → ℕ
as_u64 (pos n) = n
as_u64 (negsuc n) = 2 ^ 64 - suc n

unfoldable pub object_prefix : Uuids → DocumentIdentity → Text
object_prefix u (evidence_identity submission id) =
    codes "evidence-submissions/"
    ++ (u.uuid_text submission ++ (codes "/documents/" ++ u.uuid_text id))
object_prefix u (policy_identity policy_id id) =
    codes "policies/" ++ (u.uuid_text policy_id ++ (codes "/documents/" ++ u.uuid_text id))

unfoldable pub final_document_object_key :
    Uuids → TypedDocumentUploadWork → Result ObjectKey StorageError
unfolding new object_prefix
final_document_object_key u w = new u w.workspace_id (object_prefix u w.identity) w.filename

-- What was copied is not what was declared.
unfoldable pub copy_differs : TypedDocumentUploadWork → ObjectKey → ObjectMetadata → Bool
unfolding as_u64
copy_differs w final_key copied =
    not (text_eq copied.key.value final_key.value)
    || not (text_eq copied.content_type w.content_type)
    || not (copied.content_length == as_u64 w.content_length)
    || not (text_eq copied.sha256 w.checksum_sha256)

-- The answer of a delivery, the store, and the calls on the stores of objects.
abbrev pub FinalizationResult : Type 0 → Type 0
FinalizationResult Value = Result (Unit {0}) RetryableWorkerError × Database Value × List StoreCall

module _ {Value : Type 0} (s : Serde Value) (u : Uuids) where
  abbrev pub finalization_identity : WorkerMessage Value → Uuid → Option DocumentIdentity
  finalization_identity message id =
      if text_eq message.aggregate_type (codes "evidence_document")
      then map_some (λ owner. evidence_identity owner id)
          (payload_uuid s u message.payload (codes "evidence_submission_id"))
      else if text_eq message.aggregate_type (codes "policy_document")
      then map_some (λ owner. policy_identity owner id)
          (payload_uuid s u message.payload (codes "policy_id"))
      else none

  abbrev pub payload_of :
      WorkerMessage Value
      → Uuid
      → Result ObjectKey StorageError
      → Option FinalizationRequestedPayload
  payload_of message id (err _) = none
  payload_of message id (ok key) =
      map_some (λ identity. record { identity = identity; object_key = key })
        (finalization_identity message id)

  unfoldable pub finalization_from_message :
      WorkerMessage Value → Option FinalizationRequestedPayload
  unfolding payload_uuid parse
  finalization_from_message message = and_some (u.parse_uuid message.aggregate_id) (λ id.
      and_some (payload_text s u message.payload (codes "object_key"))
        (λ text. payload_of message id (parse u text)))

module _ {Value : Type 0} (s : Serde Value) (u : Uuids) (outside : FinalizationOutside Value) where
  -- The quarantined object is deleted where the command was applied.
  unfoldable pub finished :
      ObjectKey
      → ObjectKey
      → Result DocumentCommandOutcome DocumentCommandError × Database Value
      → FinalizationResult Value
  finished key final_key (ok outcome, after) = (
    ok tt,
    after,
    promoted key final_key ∷ (if is_applied outcome then deleted_quarantine key ∷ [] else []),
  )
  finished key final_key (err _, after) = (err retryable, after, promoted key final_key ∷ [])

  abbrev pub finalize_command : TypedDocumentUploadWork → ObjectKey → FinalizeDocument
  finalize_command w final_key = record {
    identity = w.identity;
    quarantine_object_key = w.object_key;
    final_object_key = final_key.value;
  }

  unfoldable pub after_promote :
      TypedDocumentUploadWork
      → ObjectKey
      → ObjectKey
      → Database Value
      → Result ObjectMetadata StorageError
      → FinalizationResult Value
  unfolding copy_differs finished handle_finalize_document
  after_promote w key final_key db (err _) = (err retryable, db, promoted key final_key ∷ [])
  after_promote w key final_key db (ok copied) =
      if copy_differs w final_key copied
      then (err retryable, db, promoted key final_key ∷ deleted_evidence final_key ∷ [])
      else finished key final_key (
          handle_finalize_document s u outside.environment (finalize_command w final_key)
            (outside.meanwhile db))

  unfoldable pub with_final_key :
      TypedDocumentUploadWork
      → ObjectKey
      → Database Value
      → Result ObjectKey StorageError
      → FinalizationResult Value
  unfolding after_promote
  with_final_key w key db (err _) = (err retryable, db, [])
  with_final_key w key db (ok final_key) =
      after_promote w key final_key db (outside.promote key final_key)

  unfoldable pub with_finalizing_work :
      ObjectKey → Database Value → Option TypedDocumentUploadWork → FinalizationResult Value
  unfolding with_final_key final_document_object_key
  with_finalizing_work key db none = (ok tt, db, [])
  with_finalizing_work key db (some w) = with_final_key w key db (final_document_object_key u w)

  unfoldable pub with_finalization :
      Database Value → Option FinalizationRequestedPayload → FinalizationResult Value
  unfolding with_finalizing_work load_finalizing_upload_work
  with_finalization db none = (ok tt, db, [])
  with_finalization db (some p) =
      if outside.reads_fail
      then (err retryable, db, [])
      else with_finalizing_work p.object_key db
          (load_finalizing_upload_work p.identity p.object_key.value db)

  unfoldable pub handle_finalization_requested :
      WorkerMessage Value → Database Value → FinalizationResult Value
  unfolding with_finalization finalization_from_message
  handle_finalization_requested message db =
      with_finalization db (finalization_from_message s u message)
