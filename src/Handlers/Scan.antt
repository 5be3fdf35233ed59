-- ===== src/Handlers/Scan.antt =====
-- src/handlers/document_scan.rs: `handle_scan_requested`. The records of the audit are left out.
use proofplane.Prelude.{
  ℕ, Bool, true, false, not, ◌&&◌, ◌||◌, Option, none, some, List, leb, ◌==◌, if◌then◌else◌,
  is_some_and, pos, negsuc, Result, ok, err,
}
use proofplane.Text.{Text, text_eq}
use proofplane.Commands.Documents.Types.{
  DocumentCommandOutcome, clean_result, malicious_result, failed_result, command_applied,
  command_ignored, command_rejected, DocumentCommandError, ScanDocumentResult, ScanDocument,
}
use proofplane.Commands.Documents.Worker.{handle_scan_document}
use proofplane.Commands.Metadata.{Environment}
use proofplane.Handlers.Payload.{
  try_from_message, worker_metadata, ScanRequestedPayload, PermanentScanMessageError,
}
use proofplane.Messaging.Serde.{Serde}
use proofplane.Messaging.Types.{Uuids}
use proofplane.Persistence.Database.{Database}
use proofplane.Persistence.Work.{TypedDocumentUploadWork, load_pending_upload_work}
use proofplane.Storage.Key.{
  parse, invalid_key, not_found, filesystem, metadata_persistence, integrity, stream_read,
  authentication, unavailable, provider, ObjectKey, StorageError,
}
use proofplane.Worker.Types.{WorkerMessage}

-- src/scanner/mod.rs
pub data MalwareScanOutcome : Type 0 where
  outcome_clean : MalwareScanOutcome
  outcome_malicious : Text → MalwareScanOutcome
  outcome_failed : Text → MalwareScanOutcome

pub data MalwareScanError : Type 0 where
  scanner_unavailable scanner_timeout scanner_internal : Text → MalwareScanError

pub record ObjectMetadata : Type 0 where
  pub key : ObjectKey
  pub content_type : Text
  pub content_length : ℕ
  pub sha256 : Text

pub record ObjectStream (Chunks : Type 0) : Type 0 where
  pub metadata : ObjectMetadata
  pub chunks : Chunks

-- An error that asks for another delivery; its text is left out.
pub data RetryableWorkerError : Type 0 where
  retryable : RetryableWorkerError

-- What one delivery takes from outside: whether the reads fail, what the store of quarantined objects and the
-- scanner answer, and what other transactions commit between the reads and the command.
pub record ScanOutside (Value Chunks : Type 0) : Type 0 where
  pub reads_fail : Bool
  pub get_object : ObjectKey → Result (ObjectStream Chunks) StorageError
  pub scan : Chunks → Result MalwareScanOutcome MalwareScanError
  pub meanwhile : Database Value → Database Value
  pub environment : Environment

abbrev pub is_not_found : StorageError → Bool
is_not_found not_found = true
is_not_found invalid_key = false
is_not_found filesystem = false
is_not_found metadata_persistence = false
is_not_found integrity = false
is_not_found (stream_read _ _) = false
is_not_found authentication = false
is_not_found unavailable = false
is_not_found provider = false

abbrev pub is_applied : DocumentCommandOutcome → Bool
is_applied command_applied = true
is_applied command_ignored = false
is_applied command_rejected = false

-- `map_err(retryable)` and the test on the outcome.
abbrev pub updated :
    {Value : Type 0}
    → Result DocumentCommandOutcome DocumentCommandError × Database Value
    → Result Bool RetryableWorkerError × Database Value
updated (ok outcome, db) = (ok (is_applied outcome), db)
updated (err _, db) = (err retryable, db)

abbrev pub acknowledge :
    {Value : Type 0}
    → Result Bool RetryableWorkerError × Database Value
    → Result (Unit {0}) RetryableWorkerError × Database Value
acknowledge (ok _, db) = (ok tt, db)
acknowledge (err e, db) = (err e, db)

unfoldable pub is_final_delivery : {Value : Type 0} → ℕ → WorkerMessage Value → Bool
is_final_delivery max_delivery_attempts message =
    is_some_and message.delivery_attempt (λ attempt. leb max_delivery_attempts attempt)

-- `u64::try_from`
unfoldable pub scan_content_length : TypedDocumentUploadWork → Option ℕ
scan_content_length w = elim w.content_length [ pos n ↦ some n | negsuc n ↦ none ]

unfoldable pub object_matches : TypedDocumentUploadWork → ℕ → ObjectMetadata → Bool
object_matches w content_length o =
    text_eq o.content_type w.content_type
    && o.content_length == content_length
    && text_eq o.sha256 w.checksum_sha256

module _ {Value Chunks : Type 0} (s : Serde Value) (u : Uuids) (outside : ScanOutside Value Chunks)
    (message : WorkerMessage Value) where
  abbrev pub scan_command : TypedDocumentUploadWork → ScanDocumentResult → ScanDocument
  scan_command w r = record { identity = w.identity; object_key = w.object_key; result = r }

  unfoldable pub apply_result :
      TypedDocumentUploadWork
      → ScanDocumentResult
      → Database Value
      → Result Bool RetryableWorkerError × Database Value
  unfolding handle_scan_document worker_metadata
  apply_result w r db = updated (
      handle_scan_document s u outside.environment (scan_command w r) (worker_metadata s u message)
        (outside.meanwhile db))

  unfoldable pub apply_scan_result :
      TypedDocumentUploadWork
      → MalwareScanOutcome
      → Database Value
      → Result (Unit {0}) RetryableWorkerError × Database Value
  unfolding apply_result
  apply_scan_result w outcome_clean db = acknowledge (apply_result w clean_result db)
  apply_scan_result w (outcome_malicious _) db = acknowledge (apply_result w malicious_result db)
  apply_scan_result w (outcome_failed _) db = acknowledge (apply_result w failed_result db)

  -- A failure marks the document on the last delivery, and is retried on those before it.
  unfoldable pub failed_or_retry :
      Bool
      → TypedDocumentUploadWork
      → Database Value
      → Result (Unit {0}) RetryableWorkerError × Database Value
  unfolding apply_result
  failed_or_retry final_delivery w db =
      if final_delivery then acknowledge (apply_result w failed_result db) else (err retryable, db)

  unfoldable pub with_scan :
      Bool
      → TypedDocumentUploadWork
      → Database Value
      → Result MalwareScanOutcome MalwareScanError
      → Result (Unit {0}) RetryableWorkerError × Database Value
  unfolding apply_scan_result failed_or_retry
  with_scan final_delivery w db (ok outcome) = apply_scan_result w outcome db
  with_scan final_delivery w db (err _) = failed_or_retry final_delivery w db

  unfoldable pub with_length :
      Bool
      → TypedDocumentUploadWork
      → Database Value
      → ObjectStream Chunks
      → Option ℕ
      → Result (Unit {0}) RetryableWorkerError × Database Value
  unfolding object_matches with_scan failed_or_retry
  with_length final_delivery w db o none = (err retryable, db)
  with_length final_delivery w db o (some content_length) =
      if not (object_matches w content_length o.metadata)
      then failed_or_retry final_delivery w db
      else with_scan final_delivery w db (outside.scan o.chunks)

  unfoldable pub with_object :
      Bool
      → TypedDocumentUploadWork
      → Database Value
      → Result (ObjectStream Chunks) StorageError
      → Result (Unit {0}) RetryableWorkerError × Database Value
  unfolding failed_or_retry with_length scan_content_length
  with_object final_delivery w db (err e) = failed_or_retry (is_not_found e || final_delivery) w db
  with_object final_delivery w db (ok o) = with_length final_delivery w db o (scan_content_length w)

  unfoldable pub with_key :
      Bool
      → TypedDocumentUploadWork
      → Database Value
      → Result ObjectKey StorageError
      → Result (Unit {0}) RetryableWorkerError × Database Value
  unfolding with_object
  with_key final_delivery w db (err _) = (err retryable, db)
  with_key final_delivery w db (ok key) = with_object final_delivery w db (outside.get_object key)

  unfoldable pub with_work :
      Bool
      → Database Value
      → Option TypedDocumentUploadWork
      → Result (Unit {0}) RetryableWorkerError × Database Value
  unfolding with_key parse
  with_work final_delivery db none = (ok tt, db)
  with_work final_delivery db (some w) = with_key final_delivery w db (parse u w.object_key)

  unfoldable pub with_payload :
      Bool
      → Database Value
      → Result ScanRequestedPayload (List PermanentScanMessageError)
      → Result (Unit {0}) RetryableWorkerError × Database Value
  unfolding with_work load_pending_upload_work
  with_payload final_delivery db (err _) = (ok tt, db)
  with_payload final_delivery db (ok p) =
      if outside.reads_fail
      then (err retryable, db)
      else with_work final_delivery db (load_pending_upload_work p.identity p.object_key.value db)

  unfoldable pub handle_scan_requested :
      ℕ → Database Value → Result (Unit {0}) RetryableWorkerError × Database Value
  unfolding is_final_delivery try_from_message with_payload
  handle_scan_requested max_delivery_attempts db =
      with_payload (is_final_delivery max_delivery_attempts message) db
        (try_from_message s u message)
