-- ===== src/Handlers/Redelivery.antt =====
-- A scan request that is acknowledged has left no work, so another delivery of it does nothing.
use proofplane.Prelude.{
  ℕ, ◌≡◌, refl, sym, ap, subst, ◌∙◌, inl, inr, Bool, true, false, ◌||◌, Option, none, some, List,
  arith, Bool-cases, Result, ok, err,
}
use proofplane.Text.{Text, text_eq_iff}
use proofplane.Commands.Documents.Types.{
  DocumentCommandOutcome, clean_result, malicious_result, failed_result, DocumentCommandError,
  ScanDocumentResult,
}
use proofplane.Domain.Document.Types.{DocumentIdentity, pending_upload, Document}
use proofplane.Handlers.Payload.{
  try_from_message, ScanRequestedPayload, PermanentScanMessageError, worker_metadata,
}
use proofplane.Handlers.Scan.{
  outcome_clean, outcome_malicious, outcome_failed, retryable, handle_scan_requested,
  RetryableWorkerError, acknowledge, ScanOutside, updated, apply_result, failed_or_retry, with_scan,
  with_length, with_object, with_key, with_work, with_payload, is_final_delivery, apply_scan_result,
  ObjectStream, MalwareScanOutcome, object_matches, scan_command, MalwareScanError,
  scan_content_length, is_not_found,
}
use proofplane.Handlers.Settled.{IsSettled, handle_scan_document-IsSettled}
use proofplane.Messaging.Serde.{Serde}
use proofplane.Messaging.Types.{Uuids}
use proofplane.Persistence.Database.{Database}
use proofplane.Persistence.Work.{
  is_work, load_pending_upload_work, TypedDocumentUploadWork, work_if,
}
use proofplane.Storage.Key.{parse, ObjectKey, StorageError}
use proofplane.Worker.Types.{WorkerMessage}

module _ {Value : Type 0} where
  not_acknowledged :
      {P : Type 0} (db after : Database Value)
      → ◌≡◌ {A = Result (Unit {0}) RetryableWorkerError × Database Value}
          (err retryable, db)
          (ok tt, after)
      → P
  not_acknowledged db after h = ground (arith, ap (λ p. p.0) h)

  updated-ok :
      (x : Result DocumentCommandOutcome DocumentCommandError × Database Value)
      (after : Database Value)
      → acknowledge (updated x) ≡ (ok tt, after)
      → (outcome : DocumentCommandOutcome) × (x ≡ (ok outcome, after))
  updated-ok (ok outcome, db) after h = (outcome, ap (λ d. (ok outcome, d)) (ap (λ p. p.1) h))
  updated-ok (err e, db) after h = not_acknowledged db after h

  work_if-names :
      (identity : DocumentIdentity) (object_key : Text) (db : Database Value) (o : Option Document)
      (w : TypedDocumentUploadWork)
      → work_if identity object_key pending_upload db o ≡ some w
      → (w.identity ≡ identity) × (w.object_key ≡ object_key)
  unfolding is_work
  work_if-names identity object_key db none w h = ground arith
  work_if-names identity object_key db (some d) w h =
      ground (arith, text_eq_iff d.object_key object_key)

  load_pending_upload_work-names :
      (identity : DocumentIdentity) (object_key : Text) (db : Database Value)
      (w : TypedDocumentUploadWork)
      → load_pending_upload_work identity object_key db ≡ some w
      → (w.identity ≡ identity) × (w.object_key ≡ object_key)
  unfolding load_pending_upload_work
  load_pending_upload_work-names identity object_key db w h =
      work_if-names identity object_key db _ w h

module _ {Value Chunks : Type 0} (s : Serde Value) (u : Uuids) (outside : ScanOutside Value Chunks)
    (message : WorkerMessage Value) where
  -- The work is done.
  abbrev pub IsDone : TypedDocumentUploadWork → Database Value → Type 0
  IsDone w after = IsSettled w.identity w.object_key after

  apply_result-IsDone :
      (w : TypedDocumentUploadWork) (r : ScanDocumentResult) (db after : Database Value)
      → acknowledge (apply_result s u outside message w r db) ≡ (ok tt, after)
      → IsDone w after
  unfolding apply_result
  apply_result-IsDone w r db after h =
      let (outcome, e) = updated-ok _ after h in
      handle_scan_document-IsSettled s u outside.environment (scan_command s u outside message w r)
        (worker_metadata s u message) (outside.meanwhile db) after outcome e

  failed_or_retry-IsDone :
      (last : Bool) (w : TypedDocumentUploadWork) (db after : Database Value)
      → failed_or_retry s u outside message last w db ≡ (ok tt, after)
      → IsDone w after
  unfolding failed_or_retry
  failed_or_retry-IsDone true w db after h = apply_result-IsDone w failed_result db after h
  failed_or_retry-IsDone false w db after h = not_acknowledged db after h

  with_scan-IsDone :
      (last : Bool) (w : TypedDocumentUploadWork) (db after : Database Value)
      (answer : Result MalwareScanOutcome MalwareScanError)
      → with_scan s u outside message last w db answer ≡ (ok tt, after)
      → IsDone w after
  unfolding with_scan apply_scan_result
  with_scan-IsDone last w db after (ok outcome_clean) h =
      apply_result-IsDone w clean_result db after h
  with_scan-IsDone last w db after (ok (outcome_malicious _)) h =
      apply_result-IsDone w malicious_result db after h
  with_scan-IsDone last w db after (ok (outcome_failed _)) h =
      apply_result-IsDone w failed_result db after h
  with_scan-IsDone last w db after (err _) h = failed_or_retry-IsDone last w db after h

  with_length-IsDone :
      (last : Bool) (w : TypedDocumentUploadWork) (db after : Database Value)
      (o : ObjectStream Chunks) (content_length : Option ℕ)
      → with_length s u outside message last w db o content_length ≡ (ok tt, after)
      → IsDone w after
  unfolding with_length
  with_length-IsDone last w db after o none h = not_acknowledged db after h
  with_length-IsDone last w db after o (some n) h =
      elim (Bool-cases (object_matches w n o.metadata)) [
        | inl same ↦
            with_scan-IsDone last w db after (outside.scan o.chunks) (sym (rw same refl) ∙ h)
        | inr other ↦ failed_or_retry-IsDone last w db after (sym (rw other refl) ∙ h)
      ]

  with_object-IsDone :
      (last : Bool) (w : TypedDocumentUploadWork) (db after : Database Value)
      (answer : Result (ObjectStream Chunks) StorageError)
      → with_object s u outside message last w db answer ≡ (ok tt, after)
      → IsDone w after
  unfolding with_object
  with_object-IsDone last w db after (ok o) h =
      with_length-IsDone last w db after o (scan_content_length w) h
  with_object-IsDone last w db after (err e) h =
      failed_or_retry-IsDone (is_not_found e || last) w db after h

  with_key-IsDone :
      (last : Bool) (w : TypedDocumentUploadWork) (db after : Database Value)
      (key : Result ObjectKey StorageError)
      → with_key s u outside message last w db key ≡ (ok tt, after)
      → IsDone w after
  unfolding with_key
  with_key-IsDone last w db after (ok key) h =
      with_object-IsDone last w db after (outside.get_object key) h
  with_key-IsDone last w db after (err e) h = not_acknowledged db after h

  with_work-IsSettled :
      (last : Bool) (identity : DocumentIdentity) (object_key : Text) (db after : Database Value)
      (o : Option TypedDocumentUploadWork)
      → load_pending_upload_work identity object_key db ≡ o
      → with_work s u outside message last db o ≡ (ok tt, after)
      → IsSettled identity object_key after
  unfolding with_work
  with_work-IsSettled last identity object_key db after none e h =
      subst (λ d. IsSettled identity object_key d) (ap (λ p. p.1) h) e
  with_work-IsSettled last identity object_key db after (some w) e h =
      let (same, key) = load_pending_upload_work-names identity object_key db w e in
      subst (λ i. IsSettled i object_key after) same
        (subst (λ k. IsSettled w.identity k after) key
          (with_key-IsDone last w db after (parse u w.object_key) h))

  -- What an acknowledged delivery leaves, by what was read from the message.
  abbrev pub LeavesNoWork :
      Result ScanRequestedPayload (List PermanentScanMessageError) → Database Value → Type 0
  LeavesNoWork (err _) after = Unit
  LeavesNoWork (ok p) after = IsSettled p.identity p.object_key.value after

  with_payload-LeavesNoWork :
      (last fails : Bool) (db after : Database Value)
      (payload : Result ScanRequestedPayload (List PermanentScanMessageError))
      → outside.reads_fail ≡ fails
      → with_payload s u outside message last db payload ≡ (ok tt, after)
      → LeavesNoWork payload after
  unfolding with_payload
  with_payload-LeavesNoWork last fails db after (err _) e h = tt
  with_payload-LeavesNoWork last true db after (ok p) e h =
      not_acknowledged db after (sym (rw e refl) ∙ h)
  with_payload-LeavesNoWork last false db after (ok p) e h =
      with_work-IsSettled last p.identity p.object_key.value db after _ refl (sym (rw e refl) ∙ h)

  done_again :
      (last : Bool) (after : Database Value)
      (payload : Result ScanRequestedPayload (List PermanentScanMessageError))
      → outside.reads_fail ≡ false
      → LeavesNoWork payload after
      → with_payload s u outside message last after payload ≡ (ok tt, after)
  unfolding with_payload with_work
  done_again last after (err _) e k = refl
  done_again last after (ok p) e k = rw (e, k) refl

-- If the delivery of a scan request was acknowledged, then with reads that work another delivery of
-- it, with any number of attempts and whatever the store of objects and the scanner then answer, is
-- acknowledged as well and changes nothing in the store of documents. What other transactions
-- commit between the reads and the command of the first delivery is arbitrary.
pub handle_scan_requested_twice :
    {Value Chunks : Type 0} (s : Serde Value) (u : Uuids) (first second : ScanOutside Value Chunks)
    (message : WorkerMessage Value) (attempt : Option ℕ) (max_delivery_attempts : ℕ)
    (db after : Database Value)
    → handle_scan_requested s u first message max_delivery_attempts db ≡ (ok tt, after)
    → second.reads_fail ≡ false
    → handle_scan_requested s u second
        (record message { delivery_attempt = attempt })
        max_delivery_attempts
        after
      ≡ (ok tt, after)
unfolding handle_scan_requested try_from_message
handle_scan_requested_twice s u first second message attempt max_delivery_attempts db after h
      works =
    let again = record message { delivery_attempt = attempt } in
    done_again s u second again (is_final_delivery max_delivery_attempts again) after
      (try_from_message s u message) works
      (with_payload-LeavesNoWork s u first message (is_final_delivery max_delivery_attempts message)
        first.reads_fail db after (try_from_message s u message) refl h)
