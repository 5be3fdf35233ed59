-- ===== src/Handlers/Tests.antt =====
-- Deliveries of one scan request.
use proofplane.Prelude.{ℕ, ◌≡◌, refl, false, some, List, [], ◌∷◌, any, pos, Result, ok, err}
use proofplane.Text.{codes}
use proofplane.Domain.Document.Types.{
  Document, pending_upload, finalizing, failed_upload, evidence_identity,
}
use proofplane.Handlers.Finalization.{
  FinalizationOutside, FinalizationResult, handle_finalization_requested,
}
use proofplane.Handlers.Promotion.{is_quarantine_deletion}
use proofplane.Handlers.Redelivery.{handle_scan_requested_twice}
use proofplane.Handlers.Scan.{
  outcome_clean, scanner_timeout, retryable, MalwareScanOutcome, handle_scan_requested,
  ObjectStream, MalwareScanError, ScanOutside, ObjectMetadata,
}
use proofplane.Messaging.Example.{codec, uuids}
use proofplane.Messaging.Types.{evidence_work}
use proofplane.Messaging.Wire.{document_work_value}
use proofplane.Persistence.Database.{Database}
use proofplane.Storage.Key.{ObjectKey}
use proofplane.Worker.Types.{WorkerMessage}

abbrev request : WorkerMessage (List ℕ)
request = record {
  message_id = 7 ∷ [];
  event_type = codes "document.scan_requested";
  aggregate_type = codes "evidence_document";
  aggregate_id = 2 ∷ [];
  request_id = some 11;
  payload = document_work_value codec (evidence_work 1 (codes "workspaces/3/evidence/a.pdf"));
  delivery_attempt = some 1;
}

abbrev staged : Document
staged = record {
  identity = evidence_identity 1 2;
  workspace_id = 3;
  created_by_user_id = 4;
  filename = codes "a.pdf";
  content_type = codes "application/pdf";
  content_length = pos 12;
  object_key = codes "workspaces/3/evidence/a.pdf";
  checksum_sha256 = [];
  checksum_crc32c = [];
  upload_status = pending_upload;
  archived = false;
  created_at = 10;
}

abbrev store : Database (List ℕ)
store = record {
  documents = staged ∷ [];
  submissions = [];
  evidence = [];
  policies = [];
  evidence_grants = [];
  policy_grants = [];
  outbox = record { next_id = 1; rows = [] };
}

abbrev stored_object : ObjectKey → ObjectStream (Unit {0})
stored_object key = record {
  metadata = record {
    key = key;
    content_type = codes "application/pdf";
    content_length = 12;
    sha256 = [];
  };
  chunks = tt;
}

abbrev outside_at : ℕ → Result MalwareScanOutcome MalwareScanError → ScanOutside (List ℕ) (Unit {0})
outside_at now answer = record {
  reads_fail = false;
  get_object = λ key. ok (stored_object key);
  scan = λ chunks. answer;
  meanwhile = λ db. db;
  environment = record { now = now; message_id = 9; fails = false };
}

abbrev timed_out : Result MalwareScanOutcome MalwareScanError
timed_out = err (scanner_timeout (codes "slow"))

abbrev after_scan : Database (List ℕ)
after_scan =
    (handle_scan_requested codec uuids (outside_at 50 (ok outcome_clean)) request 5 store).1

clean_test :
    handle_scan_requested codec uuids (outside_at 50 (ok outcome_clean)) request 5 store
    ≡ (ok tt, after_scan)
unfolding handle_scan_requested document_work_value
clean_test = refl

finalizing_test : after_scan.documents ≡ record staged { upload_status = finalizing } ∷ []
unfolding handle_scan_requested document_work_value
finalizing_test = refl

retried_test :
    handle_scan_requested codec uuids (outside_at 50 timed_out) request 5 store
    ≡ (err retryable, store)
unfolding handle_scan_requested document_work_value
retried_test = refl

last_delivery_test :
    (handle_scan_requested codec uuids (outside_at 50 timed_out) request 1 store).1.documents
    ≡ record staged { upload_status = failed_upload } ∷ []
unfolding handle_scan_requested document_work_value
last_delivery_test = refl

handle_scan_requested_twice_example :
    handle_scan_requested codec uuids
      (outside_at 60 timed_out)
      (record request { delivery_attempt = some 6 })
      5
      after_scan
    ≡ (ok tt, after_scan)
handle_scan_requested_twice_example =
    handle_scan_requested_twice codec uuids (outside_at 50 (ok outcome_clean))
      (outside_at 60 timed_out) request (some 6) 5 store after_scan clean_test refl

abbrev copy_of : ObjectKey → ObjectMetadata
copy_of key = record {
  key = key;
  content_type = codes "application/pdf";
  content_length = 12;
  sha256 = [];
}

abbrev promoting : FinalizationOutside (List ℕ)
promoting = record {
  reads_fail = false;
  promote = λ source key. ok (copy_of key);
  meanwhile = λ db. db;
  environment = record { now = 60; message_id = 9; fails = false };
}

-- A copy of another length.
abbrev truncating : FinalizationOutside (List ℕ)
truncating = record promoting {
  promote = λ source key. ok (record (copy_of key) { content_length = 11 });
}

abbrev finalization : FinalizationResult (List ℕ)
finalization = handle_finalization_requested codec uuids promoting request after_scan

truncated_test :
    any is_quarantine_deletion
      (handle_finalization_requested codec uuids truncating request after_scan).2
    ≡ false
unfolding handle_finalization_requested handle_scan_requested document_work_value
truncated_test = refl
