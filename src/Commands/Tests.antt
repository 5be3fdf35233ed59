-- ===== src/Commands/Tests.antt =====
-- Runs of the commands on a store with a staged document, a grant and the evidence of the grant.
use proofplane.Prelude.{ℕ, ◌≡◌, refl, false, none, some, List, [], ◌∷◌, arith, length, pos, ok}
use proofplane.Text.{codes}
use proofplane.Commands.Documents.Complete.{handle_complete_evidence_upload}
use proofplane.Commands.Documents.Completion.{handle_complete_evidence_upload_twice}
use proofplane.Commands.Documents.Scanning.{handle_scan_document_twice}
use proofplane.Commands.Documents.Types.{
  ScanDocumentResult, CompleteAgentEvidenceUpload, clean_result, malicious_result, upload_created,
  upload_replayed, command_applied, command_ignored, ScanDocument,
}
use proofplane.Commands.Documents.Worker.{handle_scan_document}
use proofplane.Commands.Metadata.{Environment, ExecutionMetadata, background}
use proofplane.Domain.AgentUpload.Types.{AgentEvidenceUploadGrant, upload_pending}
use proofplane.Domain.DeclaredFile.Hex.{plain_formats}
use proofplane.Domain.Document.Types.{
  Document, document_id, pending_upload, finalizing, evidence_submission, evidence_identity,
}
use proofplane.Messaging.Example.{codec, uuids}
use proofplane.Persistence.Database.{Database}

abbrev environment : ℕ → Environment
environment now = record { now = now; message_id = 7; fails = false }

abbrev staged : Document
staged = record {
  identity = evidence_identity 1 2;
  workspace_id = 3;
  created_by_user_id = 4;
  filename = codes "report.pdf";
  content_type = codes "application/pdf";
  content_length = pos 12;
  object_key = codes "staging/2";
  checksum_sha256 = [];
  checksum_crc32c = [];
  upload_status = pending_upload;
  archived = false;
  created_at = 10;
}

abbrev grant : AgentEvidenceUploadGrant
grant = record {
  id = 1;
  submission_id = 8;
  workspace_id = 3;
  evidence_id = 4;
  coverage = record { valid_from = 10; valid_until = 20 };
  declaration = record {
    filename = codes "log.txt";
    content_type = codes "text/plain";
    expected_content_length = 3;
    expected_sha256 = none;
  };
  issued_by_user_id = 5;
  issued_via_agent_connection_id = 6;
  issued_at = 100;
  expires_at = 400;
  lifecycle = upload_pending;
}

abbrev store : Database (List ℕ)
store = record {
  documents = staged ∷ [];
  submissions = [];
  evidence = (4, 3) ∷ [];
  policies = [];
  evidence_grants = grant ∷ [];
  policy_grants = [];
  outbox = record { next_id = 1; rows = [] };
}

abbrev scan_of : ScanDocumentResult → ScanDocument
scan_of r = record { identity = evidence_identity 1 2; object_key = codes "staging/2"; result = r }

abbrev completion : CompleteAgentEvidenceUpload
completion = record {
  grant = grant;
  authority = record {
    upload_id = 1;
    workspace_id = 3;
    evidence_id = 4;
    submission_id = 8;
    issued_by_user_id = 5;
    issued_via_agent_connection_id = 6;
    expires_at = 400;
  };
  staged_submission_id = 8;
  document_id = 9;
  document = record {
    owner = evidence_submission 8;
    filename = codes "log.txt";
    content_type = codes "text/plain";
    content_length = pos 3;
    object_key = codes "staging/9";
    checksum_sha256 = [];
    checksum_crc32c = [];
  };
  completed_at = 200;
}

abbrev logged : Document
logged = record {
  identity = evidence_identity 8 9;
  workspace_id = 3;
  created_by_user_id = 5;
  filename = codes "log.txt";
  content_type = codes "text/plain";
  content_length = pos 3;
  object_key = codes "staging/9";
  checksum_sha256 = [];
  checksum_crc32c = [];
  upload_status = pending_upload;
  archived = false;
  created_at = 200;
}

abbrev metadata : ExecutionMetadata
metadata = record { request_id = some 11; correlation_id = none; causation_id = none }

abbrev after_scan : Database (List ℕ)
after_scan =
    (handle_scan_document codec uuids (environment 50) (scan_of clean_result) metadata store).1

abbrev after_upload : Database (List ℕ)
after_upload =
    (handle_complete_evidence_upload codec uuids plain_formats (environment 200) completion metadata
      store).1

scan_test :
    handle_scan_document codec uuids (environment 50) (scan_of clean_result) metadata store
    ≡ (ok command_applied, after_scan)
unfolding handle_scan_document
scan_test = refl

scanned_document_test : after_scan.documents ≡ record staged { upload_status = finalizing } ∷ []
unfolding handle_scan_document
scanned_document_test = refl

scanned_message_test : length after_scan.outbox.rows ≡ 1
unfolding handle_scan_document
scanned_message_test = refl

upload_test :
    handle_complete_evidence_upload codec uuids plain_formats
      (environment 200)
      completion
      metadata
      store
    ≡ (ok (upload_created 8 logged), after_upload)
unfolding handle_complete_evidence_upload
upload_test = refl

handle_scan_document_twice_example :
    handle_scan_document codec uuids
      (environment 60)
      (scan_of malicious_result)
      background
      after_scan
    ≡ (ok command_ignored, after_scan)
handle_scan_document_twice_example =
    handle_scan_document_twice codec uuids (environment 50) (environment 60) (scan_of clean_result)
      (scan_of malicious_result) metadata background store after_scan scan_test refl refl

handle_complete_evidence_upload_twice_example :
    handle_complete_evidence_upload codec uuids plain_formats
      (environment 300)
      (record completion { completed_at = 300 })
      background
      after_upload
    ≡ (ok (upload_replayed 8 9), after_upload)
unfolding document_id
handle_complete_evidence_upload_twice_example =
    handle_complete_evidence_upload_twice codec uuids plain_formats (environment 200)
      (environment 300) completion metadata background store after_upload 8 logged 300 upload_test
      (omega arith) refl
