-- ===== src/Domain/AgentUpload/Tests.antt =====
-- One grant on concrete data.
use proofplane.Prelude.{◌≡◌, refl, none, some, List, [], ◌∷◌, leb, if◌then◌else◌, ok, err}
use proofplane.Text.{codes}
use proofplane.Domain.AgentUpload.History.{run, complete-completed_document_at}
use proofplane.Domain.AgentUpload.Operations.{issue, complete, completed_document_at}
use proofplane.Domain.AgentUpload.Types.{
  upload_pending, upload_completed, upload_expired, Issuance, AgentEvidenceUploadGrant,
}
use proofplane.Domain.Ids.{DocumentId, DateTime}

abbrev order : Issuance
order = record {
  id = 1;
  submission_id = 2;
  workspace_id = 3;
  evidence_id = 4;
  coverage = record { valid_from = 10; valid_until = 20 };
  declaration = record {
    filename = codes "report.pdf";
    content_type = codes "application/pdf";
    expected_content_length = 3;
    expected_sha256 = none;
  };
  issued_by_user_id = 5;
  issued_via_agent_connection_id = 6;
  issued_at = 100;
  expires_at = 400;
}

abbrev granted : AgentEvidenceUploadGrant
granted = record {
  id = 1;
  submission_id = 2;
  workspace_id = 3;
  evidence_id = 4;
  coverage = record { valid_from = 10; valid_until = 20 };
  declaration = record {
    filename = codes "report.pdf";
    content_type = codes "application/pdf";
    expected_content_length = 3;
    expected_sha256 = none;
  };
  issued_by_user_id = 5;
  issued_via_agent_connection_id = 6;
  issued_at = 100;
  expires_at = 400;
  lifecycle = upload_pending;
}

abbrev done : AgentEvidenceUploadGrant
done = record granted { lifecycle = upload_completed 9 200 }

abbrev attempts : List (DocumentId × DateTime)
attempts = (7, 50) ∷ (9, 200) ∷ (8, 300) ∷ []

issue_test : issue order ≡ ok granted
unfolding issue
issue_test = refl

complete_test : complete granted 9 200 ≡ ok done
unfolding complete
complete_test = refl

attempts_test : run granted attempts ≡ done
unfolding run
attempts_test = refl

complete-completed_document_at_example :
    (run done attempts ≡ done)
    × (completed_document_at (run done attempts) 300
        ≡ (if leb 400 300 then err upload_expired else ok (some 9)))
complete-completed_document_at_example =
    complete-completed_document_at granted done 9 200 300 attempts complete_test
