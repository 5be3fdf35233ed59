-- ===== src/Domain/Submission.antt =====
-- src/domain/evidence_submission.rs: the window a piece of evidence covers, and the submission.
use proofplane.Prelude.{Bool, ◌&&◌, Option, some, ltb, ◌==◌, if◌then◌else◌, Result, ok, err}
use proofplane.Domain.Error.{invalid_coverage_window, DomainError}
use proofplane.Domain.Ids.{
  Uuid, DateTime, AgentConnectionId, UserId, EvidenceSubmissionId, EvidenceId,
}

abbrev pub DocumentUploadGrantId : Type 0
DocumentUploadGrantId = Uuid

pub record CoverageWindow : Type 0 where
  pub valid_from : DateTime
  pub valid_until : DateTime

unfoldable pub new : DateTime → DateTime → Result CoverageWindow DomainError
new valid_from valid_until =
    if ltb valid_until valid_from
    then err invalid_coverage_window
    else ok (record { valid_from = valid_from; valid_until = valid_until })

-- `==` on windows.
abbrev pub window_eq : CoverageWindow → CoverageWindow → Bool
window_eq a b = a.valid_from == b.valid_from && a.valid_until == b.valid_until

pub data EvidenceSubmitter : Type 0 where
  by_agent_connection : AgentConnectionId → UserId → EvidenceSubmitter

unfoldable pub user_id : EvidenceSubmitter → UserId
user_id (by_agent_connection _ user) = user

unfoldable pub agent_connection_id : EvidenceSubmitter → Option AgentConnectionId
agent_connection_id (by_agent_connection connection _) = some connection

pub record EvidenceSubmission : Type 0 where
  pub id : EvidenceSubmissionId
  pub evidence_id : EvidenceId
  pub submitted_by : EvidenceSubmitter
  pub received_at : DateTime
  pub valid_from : DateTime
  pub valid_until : DateTime

pub data EvidenceSubmissionTransitionOutcome : Type 0 where
  created replayed : EvidenceSubmissionTransitionOutcome

unfoldable pub create :
    EvidenceSubmissionId
    → EvidenceId
    → EvidenceSubmitter
    → CoverageWindow
    → DateTime
    → EvidenceSubmission × EvidenceSubmissionTransitionOutcome
create id evidence_id submitted_by coverage received_at = (
  record {
    id = id;
    evidence_id = evidence_id;
    submitted_by = submitted_by;
    received_at = received_at;
    valid_from = coverage.valid_from;
    valid_until = coverage.valid_until;
  },
  created,
)

unfoldable pub coverage : EvidenceSubmission → CoverageWindow
coverage s = record { valid_from = s.valid_from; valid_until = s.valid_until }
