-- ===== src/Commands/Documents/Create.antt =====
-- The commands of agents that create a document, with a submission or for a policy.
use proofplane.Prelude.{
  Bool, not, ◌&&◌, ◌||◌, Option, none, some, ◌==◌, if◌then◌else◌, map_some, Result, ok, err, ◌>>=◌,
  map_err, ok_or,
}
use proofplane.Text.{Text, codes}
use proofplane.Commands.Documents.Messages.{append_transition_message, as_command}
use proofplane.Commands.Documents.Types.{
  created_document, replayed_document, policy_created, policy_replayed, policy_unavailable,
  policy_current_document, command_unavailable, command_invalid, CreateEvidenceSubmissionDocument,
  CreatePolicyDocument, CreatedDocument, CreatePolicyDocumentOutcome, DocumentCommandError,
}
use proofplane.Commands.Metadata.{Environment, AgentConnectionContext, ExecutionMetadata}
use proofplane.Domain.Document.Lifecycle.{create as create_document}
use proofplane.Domain.Document.Types.{
  Document, DocumentIdentity, evidence_identity, policy_identity, owner_of, owner_eq, document_id,
  CreateDocumentPayload,
}
use proofplane.Domain.Ids.{WorkspaceId, UserId, DateTime}
use proofplane.Domain.Permission.Bits.{has}
use proofplane.Domain.Permission.Names.{write_evidence_submissions, write_evidence}
use proofplane.Domain.Submission.{
  create as create_submission, coverage as coverage_of, EvidenceSubmitter, by_agent_connection,
  window_eq, EvidenceSubmission,
}
use proofplane.Messaging.Serde.{Serde}
use proofplane.Messaging.Types.{Uuids}
use proofplane.Outbox.Rows.{PersistenceError, invariant_violation}
use proofplane.Persistence.Database.{
  save_document, get_workspace_document, save_submission, has_evidence, in_unit_of_work, eligible,
  current_document, Database, get_submission, lock_document_upload_eligibility,
  PolicyDocumentUploadEligibility,
}

module _ {Value : Type 0} (s : Serde Value) (u : Uuids) (env : Environment) where
  -- `Document::create`, its saving and its message; a refusal breaks an invariant.
  unfoldable pub create_stored_document :
      Text
      → DocumentIdentity
      → WorkspaceId
      → UserId
      → CreateDocumentPayload
      → DateTime
      → ExecutionMetadata
      → Database Value
      → Result (Document × Database Value) PersistenceError
  unfolding create_document save_document append_transition_message
  create_stored_document invariant identity workspace user payload at m db = do
    made ←
        map_err (λ _. invariant_violation invariant)
          (create_document identity workspace user payload at)
    saved ← save_document made.0 db
    after ← append_transition_message s u env made.1.event m saved
    ok (made.0, after)

  abbrev pub submitter_of : AgentConnectionContext → EvidenceSubmitter
  submitter_of connection = by_agent_connection connection.connection_id connection.user_id

  abbrev pub submitter_eq : EvidenceSubmitter → EvidenceSubmitter → Bool
  submitter_eq (by_agent_connection a b) (by_agent_connection x y) = a == x && b == y

  abbrev pub evidence_identity_of : CreateEvidenceSubmissionDocument → DocumentIdentity
  evidence_identity_of c = evidence_identity c.submission_id c.document_id

  -- The submission exists: it is the same request, whose document is answered.
  unfoldable pub replay_submission :
      CreateEvidenceSubmissionDocument
      → EvidenceSubmission
      → Database Value
      → Option CreatedDocument
  unfolding get_workspace_document coverage_of document_id owner_of
  replay_submission c existing db =
      if not (existing.evidence_id == c.evidence_id)
        || not (window_eq (coverage_of existing) c.coverage)
        || not (submitter_eq existing.submitted_by (submitter_of c.connection))
      then none
      else map_some replayed_document (
          get_workspace_document c.connection.workspace_id (document_id (evidence_identity_of c))
            (owner_of (evidence_identity_of c)) db)

  unfoldable pub new_submission :
      CreateEvidenceSubmissionDocument
      → ExecutionMetadata
      → Database Value
      → Result (Option CreatedDocument × Database Value) PersistenceError
  unfolding create_submission save_submission create_stored_document
  new_submission c m db = do
    made ←
        create_stored_document (codes "validated document creation is invalid")
          (evidence_identity_of c) c.connection.workspace_id c.connection.user_id c.document
          c.received_at m
          (save_submission
            (create_submission c.submission_id c.evidence_id (submitter_of c.connection) c.coverage
              c.received_at).0
            db)
    ok (some (created_document made.0), made.1)

  unfoldable pub apply_create_evidence :
      CreateEvidenceSubmissionDocument
      → ExecutionMetadata
      → Database Value
      → Result (Option CreatedDocument × Database Value) PersistenceError
  unfolding has_evidence get_submission replay_submission new_submission
  apply_create_evidence c m db =
      if not (has_evidence c.connection.workspace_id c.evidence_id db)
      then ok (none, db)
      else elim (get_submission c.connection.workspace_id c.submission_id db) [
        | some existing ↦ ok (replay_submission c existing db, db)
        | none ↦ new_submission c m db
      ]

  -- `ok_or(DocumentCommandError::Unavailable)`
  abbrev pub created_or_unavailable :
      Result (Option CreatedDocument) DocumentCommandError × Database Value
      → Result CreatedDocument DocumentCommandError × Database Value
  created_or_unavailable (answer, db) = (answer >>= (λ made. ok_or made command_unavailable), db)

  unfoldable pub handle_create_evidence :
      CreateEvidenceSubmissionDocument
      → ExecutionMetadata
      → Database Value
      → Result CreatedDocument DocumentCommandError × Database Value
  unfolding in_unit_of_work apply_create_evidence has owner_of
  handle_create_evidence c m db =
      if not (has c.connection.permissions write_evidence_submissions)
      then (err command_unavailable, db)
      else if not (owner_eq c.document.owner (owner_of (evidence_identity_of c)))
      then (err command_invalid, db)
      else created_or_unavailable
          (as_command (in_unit_of_work env.fails (apply_create_evidence c m) db))

  abbrev pub policy_identity_of : CreatePolicyDocument → DocumentIdentity
  policy_identity_of c = policy_identity c.policy_id c.document_id

  -- The `match` on the eligibility of the policy.
  unfoldable pub eligible_policy :
      CreatePolicyDocument
      → ExecutionMetadata
      → Database Value
      → Option PolicyDocumentUploadEligibility
      → Result (CreatePolicyDocumentOutcome × Database Value) PersistenceError
  unfolding create_stored_document
  eligible_policy c m db none = ok (policy_unavailable, db)
  eligible_policy c m db (some current_document) = ok (policy_current_document, db)
  eligible_policy c m db (some eligible) = do
    made ←
        create_stored_document (codes "validated document creation is invalid")
          (policy_identity_of c) c.connection.workspace_id c.connection.user_id c.document
          c.created_at m db
    ok (policy_created made.0, made.1)

  unfoldable pub apply_create_policy :
      CreatePolicyDocument
      → ExecutionMetadata
      → Database Value
      → Result (CreatePolicyDocumentOutcome × Database Value) PersistenceError
  unfolding get_workspace_document lock_document_upload_eligibility eligible_policy document_id
      owner_of
  apply_create_policy c m db =
      elim (get_workspace_document c.connection.workspace_id (document_id (policy_identity_of c))
        (owner_of (policy_identity_of c)) db) [
          | some d ↦ ok (policy_replayed d, db)
          | none ↦
              eligible_policy c m db
                (lock_document_upload_eligibility c.connection.workspace_id c.policy_id db)
        ]

  unfoldable pub handle_create_policy :
      CreatePolicyDocument
      → ExecutionMetadata
      → Database Value
      → Result CreatePolicyDocumentOutcome DocumentCommandError × Database Value
  unfolding in_unit_of_work apply_create_policy has owner_of
  handle_create_policy c m db =
      if not (has c.connection.permissions write_evidence)
      then (err command_unavailable, db)
      else if not (owner_eq c.document.owner (owner_of (policy_identity_of c)))
      then (err command_invalid, db)
      else as_command (in_unit_of_work env.fails (apply_create_policy c m) db)
