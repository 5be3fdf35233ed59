-- ===== src/Commands/Documents/Complete.antt =====
-- The commands that complete an upload of an agent under a grant.
use proofplane.Prelude.{
  Bool, not, ◌||◌, Option, none, some, ◌==◌, if◌then◌else◌, is_some, Result, ok, err, ◌>>=◌,
  map_err, is_ok,
}
use proofplane.Text.{codes}
use proofplane.Commands.Documents.Create.{create_stored_document}
use proofplane.Commands.Documents.Messages.{as_command}
use proofplane.Commands.Documents.Types.{
  upload_created, upload_replayed, upload_unavailable, completion_created, completion_replayed,
  completion_current_document, completion_unavailable, CompleteAgentEvidenceUpload,
  CompleteAgentPolicyDocumentUpload, CompleteAgentEvidenceUploadOutcome,
  CompleteAgentPolicyDocumentUploadOutcome, DocumentCommandError,
}
use proofplane.Commands.Metadata.{Environment, ExecutionMetadata}
use proofplane.Domain.AgentPolicyUpload.Operations.{
  matches_authority as policy_matches_authority,
  validate_staged_file as policy_validate_staged_file,
  completed_document_at as policy_completed_document_at, complete as policy_complete,
}
use proofplane.Domain.AgentPolicyUpload.Types.{
  AgentPolicyDocumentUploadGrant, AgentPolicyDocumentUploadGrantError,
}
use proofplane.Domain.AgentUpload.Operations.{
  matches_authority, validate_staged_file, completed_document_at, complete,
}
use proofplane.Domain.AgentUpload.Types.{AgentEvidenceUploadGrant, AgentEvidenceUploadGrantError}
use proofplane.Domain.DeclaredFile.Formats.{Formats}
use proofplane.Domain.Document.Types.{
  evidence_identity, policy_identity, evidence_submission, policy, owner_eq, document_id, Document,
}
use proofplane.Domain.Ids.{DocumentId}
use proofplane.Domain.Submission.{create as create_submission, by_agent_connection}
use proofplane.Messaging.Serde.{Serde}
use proofplane.Messaging.Types.{Uuids}
use proofplane.Outbox.Rows.{PersistenceError, invariant_violation}
use proofplane.Persistence.Database.{
  save_submission, has_evidence, in_unit_of_work, lock_document_upload_eligibility, eligible,
  current_document, save_evidence_grant, get_submission, get_evidence_grant, save_policy_grant,
  get_policy_grant, Database, PolicyDocumentUploadEligibility,
}

module _ {Value : Type 0} (s : Serde Value) (u : Uuids) (f : Formats) (env : Environment) where
  -- The guards of the command on the grant that is stored.
  unfoldable pub evidence_upload_refused :
      CompleteAgentEvidenceUpload → AgentEvidenceUploadGrant → Bool
  unfolding matches_authority validate_staged_file
  evidence_upload_refused c grant =
      not (is_ok (matches_authority grant c.authority))
      || not (
          is_ok (validate_staged_file f grant c.document.content_length c.document.checksum_sha256))
      || not (c.staged_submission_id == grant.submission_id)
      || not (owner_eq c.document.owner (evidence_submission grant.submission_id))

  -- The grant is completed and saved.
  unfoldable pub finish_evidence_upload :
      CompleteAgentEvidenceUpload
      → AgentEvidenceUploadGrant
      → Document × Database Value
      → Result (CompleteAgentEvidenceUploadOutcome × Database Value) PersistenceError
  unfolding document_id complete save_evidence_grant
  finish_evidence_upload c grant made = do
    completed ←
        map_err (λ _. invariant_violation (codes "machine upload grant changed during completion"))
          (complete grant (document_id made.0.identity) c.completed_at)
    ok (upload_created grant.submission_id made.0, save_evidence_grant completed made.1)

  -- The submission, the document, its message and the completed grant.
  unfoldable pub store_evidence_upload :
      CompleteAgentEvidenceUpload
      → ExecutionMetadata
      → AgentEvidenceUploadGrant
      → Database Value
      → Result (CompleteAgentEvidenceUploadOutcome × Database Value) PersistenceError
  unfolding create_submission save_submission create_stored_document finish_evidence_upload
  store_evidence_upload c m grant db =
      create_stored_document s u env (codes "validated machine evidence document is invalid")
        (evidence_identity grant.submission_id c.document_id) c.grant.workspace_id
        c.grant.issued_by_user_id c.document c.completed_at m
        (save_submission
          (create_submission grant.submission_id grant.evidence_id
            (by_agent_connection c.grant.issued_via_agent_connection_id c.grant.issued_by_user_id)
            grant.coverage c.completed_at).0
          db)
      >>= finish_evidence_upload c grant

  -- A grant that is completed answers its document; one that has expired is unavailable.
  unfoldable pub continue_evidence_upload :
      CompleteAgentEvidenceUpload
      → ExecutionMetadata
      → AgentEvidenceUploadGrant
      → Database Value
      → Result (Option DocumentId) AgentEvidenceUploadGrantError
      → Result (CompleteAgentEvidenceUploadOutcome × Database Value) PersistenceError
  unfolding has_evidence get_submission store_evidence_upload
  continue_evidence_upload c m grant db (ok (some done)) =
      ok (upload_replayed grant.submission_id done, db)
  continue_evidence_upload c m grant db (err _) = ok (upload_unavailable, db)
  continue_evidence_upload c m grant db (ok none) =
      if not (has_evidence c.grant.workspace_id grant.evidence_id db)
        || is_some (get_submission c.grant.workspace_id grant.submission_id db)
      then ok (upload_unavailable, db)
      else store_evidence_upload c m grant db

  unfoldable pub with_evidence_grant :
      CompleteAgentEvidenceUpload
      → ExecutionMetadata
      → Database Value
      → Option AgentEvidenceUploadGrant
      → Result (CompleteAgentEvidenceUploadOutcome × Database Value) PersistenceError
  unfolding evidence_upload_refused completed_document_at continue_evidence_upload
  with_evidence_grant c m db none = ok (upload_unavailable, db)
  with_evidence_grant c m db (some grant) =
      if evidence_upload_refused c grant
      then ok (upload_unavailable, db)
      else continue_evidence_upload c m grant db (completed_document_at grant c.completed_at)

  -- The closure that the transaction runs.
  abbrev pub evidence_upload_operation :
      CompleteAgentEvidenceUpload
      → ExecutionMetadata
      → Database Value
      → Result (CompleteAgentEvidenceUploadOutcome × Database Value) PersistenceError
  evidence_upload_operation c m db =
      with_evidence_grant c m db (get_evidence_grant c.grant.id c.grant.workspace_id db)

  unfoldable pub handle_complete_evidence_upload :
      CompleteAgentEvidenceUpload
      → ExecutionMetadata
      → Database Value
      → Result CompleteAgentEvidenceUploadOutcome DocumentCommandError × Database Value
  unfolding in_unit_of_work get_evidence_grant with_evidence_grant
  handle_complete_evidence_upload c m db =
      as_command (in_unit_of_work env.fails (evidence_upload_operation c m) db)

  unfoldable pub policy_upload_refused :
      CompleteAgentPolicyDocumentUpload → AgentPolicyDocumentUploadGrant → Bool
  unfolding policy_matches_authority policy_validate_staged_file
  policy_upload_refused c grant =
      not (is_ok (policy_matches_authority grant c.authority))
      || not (
          is_ok (
            policy_validate_staged_file f grant c.document.content_length
              c.document.checksum_sha256))
      || not (c.policy_id == grant.policy_id)
      || not (owner_eq c.document.owner (policy grant.policy_id))

  unfoldable pub store_policy_upload :
      CompleteAgentPolicyDocumentUpload
      → ExecutionMetadata
      → AgentPolicyDocumentUploadGrant
      → Database Value
      → Result (CompleteAgentPolicyDocumentUploadOutcome × Database Value) PersistenceError
  unfolding create_stored_document document_id policy_complete save_policy_grant
  store_policy_upload c m grant db = do
    made ←
        create_stored_document s u env (codes "validated machine policy document is invalid")
          (policy_identity grant.policy_id c.document_id) c.grant.workspace_id
          c.grant.issued_by_user_id c.document c.completed_at m db
    completed ←
        map_err
          (λ _. invariant_violation (codes "policy machine upload grant changed during completion"))
          (policy_complete grant (document_id made.0.identity) c.completed_at)
    ok (completion_created made.0, save_policy_grant completed made.1)

  unfoldable pub eligible_policy_upload :
      CompleteAgentPolicyDocumentUpload
      → ExecutionMetadata
      → AgentPolicyDocumentUploadGrant
      → Database Value
      → Option PolicyDocumentUploadEligibility
      → Result (CompleteAgentPolicyDocumentUploadOutcome × Database Value) PersistenceError
  unfolding store_policy_upload
  eligible_policy_upload c m grant db none = ok (completion_unavailable, db)
  eligible_policy_upload c m grant db (some current_document) = ok (completion_current_document, db)
  eligible_policy_upload c m grant db (some eligible) = store_policy_upload c m grant db

  unfoldable pub continue_policy_upload :
      CompleteAgentPolicyDocumentUpload
      → ExecutionMetadata
      → AgentPolicyDocumentUploadGrant
      → Database Value
      → Result (Option DocumentId) AgentPolicyDocumentUploadGrantError
      → Result (CompleteAgentPolicyDocumentUploadOutcome × Database Value) PersistenceError
  unfolding lock_document_upload_eligibility eligible_policy_upload
  continue_policy_upload c m grant db (ok (some done)) = ok (completion_replayed done, db)
  continue_policy_upload c m grant db (err _) = ok (completion_unavailable, db)
  continue_policy_upload c m grant db (ok none) =
      eligible_policy_upload c m grant db
        (lock_document_upload_eligibility c.grant.workspace_id grant.policy_id db)

  unfoldable pub with_policy_grant :
      CompleteAgentPolicyDocumentUpload
      → ExecutionMetadata
      → Database Value
      → Option AgentPolicyDocumentUploadGrant
      → Result (CompleteAgentPolicyDocumentUploadOutcome × Database Value) PersistenceError
  unfolding policy_upload_refused policy_completed_document_at continue_policy_upload
  with_policy_grant c m db none = ok (completion_unavailable, db)
  with_policy_grant c m db (some grant) =
      if policy_upload_refused c grant
      then ok (completion_unavailable, db)
      else continue_policy_upload c m grant db (policy_completed_document_at grant c.completed_at)

  unfoldable pub handle_complete_policy_upload :
      CompleteAgentPolicyDocumentUpload
      → ExecutionMetadata
      → Database Value
      → Result CompleteAgentPolicyDocumentUploadOutcome DocumentCommandError × Database Value
  unfolding in_unit_of_work get_policy_grant with_policy_grant
  handle_complete_policy_upload c m db = as_command (
      in_unit_of_work env.fails
        (λ d. with_policy_grant c m d (get_policy_grant c.grant.id c.grant.workspace_id d)) db)
