-- ===== src/Commands/Documents/Worker.antt =====
-- The commands of the worker on documents, and the archival.
use proofplane.Prelude.{not, Option, none, some, if◌then◌else◌, Result, ok, err, ◌>>=◌}
use proofplane.Text.{text_eq, codes}
use proofplane.Commands.Documents.Messages.{append_transition_message, as_command}
use proofplane.Commands.Documents.Types.{
  clean_result, malicious_result, failed_result, archive_archived, archive_replayed,
  archive_unavailable, archive_not_terminal, command_ignored, command_unavailable,
  outcome_of_transition, ScanDocument, FinalizeDocument, ArchiveDocumentOutcome, ScanDocumentResult,
  DocumentCommandOutcome, DocumentCommandError, ArchiveDocument,
}
use proofplane.Commands.Metadata.{Environment, ExecutionMetadata}
use proofplane.Domain.Document.Lifecycle.{
  scan_clean, finalize_uploaded, archive, scan_malicious, scan_failed,
}
use proofplane.Domain.Document.Types.{
  DocumentOwner, DocumentTransitionOutcome, evidence_submission, policy, created, scanned,
  finalized, archived_now, ignored, rejected, changed, Document, document_id, DocumentTransition,
  owner_of,
}
use proofplane.Domain.Permission.Bits.{has}
use proofplane.Domain.Permission.Names.{
  WorkspacePermission, write_evidence, write_evidence_submissions,
}
use proofplane.Messaging.Serde.{Serde}
use proofplane.Messaging.Types.{Uuids}
use proofplane.Outbox.Rows.{PersistenceError, invariant_violation}
use proofplane.Persistence.Database.{
  save_document, in_unit_of_work, get_document, Database, get_workspace_document,
}

module _ {Value : Type 0} (s : Serde Value) (u : Uuids) (env : Environment) where
  unfoldable pub scanned_document : ScanDocumentResult → Document → Document × DocumentTransition
  unfolding scan_clean scan_malicious scan_failed
  scanned_document clean_result d = scan_clean d
  scanned_document malicious_result d = scan_malicious d
  scanned_document failed_result d = scan_failed d

  -- What is stored after a transition, with its message, where it has changed the document.
  unfoldable pub store_transition :
      Document × DocumentTransition
      → ExecutionMetadata
      → Database Value
      → Result (Database Value) PersistenceError
  unfolding save_document append_transition_message changed
  store_transition (d, t) m db =
      if changed t
      then save_document d db >>= append_transition_message s u env t.event m
      else ok db

  unfoldable pub with_outcome :
      DocumentTransitionOutcome
      → Database Value
      → Result (DocumentCommandOutcome × Database Value) PersistenceError
  unfolding outcome_of_transition
  with_outcome outcome db = ok (outcome_of_transition outcome, db)

  unfoldable pub apply_scan :
      ScanDocument
      → ExecutionMetadata
      → Database Value
      → Option Document
      → Result (DocumentCommandOutcome × Database Value) PersistenceError
  unfolding scanned_document store_transition with_outcome
  apply_scan c m db none = ok (command_ignored, db)
  apply_scan c m db (some d) =
      if not (text_eq d.object_key c.object_key)
      then ok (command_ignored, db)
      else store_transition (scanned_document c.result d) m db
        >>= with_outcome (scanned_document c.result d).1.outcome

  -- The closure that the transaction runs.
  abbrev pub scan_operation :
      ScanDocument
      → ExecutionMetadata
      → Database Value
      → Result (DocumentCommandOutcome × Database Value) PersistenceError
  scan_operation c m db =
      apply_scan c m db (get_document (document_id c.identity) (owner_of c.identity) db)

  unfoldable pub handle_scan_document :
      ScanDocument
      → ExecutionMetadata
      → Database Value
      → Result DocumentCommandOutcome DocumentCommandError × Database Value
  unfolding in_unit_of_work apply_scan get_document document_id owner_of
  handle_scan_document c m db = as_command (in_unit_of_work env.fails (scan_operation c m) db)

  -- A finalization has no message.
  unfoldable pub store_change :
      Document × DocumentTransition → Database Value → Result (Database Value) PersistenceError
  unfolding save_document changed
  store_change (d, t) db = if changed t then save_document d db else ok db

  unfoldable pub apply_finalization :
      FinalizeDocument
      → Database Value
      → Option Document
      → Result (DocumentCommandOutcome × Database Value) PersistenceError
  unfolding finalize_uploaded store_change with_outcome
  apply_finalization c db none = ok (command_ignored, db)
  apply_finalization c db (some d) =
      if not (text_eq d.object_key c.quarantine_object_key)
      then ok (command_ignored, db)
      else store_change (finalize_uploaded d c.final_object_key) db
        >>= with_outcome (finalize_uploaded d c.final_object_key).1.outcome

  abbrev pub finalization_operation :
      FinalizeDocument
      → Database Value
      → Result (DocumentCommandOutcome × Database Value) PersistenceError
  finalization_operation c db =
      apply_finalization c db (get_document (document_id c.identity) (owner_of c.identity) db)

  unfoldable pub handle_finalize_document :
      FinalizeDocument
      → Database Value
      → Result DocumentCommandOutcome DocumentCommandError × Database Value
  unfolding in_unit_of_work apply_finalization get_document document_id owner_of
  handle_finalize_document c db =
      as_command (in_unit_of_work env.fails (finalization_operation c) db)

  unfoldable pub archive_permission : DocumentOwner → WorkspacePermission
  archive_permission (evidence_submission _) = write_evidence_submissions
  archive_permission (policy _) = write_evidence

  unfoldable pub archive_outcome :
      DocumentTransitionOutcome → Result ArchiveDocumentOutcome PersistenceError
  archive_outcome archived_now = ok archive_archived
  archive_outcome ignored = ok archive_replayed
  archive_outcome rejected = ok archive_not_terminal
  archive_outcome created =
      err (invariant_violation (codes "archive transition returned an unrelated outcome"))
  archive_outcome scanned =
      err (invariant_violation (codes "archive transition returned an unrelated outcome"))
  archive_outcome finalized =
      err (invariant_violation (codes "archive transition returned an unrelated outcome"))

  unfoldable pub apply_archive :
      Database Value
      → Option Document
      → Result (ArchiveDocumentOutcome × Database Value) PersistenceError
  unfolding archive store_change archive_outcome
  apply_archive db none = ok (archive_unavailable, db)
  apply_archive db (some d) = do
    after ← store_change (archive d) db
    outcome ← archive_outcome (archive d).1.outcome
    ok (outcome, after)

  unfoldable pub handle_archive_document :
      ArchiveDocument
      → Database Value
      → Result ArchiveDocumentOutcome DocumentCommandError × Database Value
  unfolding in_unit_of_work apply_archive get_workspace_document document_id owner_of has
      archive_permission
  handle_archive_document c db =
      if not (has c.connection.permissions (archive_permission (owner_of c.identity)))
      then (err command_unavailable, db)
      else (as_command (
          in_unit_of_work env.fails
            (λ d. apply_archive d (
              get_workspace_document c.connection.workspace_id (document_id c.identity)
                (owner_of c.identity) d))
            db))
