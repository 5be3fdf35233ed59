-- ===== src/Commands/Documents/Completion.antt =====
-- An upload under a grant is completed once: the same request answers the document that it created.
use proofplane.Prelude.{
  ◌<◌, ◌≡◌, refl, sym, ap, subst, ◌∙◌, false, ◌&&◌, some, ◌==◌, ==_iff, and_left, and_right, ok,
  bind-ok,
}
use proofplane.Commands.Documents.Complete.{
  evidence_upload_refused, finish_evidence_upload, continue_evidence_upload, with_evidence_grant,
  store_evidence_upload, handle_complete_evidence_upload, evidence_upload_operation,
}
use proofplane.Commands.Documents.Creation.{
  completed_grant, evidence_upload_refused-expires_at, completed_document_at-completed_grant,
  with_evidence_grant-ok, finish_evidence_upload-ok, get_evidence_grant-save_evidence_grant,
}
use proofplane.Commands.Documents.Types.{
  upload_created, CompleteAgentEvidenceUpload, upload_replayed,
}
use proofplane.Commands.Metadata.{Environment, ExecutionMetadata}
use proofplane.Commands.Transactions.{in_unit_of_work-ok}
use proofplane.Domain.AgentUpload.Operations.{matches_authority, validate_staged_file}
use proofplane.Domain.AgentUpload.Types.{AgentEvidenceUploadGrant}
use proofplane.Domain.DeclaredFile.Formats.{Formats}
use proofplane.Domain.Document.Types.{Document, document_id}
use proofplane.Domain.Ids.{DocumentId, DateTime, Uuid, WorkspaceId, EvidenceSubmissionId}
use proofplane.Messaging.Serde.{Serde}
use proofplane.Messaging.Types.{Uuids}
use proofplane.Persistence.Database.{get_evidence_grant, Database, in_unit_of_work}
use proofplane.Persistence.Saving.{find-meets}

module _ {Value : Type 0} (s : Serde Value) (u : Uuids) (f : Formats) where
  -- The guards do not look at the state of the grant, nor at the instant.
  evidence_upload_refused-completed_grant :
      (first second : Environment) (c : CompleteAgentEvidenceUpload) (g : AgentEvidenceUploadGrant)
      (id : DocumentId) (at now : DateTime)
      → evidence_upload_refused s u f second
          (record c { completed_at = now })
          (completed_grant g id at)
        ≡ evidence_upload_refused s u f first c g
  unfolding evidence_upload_refused matches_authority validate_staged_file
  evidence_upload_refused-completed_grant first second c g id at now = refl

  replay_completed :
      (second : Environment) (c : CompleteAgentEvidenceUpload) (n : ExecutionMetadata)
      (g : AgentEvidenceUploadGrant) (id : DocumentId) (at now : DateTime) (db : Database Value)
      → evidence_upload_refused s u f second
          (record c { completed_at = now })
          (completed_grant g id at)
        ≡ false
      → now < g.expires_at
      → with_evidence_grant s u f second
          (record c { completed_at = now })
          n
          db
          (some (completed_grant g id at))
        ≡ ok (upload_replayed g.submission_id id, db)
  unfolding with_evidence_grant continue_evidence_upload
  replay_completed second c n g id at now db allowed early =
      rw (allowed, completed_document_at-completed_grant g id at now early) refl

  get_evidence_grant-meets :
      (id : Uuid) (workspace : WorkspaceId) (g : AgentEvidenceUploadGrant) (db : Database Value)
      → get_evidence_grant id workspace db ≡ some g
      → (g.id ≡ id) × (g.workspace_id ≡ workspace)
  unfolding get_evidence_grant
  get_evidence_grant-meets id workspace g db h =
      let meets =
        find-meets (λ x. x.id == id && x.workspace_id == workspace) db.evidence_grants g h in
      (
        (==_iff g.id id).0 (and_left _ _ meets),
        (==_iff g.workspace_id workspace).0 (and_right _ _ meets),
      )

  -- What the store has after a creation: the grant, completed with the document.
  created_grant :
      (first : Environment) (c : CompleteAgentEvidenceUpload) (m : ExecutionMetadata)
      (db after : Database Value) (submission : EvidenceSubmissionId) (d : Document)
      → handle_complete_evidence_upload s u f first c m db
        ≡ (ok (upload_created submission d), after)
      → (g : AgentEvidenceUploadGrant) × (evidence_upload_refused s u f first c g ≡ false)
        × (submission ≡ g.submission_id)
        × (get_evidence_grant c.grant.id c.grant.workspace_id after
            ≡ some (completed_grant g (document_id d.identity) c.completed_at))
  unfolding handle_complete_evidence_upload store_evidence_upload
  created_grant first c m db after submission d h =
      let (_, operation) =
        in_unit_of_work-ok first.fails (evidence_upload_operation s u f first c m) db after
          (upload_created submission d) h in
      let (g, found, (allowed, stores)) =
        with_evidence_grant-ok s u f first c m db
          (get_evidence_grant c.grant.id c.grant.workspace_id db) submission d after operation in
      let (made, _, finishes) =
        bind-ok _ (finish_evidence_upload s u f first c g) (upload_created submission d, after)
          stores in
      let (same, saved) =
        finish_evidence_upload-ok s u f first c g made submission d after finishes in
      let (same_id, same_workspace) =
        get_evidence_grant-meets c.grant.id c.grant.workspace_id g db found in
      (
        g,
        allowed,
        same,
        ap (get_evidence_grant c.grant.id c.grant.workspace_id) saved
            ∙ get_evidence_grant-save_evidence_grant s u f first c.grant.id c.grant.workspace_id
                (completed_grant g (document_id d.identity) c.completed_at) made.1 same_id
                same_workspace,
      )

  -- If an upload of an agent is completed and has created a document, the same request, at an
  -- instant before the expiry and with a database that works, answers Replayed with that submission
  -- and document and changes nothing in the store: no second document, no second message.
  pub handle_complete_evidence_upload_twice :
      (first second : Environment) (c : CompleteAgentEvidenceUpload) (m n : ExecutionMetadata)
      (db after : Database Value) (submission : EvidenceSubmissionId) (d : Document)
      (now : DateTime)
      → handle_complete_evidence_upload s u f first c m db
        ≡ (ok (upload_created submission d), after)
      → now < c.authority.expires_at
      → second.fails ≡ false
      → handle_complete_evidence_upload s u f second (record c { completed_at = now }) n after
        ≡ (ok (upload_replayed submission (document_id d.identity)), after)
  unfolding handle_complete_evidence_upload in_unit_of_work
  handle_complete_evidence_upload_twice first second c m n db after submission d now h early works =
      let (g, allowed, same, found) = created_grant first c m db after submission d h in
      let replays =
        replay_completed second c n g (document_id d.identity) c.completed_at now after
          (evidence_upload_refused-completed_grant first second c g (document_id d.identity)
              c.completed_at now
            ∙ allowed)
          (subst (λ e. now < e) (sym (evidence_upload_refused-expires_at s u f first c g allowed))
            early) in
      rw (works, found, replays, same) refl
