-- ===== src/Commands/Documents/Creation.antt =====
-- What the store has after an upload under a grant has created a document.
use proofplane.Prelude.{
  ◌<◌, ◌≡◌, refl, sym, ap, ◌∙◌, ◌⊎◌, inl, inr, true, false, not, ◌&&◌, ◌||◌, Option, none, some,
  arith, ◌==◌, Bool-cases, is_some, Result, ok, err, map_err, is_ok, bind-ok, ok-injective,
  map_err-ok,
}
use proofplane.Text.{codes}
use proofplane.Commands.Documents.Complete.{
  evidence_upload_refused, finish_evidence_upload, continue_evidence_upload, with_evidence_grant,
  store_evidence_upload,
}
use proofplane.Commands.Documents.Types.{
  upload_created, CompleteAgentEvidenceUpload, upload_replayed, upload_unavailable,
  CompleteAgentEvidenceUploadOutcome,
}
use proofplane.Commands.Metadata.{Environment, ExecutionMetadata}
use proofplane.Domain.AgentUpload.Operations.{
  matches_authority, completed_document_at, complete, ensure_pending_at,
}
use proofplane.Domain.AgentUpload.Types.{
  AgentEvidenceUploadGrant, upload_completed, AgentEvidenceUploadAuthority,
  AgentEvidenceUploadGrantError,
}
use proofplane.Domain.DeclaredFile.Formats.{Formats}
use proofplane.Domain.Document.Types.{Document, document_id}
use proofplane.Domain.Ids.{DocumentId, DateTime, Uuid, WorkspaceId, EvidenceSubmissionId}
use proofplane.Messaging.Serde.{Serde}
use proofplane.Messaging.Types.{Uuids}
use proofplane.Outbox.Rows.{invariant_violation, PersistenceError}
use proofplane.Persistence.Database.{
  get_evidence_grant, save_evidence_grant, Database, has_evidence, get_submission,
}
use proofplane.Persistence.Saving.{find-upsert}

abbrev pub completed_grant :
    AgentEvidenceUploadGrant → DocumentId → DateTime → AgentEvidenceUploadGrant
completed_grant g id at = record g { lifecycle = upload_completed id at }

complete-completed_grant :
    (g v : AgentEvidenceUploadGrant) (id : DocumentId) (at : DateTime)
    → complete g id at ≡ ok v
    → v ≡ completed_grant g id at
unfolding complete ensure_pending_at completed_document_at
complete-completed_grant g v id at h = ground arith

pub completed_document_at-completed_grant :
    (g : AgentEvidenceUploadGrant) (id : DocumentId) (at now : DateTime)
    → now < g.expires_at
    → completed_document_at (completed_grant g id at) now ≡ ok (some id)
unfolding completed_document_at
completed_document_at-completed_grant g id at now h = ground arith

matches_authority-expires_at :
    (g : AgentEvidenceUploadGrant) (a : AgentEvidenceUploadAuthority)
    → is_ok (matches_authority g a) ≡ true
    → g.expires_at ≡ a.expires_at
unfolding matches_authority
matches_authority-expires_at g a h = ground arith

module _ {Value : Type 0} (s : Serde Value) (u : Uuids) (f : Formats) (env : Environment) where
  pub evidence_upload_refused-expires_at :
      (c : CompleteAgentEvidenceUpload) (g : AgentEvidenceUploadGrant)
      → evidence_upload_refused s u f env c g ≡ false
      → g.expires_at ≡ c.authority.expires_at
  unfolding evidence_upload_refused
  evidence_upload_refused-expires_at c g h =
      matches_authority-expires_at g c.authority (ground arith)

  pub get_evidence_grant-save_evidence_grant :
      (id : Uuid) (workspace : WorkspaceId) (g : AgentEvidenceUploadGrant) (db : Database Value)
      → g.id ≡ id
      → g.workspace_id ≡ workspace
      → get_evidence_grant id workspace (save_evidence_grant g db) ≡ some g
  unfolding get_evidence_grant save_evidence_grant
  get_evidence_grant-save_evidence_grant id workspace g db e k =
      find-upsert (λ x. g.id == x.id) (λ x. x.id == id && x.workspace_id == workspace) g
        db.evidence_grants (ground arith) (λ x h. ground arith)

  created_fields :
      (a b : EvidenceSubmissionId) (x y : Document)
      → upload_created a x ≡ upload_created b y
      → (a ≡ b) × (x ≡ y)
  created_fields a b x y h = ground arith

  pub finish_evidence_upload-ok :
      (c : CompleteAgentEvidenceUpload) (g : AgentEvidenceUploadGrant)
      (made : Document × Database Value) (submission : EvidenceSubmissionId) (d : Document)
      (after : Database Value)
      → finish_evidence_upload s u f env c g made ≡ ok (upload_created submission d, after)
      → (submission ≡ g.submission_id)
        × (after
            ≡ save_evidence_grant
                (completed_grant g (document_id d.identity) c.completed_at)
                made.1)
  unfolding finish_evidence_upload
  finish_evidence_upload-ok c g made submission d after h =
      let (v, completes, k) =
        bind-ok
          (map_err
            (λ _. invariant_violation (codes "machine upload grant changed during completion"))
            (complete g (document_id made.0.identity) c.completed_at))
          _ (upload_created submission d, after) h in
      let pair =
        ok-injective (upload_created g.submission_id made.0, save_evidence_grant v made.1)
          (upload_created submission d, after) k in
      let (same_submission, same_document) = created_fields _ _ made.0 d (ap (λ p. p.0) pair) in
      let same_grant = complete-completed_grant g v _ c.completed_at (map_err-ok _ _ v completes) in
      (
        sym same_submission,
        sym (ap (λ p. p.1) pair)
            ∙ ap (λ x. save_evidence_grant x made.1) same_grant
            ∙ ap
                (λ x.
                  save_evidence_grant (completed_grant g (document_id x.identity) c.completed_at)
                    made.1)
                same_document,
      )

  -- An outcome other than a creation is none.
  not_created :
      {P : Type 0} (outcome : CompleteAgentEvidenceUploadOutcome)
      (submission : EvidenceSubmissionId) (d : Document) (db after : Database Value)
      → (outcome ≡ upload_unavailable)
        ⊎ ((a : EvidenceSubmissionId) × (b : DocumentId) × (outcome ≡ upload_replayed a b))
      → ◌≡◌ {A = Result (CompleteAgentEvidenceUploadOutcome × Database Value) PersistenceError}
          (ok (outcome, db))
          (ok (upload_created submission d, after))
      → P
  not_created outcome submission d db after o h = ground arith

  continue_evidence_upload-ok :
      (c : CompleteAgentEvidenceUpload) (m : ExecutionMetadata) (g : AgentEvidenceUploadGrant)
      (db : Database Value) (completed : Result (Option DocumentId) AgentEvidenceUploadGrantError)
      (submission : EvidenceSubmissionId) (d : Document) (after : Database Value)
      → continue_evidence_upload s u f env c m g db completed
        ≡ ok (upload_created submission d, after)
      → store_evidence_upload s u f env c m g db ≡ ok (upload_created submission d, after)
  unfolding continue_evidence_upload
  continue_evidence_upload-ok c m g db (ok (some id)) submission d after h =
      not_created _ submission d db after (inr (g.submission_id, id, refl)) h
  continue_evidence_upload-ok c m g db (err e) submission d after h =
      not_created _ submission d db after (inl refl) h
  continue_evidence_upload-ok c m g db (ok none) submission d after h =
      elim (Bool-cases (
        not (has_evidence c.grant.workspace_id g.evidence_id db)
        || is_some (get_submission c.grant.workspace_id g.submission_id db))) [
          | inl stops ↦
              not_created upload_unavailable submission d db after (inl refl)
                (sym (rw stops refl) ∙ h)
          | inr goes ↦ sym (rw goes refl) ∙ h
        ]

  -- A creation under a grant that was found and whose guards hold.
  abbrev pub CreatedUnder :
      CompleteAgentEvidenceUpload
      → ExecutionMetadata
      → Database Value
      → AgentEvidenceUploadGrant
      → EvidenceSubmissionId
      → Document
      → Database Value
      → Type 0
  CreatedUnder c m db g submission d after =
      (evidence_upload_refused s u f env c g ≡ false)
      × (store_evidence_upload s u f env c m g db ≡ ok (upload_created submission d, after))

  pub with_evidence_grant-ok :
      (c : CompleteAgentEvidenceUpload) (m : ExecutionMetadata) (db : Database Value)
      (o : Option AgentEvidenceUploadGrant) (submission : EvidenceSubmissionId) (d : Document)
      (after : Database Value)
      → with_evidence_grant s u f env c m db o ≡ ok (upload_created submission d, after)
      → (g : AgentEvidenceUploadGrant) × (o ≡ some g) × CreatedUnder c m db g submission d after
  unfolding with_evidence_grant
  with_evidence_grant-ok c m db none submission d after h =
      not_created upload_unavailable submission d db after (inl refl) h
  with_evidence_grant-ok c m db (some g) submission d after h =
      elim (Bool-cases (evidence_upload_refused s u f env c g)) [
        | inl refused ↦
            not_created upload_unavailable submission d db after (inl refl)
              (sym (rw refused refl) ∙ h)
        | inr allowed ↦ (
          g,
          refl,
          (
            allowed,
            continue_evidence_upload-ok c m g db (completed_document_at g c.completed_at) submission
                d after (sym (rw allowed refl) ∙ h),
          ),
        )
      ]
