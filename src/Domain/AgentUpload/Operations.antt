-- ===== src/Domain/AgentUpload/Operations.antt =====
-- The operations of `AgentEvidenceUploadGrant`.
use proofplane.Prelude.{
  ℕ, not, ◌&&◌, Option, none, some, ltb, leb, ◌==◌, if◌then◌else◌, is_none, ℤ, Result, ok, err,
  ◌>>=◌, ◌>>◌, map_err, guard,
}
use proofplane.Text.{Text}
use proofplane.Domain.AgentUpload.Types.{
  upload_pending, upload_completed, invalid_issuance, upload_invalid_rehydration,
  authority_mismatch, upload_expired, upload_already_completed, invalid_completion, Issuance,
  AgentEvidenceUploadGrantLifecycle, AgentEvidenceUploadGrant, AgentEvidenceUploadGrantError,
  AgentEvidenceUploadAuthority, from_declared,
}
use proofplane.Domain.DeclaredFile.Formats.{Formats}
use proofplane.Domain.DeclaredFile.Types.{validate_declared, validate_staged}
use proofplane.Domain.Ids.{DateTime, DocumentId}

unfoldable pub issue : Issuance → Result AgentEvidenceUploadGrant AgentEvidenceUploadGrantError
issue i =
    if leb i.expires_at i.issued_at
    then err invalid_issuance
    else ok (record {
      id = i.id;
      submission_id = i.submission_id;
      workspace_id = i.workspace_id;
      evidence_id = i.evidence_id;
      coverage = i.coverage;
      declaration = i.declaration;
      issued_by_user_id = i.issued_by_user_id;
      issued_via_agent_connection_id = i.issued_via_agent_connection_id;
      issued_at = i.issued_at;
      expires_at = i.expires_at;
      lifecycle = upload_pending;
    })

-- The `match` of `rehydrate` on the two stored columns.
unfoldable pub stored_lifecycle :
    (issued_at expires_at : DateTime)
    → Option DateTime
    → Option DocumentId
    → Result AgentEvidenceUploadGrantLifecycle AgentEvidenceUploadGrantError
stored_lifecycle issued_at expires_at none none = ok upload_pending
stored_lifecycle issued_at expires_at (some completed_at) (some document_id) =
    if leb issued_at completed_at && ltb completed_at expires_at
    then ok (upload_completed document_id completed_at)
    else err upload_invalid_rehydration
stored_lifecycle issued_at expires_at _ _ = err upload_invalid_rehydration

unfoldable pub rehydrate :
    Issuance
    → Option DateTime
    → Option DocumentId
    → Result AgentEvidenceUploadGrant AgentEvidenceUploadGrantError
unfolding issue stored_lifecycle
rehydrate i completed_at document_id = do
  grant ← map_err (λ _. upload_invalid_rehydration) (issue i)
  lifecycle ← stored_lifecycle i.issued_at i.expires_at completed_at document_id
  ok (record grant { lifecycle = lifecycle })

abbrev pub completed_at_of : AgentEvidenceUploadGrantLifecycle → Option DateTime
completed_at_of upload_pending = none
completed_at_of (upload_completed _ completed_at) = some completed_at

abbrev pub document_id_of : AgentEvidenceUploadGrantLifecycle → Option DocumentId
document_id_of upload_pending = none
document_id_of (upload_completed document_id _) = some document_id

abbrev pub completed_at : AgentEvidenceUploadGrant → Option DateTime
completed_at g = completed_at_of g.lifecycle

abbrev pub document_id : AgentEvidenceUploadGrant → Option DocumentId
document_id g = document_id_of g.lifecycle

unfoldable pub matches_authority :
    AgentEvidenceUploadGrant
    → AgentEvidenceUploadAuthority
    → Result (Unit {0}) AgentEvidenceUploadGrantError
matches_authority g a =
    if g.id == a.upload_id
      && g.workspace_id == a.workspace_id
      && g.evidence_id == a.evidence_id
      && g.submission_id == a.submission_id
      && g.issued_by_user_id == a.issued_by_user_id
      && g.issued_via_agent_connection_id == a.issued_via_agent_connection_id
      && g.expires_at == a.expires_at
    then ok tt
    else err authority_mismatch

unfoldable pub completed_document_at :
    AgentEvidenceUploadGrant → DateTime → Result (Option DocumentId) AgentEvidenceUploadGrantError
completed_document_at g now =
    if leb g.expires_at now then err upload_expired else ok (document_id g)

unfoldable pub ensure_pending_at :
    AgentEvidenceUploadGrant → DateTime → Result (Unit {0}) AgentEvidenceUploadGrantError
unfolding completed_document_at
ensure_pending_at g now = do
  document ← completed_document_at g now
  guard (is_none document) upload_already_completed

unfoldable pub complete :
    AgentEvidenceUploadGrant
    → DocumentId
    → DateTime
    → Result AgentEvidenceUploadGrant AgentEvidenceUploadGrantError
unfolding ensure_pending_at
complete g document at = do
  ensure_pending_at g at
  guard (not (ltb at g.issued_at)) invalid_completion
  ok (record g { lifecycle = upload_completed document at })

module _ (f : Formats) where
  unfoldable pub validate_declared_file :
      AgentEvidenceUploadGrant → Text → ℕ → Result (Unit {0}) AgentEvidenceUploadGrantError
  unfolding validate_declared from_declared
  validate_declared_file g content_type content_length =
      map_err from_declared (validate_declared f g.declaration content_type content_length)

  unfoldable pub validate_staged_file :
      AgentEvidenceUploadGrant → ℤ → Text → Result (Unit {0}) AgentEvidenceUploadGrantError
  unfolding validate_staged from_declared
  validate_staged_file g content_length checksum_sha256 =
      map_err from_declared (validate_staged f g.declaration content_length checksum_sha256)
