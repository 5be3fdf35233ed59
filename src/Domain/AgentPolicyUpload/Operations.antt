-- ===== src/Domain/AgentPolicyUpload/Operations.antt =====
-- The operations of `AgentPolicyDocumentUploadGrant`.
use proofplane.Prelude.{
  ℕ, not, ◌&&◌, Option, none, some, ltb, leb, ◌==◌, if◌then◌else◌, is_none, ℤ, Result, ok, err,
  ◌>>=◌, ◌>>◌, map_err, guard,
}
use proofplane.Text.{Text}
use proofplane.Domain.AgentPolicyUpload.Types.{
  policy_upload_pending, policy_upload_completed, policy_upload_expired,
  policy_upload_already_completed, policy_upload_invalid_completion, Issuance, Lifecycle,
  AgentPolicyDocumentUploadGrant, AgentPolicyDocumentUploadGrantError,
  AgentPolicyDocumentUploadAuthority, from_declared, policy_upload_invalid_issuance,
  policy_upload_invalid_rehydration, policy_upload_authority_mismatch,
}
use proofplane.Domain.DeclaredFile.Formats.{Formats}
use proofplane.Domain.DeclaredFile.Types.{validate_declared, validate_staged}
use proofplane.Domain.Ids.{DateTime, DocumentId}

unfoldable pub issue :
    Issuance → Result AgentPolicyDocumentUploadGrant AgentPolicyDocumentUploadGrantError
issue i =
    if leb i.expires_at i.issued_at
    then err policy_upload_invalid_issuance
    else ok (record {
      id = i.id;
      workspace_id = i.workspace_id;
      policy_id = i.policy_id;
      declaration = i.declaration;
      issued_by_user_id = i.issued_by_user_id;
      issued_via_agent_connection_id = i.issued_via_agent_connection_id;
      issued_at = i.issued_at;
      expires_at = i.expires_at;
      lifecycle = policy_upload_pending;
    })

-- The `match` of `rehydrate` on the two stored columns.
unfoldable pub stored_lifecycle :
    (issued_at expires_at : DateTime)
    → Option DateTime
    → Option DocumentId
    → Result Lifecycle AgentPolicyDocumentUploadGrantError
stored_lifecycle issued_at expires_at none none = ok policy_upload_pending
stored_lifecycle issued_at expires_at (some completed_at) (some document_id) =
    if leb issued_at completed_at && ltb completed_at expires_at
    then ok (policy_upload_completed document_id completed_at)
    else err policy_upload_invalid_rehydration
stored_lifecycle issued_at expires_at _ _ = err policy_upload_invalid_rehydration

unfoldable pub rehydrate :
    Issuance
    → Option DateTime
    → Option DocumentId
    → Result AgentPolicyDocumentUploadGrant AgentPolicyDocumentUploadGrantError
unfolding issue stored_lifecycle
rehydrate i completed_at document_id = do
  grant ← map_err (λ _. policy_upload_invalid_rehydration) (issue i)
  lifecycle ← stored_lifecycle i.issued_at i.expires_at completed_at document_id
  ok (record grant { lifecycle = lifecycle })

abbrev pub completed_at_of : Lifecycle → Option DateTime
completed_at_of policy_upload_pending = none
completed_at_of (policy_upload_completed _ completed_at) = some completed_at

abbrev pub document_id_of : Lifecycle → Option DocumentId
document_id_of policy_upload_pending = none
document_id_of (policy_upload_completed document_id _) = some document_id

abbrev pub completed_at : AgentPolicyDocumentUploadGrant → Option DateTime
completed_at g = completed_at_of g.lifecycle

abbrev pub document_id : AgentPolicyDocumentUploadGrant → Option DocumentId
document_id g = document_id_of g.lifecycle

unfoldable pub matches_authority :
    AgentPolicyDocumentUploadGrant
    → AgentPolicyDocumentUploadAuthority
    → Result (Unit {0}) AgentPolicyDocumentUploadGrantError
matches_authority g a =
    if g.id == a.upload_id
      && g.workspace_id == a.workspace_id
      && g.policy_id == a.policy_id
      && g.issued_by_user_id == a.issued_by_user_id
      && g.issued_via_agent_connection_id == a.issued_via_agent_connection_id
      && g.expires_at == a.expires_at
    then ok tt
    else err policy_upload_authority_mismatch

unfoldable pub completed_document_at :
    AgentPolicyDocumentUploadGrant
    → DateTime
    → Result (Option DocumentId) AgentPolicyDocumentUploadGrantError
completed_document_at g now =
    if leb g.expires_at now then err policy_upload_expired else ok (document_id g)

unfoldable pub ensure_pending_at :
    AgentPolicyDocumentUploadGrant
    → DateTime
    → Result (Unit {0}) AgentPolicyDocumentUploadGrantError
unfolding completed_document_at
ensure_pending_at g now = do
  document ← completed_document_at g now
  guard (is_none document) policy_upload_already_completed

unfoldable pub complete :
    AgentPolicyDocumentUploadGrant
    → DocumentId
    → DateTime
    → Result AgentPolicyDocumentUploadGrant AgentPolicyDocumentUploadGrantError
unfolding ensure_pending_at
complete g document at = do
  ensure_pending_at g at
  guard (not (ltb at g.issued_at)) policy_upload_invalid_completion
  ok (record g { lifecycle = policy_upload_completed document at })

module _ (f : Formats) where
  unfoldable pub validate_declared_file :
      AgentPolicyDocumentUploadGrant
      → Text
      → ℕ
      → Result (Unit {0}) AgentPolicyDocumentUploadGrantError
  unfolding validate_declared from_declared
  validate_declared_file g content_type content_length =
      map_err from_declared (validate_declared f g.declaration content_type content_length)

  unfoldable pub validate_staged_file :
      AgentPolicyDocumentUploadGrant
      → ℤ
      → Text
      → Result (Unit {0}) AgentPolicyDocumentUploadGrantError
  unfolding validate_staged from_declared
  validate_staged_file g content_length checksum_sha256 =
      map_err from_declared (validate_staged f g.declaration content_length checksum_sha256)
