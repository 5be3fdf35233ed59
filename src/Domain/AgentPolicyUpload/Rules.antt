-- ===== src/Domain/AgentPolicyUpload/Rules.antt =====
-- When a grant is completed and by which token, and that it is completed once.
use proofplane.Prelude.{◌≤◌, ◌<◌, ◌≡◌, refl, ◌↔◌, true, false, arith, leb, ==_iff, ok, is_ok}
use proofplane.Domain.AgentPolicyUpload.Operations.{
  matches_authority, complete, stored_lifecycle, rehydrate, completed_at, completed_at_of,
  document_id, document_id_of,
}
use proofplane.Domain.AgentPolicyUpload.Types.{
  policy_upload_pending, policy_upload_completed, AgentPolicyDocumentUploadGrant,
  AgentPolicyDocumentUploadAuthority, Lifecycle, Issuance,
}
use proofplane.Domain.Ids.{DateTime, DocumentId}

-- The token that is minted for a grant.
abbrev pub authority_of : AgentPolicyDocumentUploadGrant → AgentPolicyDocumentUploadAuthority
authority_of g = record {
  upload_id = g.id;
  workspace_id = g.workspace_id;
  policy_id = g.policy_id;
  issued_by_user_id = g.issued_by_user_id;
  issued_via_agent_connection_id = g.issued_via_agent_connection_id;
  expires_at = g.expires_at;
}

-- matches_authority succeeds exactly for the authority that has the grant's own seven fields.
pub matches_policy_authority_iff :
    (g : AgentPolicyDocumentUploadGrant) (a : AgentPolicyDocumentUploadAuthority)
    → (is_ok (matches_authority g a) ≡ true) ↔ (a ≡ authority_of g)
unfolding matches_authority
matches_policy_authority_iff g a = (
  λ h. ground (
    arith,
    ==_iff g.id a.upload_id,
    ==_iff g.workspace_id a.workspace_id,
    ==_iff g.policy_id a.policy_id,
    ==_iff g.issued_by_user_id a.issued_by_user_id,
    ==_iff g.issued_via_agent_connection_id a.issued_via_agent_connection_id,
    ==_iff g.expires_at a.expires_at,
  ),
  λ h. ground (
    arith,
    ==_iff g.id a.upload_id,
    ==_iff g.workspace_id a.workspace_id,
    ==_iff g.policy_id a.policy_id,
    ==_iff g.issued_by_user_id a.issued_by_user_id,
    ==_iff g.issued_via_agent_connection_id a.issued_via_agent_connection_id,
    ==_iff g.expires_at a.expires_at,
  ),
)

-- complete succeeds exactly on a pending grant, from its issuance on and before its expiry; then it
-- records the document and the instant and changes nothing else.
pub complete_policy_iff :
    (g h : AgentPolicyDocumentUploadGrant) (document : DocumentId) (at : DateTime)
    → (complete g document at ≡ ok h) ↔ (
        (g.lifecycle ≡ policy_upload_pending)
        × (g.issued_at ≤ at)
        × (at < g.expires_at)
        × (h ≡ (record g { lifecycle = policy_upload_completed document at })))
unfolding complete
complete_policy_iff g h document at = (λ e. ground arith, λ e. ground arith)

-- A completion that lies in the window of the grant.
abbrev pub Within : (from to : DateTime) → Lifecycle → Type 0
Within from to policy_upload_pending = Unit
Within from to (policy_upload_completed _ at) = (from ≤ at) × (at < to)

pub record IsValid (g : AgentPolicyDocumentUploadGrant) : Type 0 where
  pub window : g.issued_at < g.expires_at
  pub completed_within : Within g.issued_at g.expires_at g.lifecycle

-- The columns that are stored for a grant.
abbrev pub issuance_of : AgentPolicyDocumentUploadGrant → Issuance
issuance_of g = record {
  id = g.id;
  workspace_id = g.workspace_id;
  policy_id = g.policy_id;
  declaration = g.declaration;
  issued_by_user_id = g.issued_by_user_id;
  issued_via_agent_connection_id = g.issued_via_agent_connection_id;
  issued_at = g.issued_at;
  expires_at = g.expires_at;
}

lifecycle_back :
    (a b : DateTime) (l : Lifecycle)
    → Within a b l
    → stored_lifecycle a b (completed_at_of l) (document_id_of l) ≡ ok l
unfolding stored_lifecycle
lifecycle_back a b policy_upload_pending h = refl
lifecycle_back a b (policy_upload_completed d t) h = ground arith

pub IsValid-rehydrate :
    (g : AgentPolicyDocumentUploadGrant)
    → IsValid g
    → rehydrate (issuance_of g) (completed_at g) (document_id g) ≡ ok g
unfolding rehydrate
IsValid-rehydrate g h =
    let w : leb g.expires_at g.issued_at ≡ false = ground (arith, h.window) in
    let l = lifecycle_back g.issued_at g.expires_at g.lifecycle h.completed_within in rw (w, l)
