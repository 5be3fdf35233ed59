-- ===== src/Domain/BrowserUpload/Evidence.antt =====
-- src/domain/evidence_document_upload_grant.rs: the grant by which a browser uploads one document
-- for a piece of evidence, and its single use.
use proofplane.Prelude.{
  ◌≤◌, ◌<◌, ◌≡◌, ◌↔◌, true, false, not, ◌&&◌, ◌||◌, Option, none, some, arith, ltb, leb, ◌==◌,
  if◌then◌else◌, ==_iff, is_some, is_some_and, Result, ok, err, ◌>>=◌, ◌>>◌, map_err, guard, is_ok,
}
use proofplane.Domain.Ids.{DateTime, WorkspaceId, EvidenceId, UserId, AgentConnectionId}
use proofplane.Domain.Submission.{DocumentUploadGrantId, window_eq, CoverageWindow}

pub record EvidenceDocumentUploadGrantAuthority : Type 0 where
  pub id : DocumentUploadGrantId
  pub workspace_id : WorkspaceId
  pub evidence_id : EvidenceId
  pub coverage : CoverageWindow
  pub issued_by_user_id : UserId
  pub issued_via_agent_connection_id : AgentConnectionId
  pub expires_at : DateTime

pub record EvidenceDocumentUploadGrant : Type 0 where
  pub id : DocumentUploadGrantId
  pub workspace_id : WorkspaceId
  pub evidence_id : EvidenceId
  pub coverage : CoverageWindow
  pub issued_by_user_id : UserId
  pub issued_via_agent_connection_id : AgentConnectionId
  pub issued_at : DateTime
  pub expires_at : DateTime
  pub redeemed_at : Option DateTime

pub data EvidenceDocumentUploadGrantError : Type 0 where
  evidence_invalid_issuance evidence_invalid_rehydration evidence_authority_mismatch :
      EvidenceDocumentUploadGrantError
  evidence_expired evidence_already_redeemed : EvidenceDocumentUploadGrantError

-- `issue`, its arguments in a record whose `redeemed_at` is not read.
unfoldable pub issue :
    EvidenceDocumentUploadGrant
    → Result EvidenceDocumentUploadGrant EvidenceDocumentUploadGrantError
issue a =
    if leb a.expires_at a.issued_at
    then err evidence_invalid_issuance
    else ok (record {
      id = a.id;
      workspace_id = a.workspace_id;
      evidence_id = a.evidence_id;
      coverage = a.coverage;
      issued_by_user_id = a.issued_by_user_id;
      issued_via_agent_connection_id = a.issued_via_agent_connection_id;
      issued_at = a.issued_at;
      expires_at = a.expires_at;
      redeemed_at = none;
    })

-- `rehydrate`, its arguments in a record.
unfoldable pub rehydrate :
    EvidenceDocumentUploadGrant
    → Result EvidenceDocumentUploadGrant EvidenceDocumentUploadGrantError
unfolding issue
rehydrate a = do
  grant ← map_err (λ _. evidence_invalid_rehydration) (issue a)
  guard (not (is_some_and a.redeemed_at (λ at. ltb at grant.issued_at || leb grant.expires_at at)))
      evidence_invalid_rehydration
  ok (record grant { redeemed_at = a.redeemed_at })

unfoldable pub matches_authority :
    EvidenceDocumentUploadGrant
    → EvidenceDocumentUploadGrantAuthority
    → Result (Unit {0}) EvidenceDocumentUploadGrantError
matches_authority g a =
    if g.id == a.id
      && g.workspace_id == a.workspace_id
      && g.evidence_id == a.evidence_id
      && window_eq g.coverage a.coverage
      && g.issued_by_user_id == a.issued_by_user_id
      && g.issued_via_agent_connection_id == a.issued_via_agent_connection_id
      && g.expires_at == a.expires_at
    then ok tt
    else err evidence_authority_mismatch

unfoldable pub redeem :
    EvidenceDocumentUploadGrant
    → EvidenceDocumentUploadGrantAuthority
    → DateTime
    → Result EvidenceDocumentUploadGrant EvidenceDocumentUploadGrantError
unfolding matches_authority
redeem g authority redeemed_at = do
  matches_authority g authority
  guard (not (is_some g.redeemed_at)) evidence_already_redeemed
  guard (not (ltb redeemed_at g.issued_at || leb g.expires_at redeemed_at)) evidence_expired
  ok (record g { redeemed_at = some redeemed_at })

-- The token that is minted for a grant.
abbrev pub authority_of : EvidenceDocumentUploadGrant → EvidenceDocumentUploadGrantAuthority
authority_of g = record {
  id = g.id;
  workspace_id = g.workspace_id;
  evidence_id = g.evidence_id;
  coverage = g.coverage;
  issued_by_user_id = g.issued_by_user_id;
  issued_via_agent_connection_id = g.issued_via_agent_connection_id;
  expires_at = g.expires_at;
}

window_eq_iff : (a b : CoverageWindow) → (window_eq a b ≡ true) ↔ (a ≡ b)
window_eq_iff a b = (
  λ h. ground (arith, ==_iff a.valid_from b.valid_from, ==_iff a.valid_until b.valid_until),
  λ h. ground (arith, ==_iff a.valid_from b.valid_from, ==_iff a.valid_until b.valid_until),
)

authority_lem :
    (g : EvidenceDocumentUploadGrant) (a : EvidenceDocumentUploadGrantAuthority)
    → (is_ok (matches_authority g a) ≡ true) ↔ (a ≡ authority_of g)
unfolding matches_authority
authority_lem g a = (
  λ h. ground (
    arith,
    ==_iff g.id a.id,
    ==_iff g.workspace_id a.workspace_id,
    ==_iff g.evidence_id a.evidence_id,
    window_eq_iff g.coverage a.coverage,
    ==_iff g.issued_by_user_id a.issued_by_user_id,
    ==_iff g.issued_via_agent_connection_id a.issued_via_agent_connection_id,
    ==_iff g.expires_at a.expires_at,
  ),
  λ h. ground (
    arith,
    ==_iff g.id a.id,
    ==_iff g.workspace_id a.workspace_id,
    ==_iff g.evidence_id a.evidence_id,
    window_eq_iff g.coverage a.coverage,
    ==_iff g.issued_by_user_id a.issued_by_user_id,
    ==_iff g.issued_via_agent_connection_id a.issued_via_agent_connection_id,
    ==_iff g.expires_at a.expires_at,
  ),
)

redeem_lem :
    (m : Result (Unit {0}) EvidenceDocumentUploadGrantError) (g h : EvidenceDocumentUploadGrant)
    (at : DateTime)
    → ((m
          >> (guard (not (is_some g.redeemed_at)) evidence_already_redeemed
              >> (guard (not (ltb at g.issued_at || leb g.expires_at at)) evidence_expired
                  >> ok (record g { redeemed_at = some at }))))
        ≡ ok h)
      ↔ ((is_ok m ≡ true)
          × (g.redeemed_at ≡ none)
          × (g.issued_at ≤ at)
          × (at < g.expires_at)
          × (h ≡ (record g { redeemed_at = some at })))
redeem_lem (err e) g h at = (λ q. ground arith, λ q. ground arith)
redeem_lem (ok u) g h at = (λ q. ground arith, λ q. ground arith)

-- redeem succeeds exactly for the authority that has the grant's own fields, if the grant has not
-- been redeemed, from its issuance on and before its expiry; then it sets redeemed_at and nothing
-- else.
pub evidence_redeem_iff :
    (g h : EvidenceDocumentUploadGrant) (a : EvidenceDocumentUploadGrantAuthority) (at : DateTime)
    → (redeem g a at ≡ ok h) ↔ (
        (a ≡ authority_of g)
        × (g.redeemed_at ≡ none)
        × (g.issued_at ≤ at)
        × (at < g.expires_at)
        × (h ≡ (record g { redeemed_at = some at })))
unfolding redeem
evidence_redeem_iff g h a at = (
  λ e.
      let (m, n, l, u, q) = (redeem_lem (matches_authority g a) g h at).0 e in
      ((authority_lem g a).0 m, n, l, u, q),
  λ (m, n, l, u, q).
      (redeem_lem (matches_authority g a) g h at).1 ((authority_lem g a).1 m, n, l, u, q),
)

rehydrate_redeemed :
    (g : EvidenceDocumentUploadGrant) (at : DateTime)
    → g.issued_at ≤ at
    → at < g.expires_at
    → rehydrate (record g { redeemed_at = some at }) ≡ ok (record g { redeemed_at = some at })
unfolding rehydrate
rehydrate_redeemed g at l u = ground arith

redeem_again :
    (g : EvidenceDocumentUploadGrant) (at : DateTime) (a : EvidenceDocumentUploadGrantAuthority)
    (later : DateTime)
    → is_ok (redeem (record g { redeemed_at = some at }) a later) ≡ false
unfolding redeem
redeem_again g at a later = ground arith

-- If redeem succeeds, rehydrate accepts the stored result and gives it back as it is, and redeem
-- fails on it for every authority and every instant.
pub evidence_redeem_once :
    (g h : EvidenceDocumentUploadGrant) (a : EvidenceDocumentUploadGrantAuthority) (at : DateTime)
    → (redeem g a at ≡ ok h)
    → (rehydrate h ≡ ok h)
      × ((b : EvidenceDocumentUploadGrantAuthority) (later : DateTime)
          → is_ok (redeem h b later) ≡ false)
evidence_redeem_once g h a at e =
    let (_, _, l, u, q) = (evidence_redeem_iff g h a at).0 e in
    rw q (rehydrate_redeemed g at l u, redeem_again g at)
