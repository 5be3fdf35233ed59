-- ===== src/Domain/BrowserUpload/Policy.antt =====
-- src/domain/policy_document_upload_grant.rs: the grant by which a browser uploads one document
-- for a policy, and its single use.
use proofplane.Prelude.{
  ◌≤◌, ◌<◌, ◌≡◌, ◌↔◌, true, false, not, ◌&&◌, ◌||◌, Option, none, some, arith, ltb, leb, ◌==◌,
  if◌then◌else◌, ==_iff, is_some, is_some_and, Result, ok, err, ◌>>=◌, ◌>>◌, map_err, guard, is_ok,
}
use proofplane.Domain.Ids.{Uuid, WorkspaceId, DateTime, PolicyId, UserId, AgentConnectionId}

abbrev pub PolicyDocumentUploadGrantId : Type 0
PolicyDocumentUploadGrantId = Uuid

pub record PolicyDocumentUploadGrantAuthority : Type 0 where
  pub id : PolicyDocumentUploadGrantId
  pub workspace_id : WorkspaceId
  pub policy_id : PolicyId
  pub issued_by_user_id : UserId
  pub issued_via_agent_connection_id : AgentConnectionId
  pub expires_at : DateTime

pub record PolicyDocumentUploadGrant : Type 0 where
  pub id : PolicyDocumentUploadGrantId
  pub workspace_id : WorkspaceId
  pub policy_id : PolicyId
  pub issued_by_user_id : UserId
  pub issued_via_agent_connection_id : AgentConnectionId
  pub issued_at : DateTime
  pub expires_at : DateTime
  pub redeemed_at : Option DateTime

pub data PolicyDocumentUploadGrantError : Type 0 where
  policy_invalid_issuance policy_invalid_rehydration policy_authority_mismatch :
      PolicyDocumentUploadGrantError
  policy_expired policy_already_redeemed : PolicyDocumentUploadGrantError

-- `issue`, its arguments in a record whose `redeemed_at` is not read.
unfoldable pub issue :
    PolicyDocumentUploadGrant → Result PolicyDocumentUploadGrant PolicyDocumentUploadGrantError
issue a =
    if leb a.expires_at a.issued_at
    then err policy_invalid_issuance
    else ok (record {
      id = a.id;
      workspace_id = a.workspace_id;
      policy_id = a.policy_id;
      issued_by_user_id = a.issued_by_user_id;
      issued_via_agent_connection_id = a.issued_via_agent_connection_id;
      issued_at = a.issued_at;
      expires_at = a.expires_at;
      redeemed_at = none;
    })

-- `rehydrate`, its arguments in a record.
unfoldable pub rehydrate :
    PolicyDocumentUploadGrant → Result PolicyDocumentUploadGrant PolicyDocumentUploadGrantError
unfolding issue
rehydrate a = do
  grant ← map_err (λ _. policy_invalid_rehydration) (issue a)
  guard (not (is_some_and a.redeemed_at (λ at. ltb at grant.issued_at || leb grant.expires_at at)))
      policy_invalid_rehydration
  ok (record grant { redeemed_at = a.redeemed_at })

unfoldable pub matches_authority :
    PolicyDocumentUploadGrant
    → PolicyDocumentUploadGrantAuthority
    → Result (Unit {0}) PolicyDocumentUploadGrantError
matches_authority g a =
    if g.id == a.id
      && g.workspace_id == a.workspace_id
      && g.policy_id == a.policy_id
      && g.issued_by_user_id == a.issued_by_user_id
      && g.issued_via_agent_connection_id == a.issued_via_agent_connection_id
      && g.expires_at == a.expires_at
    then ok tt
    else err policy_authority_mismatch

unfoldable pub redeem :
    PolicyDocumentUploadGrant
    → PolicyDocumentUploadGrantAuthority
    → DateTime
    → Result PolicyDocumentUploadGrant PolicyDocumentUploadGrantError
unfolding matches_authority
redeem g authority redeemed_at = do
  matches_authority g authority
  guard (not (is_some g.redeemed_at)) policy_already_redeemed
  guard (not (ltb redeemed_at g.issued_at || leb g.expires_at redeemed_at)) policy_expired
  ok (record g { redeemed_at = some redeemed_at })

-- The token that is minted for a grant.
abbrev pub authority_of : PolicyDocumentUploadGrant → PolicyDocumentUploadGrantAuthority
authority_of g = record {
  id = g.id;
  workspace_id = g.workspace_id;
  policy_id = g.policy_id;
  issued_by_user_id = g.issued_by_user_id;
  issued_via_agent_connection_id = g.issued_via_agent_connection_id;
  expires_at = g.expires_at;
}

authority_lem :
    (g : PolicyDocumentUploadGrant) (a : PolicyDocumentUploadGrantAuthority)
    → (is_ok (matches_authority g a) ≡ true) ↔ (a ≡ authority_of g)
unfolding matches_authority
authority_lem g a = (
  λ h. ground (
    arith,
    ==_iff g.id a.id,
    ==_iff g.workspace_id a.workspace_id,
    ==_iff g.policy_id a.policy_id,
    ==_iff g.issued_by_user_id a.issued_by_user_id,
    ==_iff g.issued_via_agent_connection_id a.issued_via_agent_connection_id,
    ==_iff g.expires_at a.expires_at,
  ),
  λ h. ground (
    arith,
    ==_iff g.id a.id,
    ==_iff g.workspace_id a.workspace_id,
    ==_iff g.policy_id a.policy_id,
    ==_iff g.issued_by_user_id a.issued_by_user_id,
    ==_iff g.issued_via_agent_connection_id a.issued_via_agent_connection_id,
    ==_iff g.expires_at a.expires_at,
  ),
)

redeem_lem :
    (m : Result (Unit {0}) PolicyDocumentUploadGrantError) (g h : PolicyDocumentUploadGrant)
    (at : DateTime)
    → ((m
          >> (guard (not (is_some g.redeemed_at)) policy_already_redeemed
              >> (guard (not (ltb at g.issued_at || leb g.expires_at at)) policy_expired
                  >> ok (record g { redeemed_at = some at }))))
        ≡ ok h)
      ↔ ((is_ok m ≡ true)
          × (g.redeemed_at ≡ none)
          × (g.issued_at ≤ at)
          × (at < g.expires_at)
          × (h ≡ (record g { redeemed_at = some at })))
redeem_lem (err e) g h at = (λ q. ground arith, λ q. ground arith)
redeem_lem (ok u) g h at = (λ q. ground arith, λ q. ground arith)

-- A grant is redeemed exactly by the token minted for it, if it has not been redeemed, from its
-- issuance on and before its expiry, and the instant is all that the redemption records.
pub policy_redeem_iff :
    (g h : PolicyDocumentUploadGrant) (a : PolicyDocumentUploadGrantAuthority) (at : DateTime)
    → (redeem g a at ≡ ok h) ↔ (
        (a ≡ authority_of g)
        × (g.redeemed_at ≡ none)
        × (g.issued_at ≤ at)
        × (at < g.expires_at)
        × (h ≡ (record g { redeemed_at = some at })))
unfolding redeem
policy_redeem_iff g h a at = (
  λ e.
      let (m, n, l, u, q) = (redeem_lem (matches_authority g a) g h at).0 e in
      ((authority_lem g a).0 m, n, l, u, q),
  λ (m, n, l, u, q).
      (redeem_lem (matches_authority g a) g h at).1 ((authority_lem g a).1 m, n, l, u, q),
)

rehydrate_redeemed :
    (g : PolicyDocumentUploadGrant) (at : DateTime)
    → g.issued_at ≤ at
    → at < g.expires_at
    → rehydrate (record g { redeemed_at = some at }) ≡ ok (record g { redeemed_at = some at })
unfolding rehydrate
rehydrate_redeemed g at l u = ground arith

redeem_again :
    (g : PolicyDocumentUploadGrant) (at : DateTime) (a : PolicyDocumentUploadGrantAuthority)
    (later : DateTime)
    → is_ok (redeem (record g { redeemed_at = some at }) a later) ≡ false
unfolding redeem
redeem_again g at a later = ground arith

-- For a policy's grant: if redeem succeeds, rehydrate accepts the stored result and gives it back
-- as it is, and redeem fails on it for every authority and every instant.
pub policy_redeem_once :
    (g h : PolicyDocumentUploadGrant) (a : PolicyDocumentUploadGrantAuthority) (at : DateTime)
    → (redeem g a at ≡ ok h)
    → (rehydrate h ≡ ok h)
      × ((b : PolicyDocumentUploadGrantAuthority) (later : DateTime)
          → is_ok (redeem h b later) ≡ false)
policy_redeem_once g h a at e =
    let (_, _, l, u, q) = (policy_redeem_iff g h a at).0 e in
    rw q (rehydrate_redeemed g at l u, redeem_again g at)
