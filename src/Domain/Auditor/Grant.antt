-- ===== src/Domain/Auditor/Grant.antt =====
-- `AuditReviewPeriod` and `AuditorAccessGrant`.
use proofplane.Prelude.{
  not, ◌||◌, Option, none, some, ltb, leb, if◌then◌else◌, is_some, is_some_and, Result, ok, err,
  ◌>>=◌, ◌>>◌, map_err, guard,
}
use proofplane.Text.{Text}
use proofplane.Domain.Auditor.Email.{valid_normalized_email}
use proofplane.Domain.Error.{DomainError, invalid_audit_review_period}
use proofplane.Domain.Ids.{Uuid, DateTime, WorkspaceId, UserId, AgentConnectionId, Sha256Digest}

abbrev pub AuditorAccessGrantId : Type 0
AuditorAccessGrantId = Uuid

pub record AuditReviewPeriod : Type 0 where
  pub start : DateTime
  pub end : DateTime

unfoldable pub new : DateTime → DateTime → Result AuditReviewPeriod DomainError
new start end =
    if ltb end start
    then err invalid_audit_review_period
    else ok (record { start = start; end = end })

pub record AuditorAccessGrant : Type 0 where
  pub id : AuditorAccessGrantId
  pub workspace_id : WorkspaceId
  pub auditor_email : Text
  pub created_by_user_id : UserId
  pub created_via_agent_connection_id : AgentConnectionId
  pub created_at : DateTime
  pub expires_at : DateTime
  pub period : AuditReviewPeriod
  pub revoked_at : Option DateTime
  pub secret_digest : Sha256Digest

pub data AuditorAccessGrantRevocation : Type 0 where
  grant_revoked grant_already_revoked : AuditorAccessGrantRevocation

pub data AuditorAccessGrantLifecycleError : Type 0 where
  grant_invalid_issuance grant_invalid_rehydration : AuditorAccessGrantLifecycleError
  grant_unavailable grant_invalid_revocation : AuditorAccessGrantLifecycleError

-- `issue`, its arguments in a record whose `revoked_at` is not read.
unfoldable pub issue :
    AuditorAccessGrant → Result AuditorAccessGrant AuditorAccessGrantLifecycleError
unfolding valid_normalized_email
issue a =
    if leb a.expires_at a.created_at || not (valid_normalized_email a.auditor_email)
    then err grant_invalid_issuance
    else ok (record {
      id = a.id;
      workspace_id = a.workspace_id;
      auditor_email = a.auditor_email;
      created_by_user_id = a.created_by_user_id;
      created_via_agent_connection_id = a.created_via_agent_connection_id;
      created_at = a.created_at;
      expires_at = a.expires_at;
      period = a.period;
      revoked_at = none;
      secret_digest = a.secret_digest;
    })

-- `rehydrate`, its arguments in a record.
unfoldable pub rehydrate :
    AuditorAccessGrant → Result AuditorAccessGrant AuditorAccessGrantLifecycleError
unfolding issue
rehydrate a = do
  grant ← map_err (λ _. grant_invalid_rehydration) (issue a)
  guard (not (is_some_and a.revoked_at (λ at. ltb at a.created_at))) grant_invalid_rehydration
  ok (record grant { revoked_at = a.revoked_at })

unfoldable pub ensure_active_at :
    AuditorAccessGrant → DateTime → Result (Unit {0}) AuditorAccessGrantLifecycleError
ensure_active_at g now =
    if is_some g.revoked_at || leb g.expires_at now then err grant_unavailable else ok tt

unfoldable pub revoke :
    AuditorAccessGrant
    → DateTime
    → Result (AuditorAccessGrantRevocation × AuditorAccessGrant) AuditorAccessGrantLifecycleError
revoke g revoked_at =
    if is_some g.revoked_at
    then ok (grant_already_revoked, g)
    else if ltb revoked_at g.created_at
    then err grant_invalid_revocation
    else ok (grant_revoked, record g { revoked_at = some revoked_at })
