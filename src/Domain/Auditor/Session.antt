-- ===== src/Domain/Auditor/Session.antt =====
-- `AuditorSession`.
use proofplane.Prelude.{
  not, ◌||◌, Option, none, some, ltb, leb, if◌then◌else◌, is_some, is_some_and, is_empty, Result,
  ok, err, ◌>>=◌, ◌>>◌, map_err, guard,
}
use proofplane.Text.{trim, Text}
use proofplane.Domain.Auditor.Email.{valid_normalized_email}
use proofplane.Domain.Auditor.Grant.{AuditorAccessGrantId, AuditReviewPeriod}
use proofplane.Domain.Ids.{Uuid, DateTime, WorkspaceId, Sha256Digest}

abbrev pub AuditorSessionId : Type 0
AuditorSessionId = Uuid

pub record AuditorSession : Type 0 where
  pub id : AuditorSessionId
  pub grant_id : AuditorAccessGrantId
  pub workspace_id : WorkspaceId
  pub auditor_email : Text
  pub auth0_subject : Text
  pub expires_at : DateTime
  pub period : AuditReviewPeriod
  pub revoked_at : Option DateTime
  pub last_used_at : DateTime
  pub created_at : DateTime
  pub updated_at : DateTime
  pub session_digest : Sha256Digest

pub data AuditorSessionTransition : Type 0 where
  session_used session_revoked session_already_revoked : AuditorSessionTransition

pub data AuditorSessionLifecycleError : Type 0 where
  session_invalid_creation session_invalid_rehydration : AuditorSessionLifecycleError
  session_unavailable session_invalid_transition : AuditorSessionLifecycleError

-- `create`, its arguments in a record whose `revoked_at`, `last_used_at` and `updated_at` are not read.
unfoldable pub create : AuditorSession → Result AuditorSession AuditorSessionLifecycleError
unfolding trim valid_normalized_email
create a =
    if leb a.expires_at a.created_at
      || is_empty (trim a.auth0_subject)
      || not (valid_normalized_email a.auditor_email)
    then err session_invalid_creation
    else ok (record {
      id = a.id;
      grant_id = a.grant_id;
      workspace_id = a.workspace_id;
      auditor_email = a.auditor_email;
      auth0_subject = a.auth0_subject;
      expires_at = a.expires_at;
      period = a.period;
      revoked_at = none;
      last_used_at = a.created_at;
      created_at = a.created_at;
      updated_at = a.created_at;
      session_digest = a.session_digest;
    })

-- `rehydrate`, its arguments in a record.
unfoldable pub rehydrate : AuditorSession → Result AuditorSession AuditorSessionLifecycleError
unfolding create
rehydrate a = do
  session ← map_err (λ _. session_invalid_rehydration) (create a)
  guard
      (not (
        ltb a.last_used_at a.created_at
        || is_some_and a.revoked_at (λ value. ltb value a.created_at)
        || ltb a.updated_at a.created_at
        || ltb a.updated_at a.last_used_at
        || is_some_and a.revoked_at (λ value. ltb a.updated_at value)))
      session_invalid_rehydration
  ok (record session {
    revoked_at = a.revoked_at;
    last_used_at = a.last_used_at;
    updated_at = a.updated_at;
  })

unfoldable pub ensure_active_at :
    AuditorSession → DateTime → Result (Unit {0}) AuditorSessionLifecycleError
ensure_active_at s now =
    if is_some s.revoked_at || leb s.expires_at now then err session_unavailable else ok tt

unfoldable pub touch :
    AuditorSession
    → DateTime
    → Result (AuditorSessionTransition × AuditorSession) AuditorSessionLifecycleError
unfolding ensure_active_at
touch s used_at = do
  ensure_active_at s used_at
  guard (not (ltb used_at s.created_at || ltb used_at s.last_used_at)) session_invalid_transition
  ok (session_used, record s { last_used_at = used_at; updated_at = used_at })

unfoldable pub revoke :
    AuditorSession
    → DateTime
    → Result (AuditorSessionTransition × AuditorSession) AuditorSessionLifecycleError
revoke s revoked_at =
    if is_some s.revoked_at
    then ok (session_already_revoked, s)
    else if ltb revoked_at s.created_at
    then err session_invalid_transition
    else ok (session_revoked, record s { revoked_at = some revoked_at; updated_at = revoked_at })
