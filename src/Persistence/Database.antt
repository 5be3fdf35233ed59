-- ===== src/Persistence/Database.antt =====
-- The part of the store that the commands on documents read and write, and their transactions. The rows of
-- aggregates are kept as they are read. A statement that breaks a unique key fails.
use proofplane.Prelude.{
  Bool, not, ◌&&◌, ◌||◌, Option, none, some, List, [], ◌∷◌, ◌==◌, if◌then◌else◌, any, Result, ok,
  err,
}
use proofplane.Text.{text_eq}
use proofplane.Domain.AgentPolicyUpload.Types.{AgentPolicyDocumentUploadGrant}
use proofplane.Domain.AgentUpload.Types.{AgentEvidenceUploadGrantId, AgentEvidenceUploadGrant}
use proofplane.Domain.Document.Types.{
  Document, document_id, owner_of, evidence_submission, policy, DocumentOwner, owner_eq,
}
use proofplane.Domain.Ids.{
  PolicyId, DocumentId, WorkspaceId, Uuid, EvidenceId, EvidenceSubmissionId,
}
use proofplane.Domain.Submission.{EvidenceSubmission}
use proofplane.Outbox.Rows.{PersistenceError, database}
use proofplane.Outbox.Table.{Outbox}

pub record PolicyRow : Type 0 where
  pub id : PolicyId
  pub workspace_id : WorkspaceId
  pub is_archived : Bool

pub record Database (Value : Type 0) : Type 0 where
  pub documents : List Document
  pub submissions : List EvidenceSubmission
  pub evidence : List (EvidenceId × WorkspaceId)
  pub policies : List PolicyRow
  pub evidence_grants : List AgentEvidenceUploadGrant
  pub policy_grants : List AgentPolicyDocumentUploadGrant
  pub outbox : Outbox Value

-- `query_opt`: the first row that meets a condition.
abbrev pub find {ℓ} : {A : Type ℓ} → (A → Bool) → List A → Option A
find p [] = none
find p (x ∷ xs) = let rest = find p xs in if p x then some x else rest

-- `INSERT … ON CONFLICT … DO UPDATE`
abbrev pub upsert {ℓ} : {A : Type ℓ} → (A → Bool) → A → List A → List A
upsert same a [] = a ∷ []
upsert same a (x ∷ xs) = let rest = upsert same a xs in if same x then a ∷ xs else x ∷ rest

-- A document by its id and owner.
unfoldable pub is_document : DocumentId → DocumentOwner → Document → Bool
unfolding document_id owner_of
is_document id owner d = document_id d.identity == id && owner_eq (owner_of d.identity) owner

-- Two rows break a unique index: the object key, the one document of a submission, and the one
-- document of a policy that is not archived.
unfoldable pub same_owner_key : Document → Document → Bool
unfolding owner_of
same_owner_key d e = elim (owner_of d.identity) [
  | evidence_submission _ ↦ owner_eq (owner_of d.identity) (owner_of e.identity)
  | policy _ ↦
      owner_eq (owner_of d.identity) (owner_of e.identity) && not d.archived && not e.archived
]

unfoldable pub document_conflicts : Document → Document → Bool
unfolding document_id same_owner_key
document_conflicts d e =
    not (document_id d.identity == document_id e.identity)
    && (text_eq d.object_key e.object_key || same_owner_key d e)

module _ {Value : Type 0} where
  -- `DocumentRepository::get`, and with a workspace `WorkspaceDocumentRepository::get`.
  unfoldable pub get_document : DocumentId → DocumentOwner → Database Value → Option Document
  unfolding is_document
  get_document id owner db = find (is_document id owner) db.documents

  unfoldable pub get_workspace_document :
      WorkspaceId → DocumentId → DocumentOwner → Database Value → Option Document
  unfolding is_document
  get_workspace_document workspace id owner db =
      find (λ d. is_document id owner d && d.workspace_id == workspace) db.documents

  unfoldable pub save_document :
      Document → Database Value → Result (Database Value) PersistenceError
  unfolding document_conflicts document_id
  save_document d db =
      if any (document_conflicts d) db.documents
      then err database
      else ok (record db {
        documents = upsert (λ e. document_id d.identity == document_id e.identity) d db.documents;
      })

  unfoldable pub has_evidence : WorkspaceId → EvidenceId → Database Value → Bool
  has_evidence workspace id db = any (λ e. e.0 == id && e.1 == workspace) db.evidence

  -- A submission is in the workspace of its evidence.
  unfoldable pub get_submission :
      WorkspaceId → EvidenceSubmissionId → Database Value → Option EvidenceSubmission
  unfolding has_evidence
  get_submission workspace id db =
      find (λ s. s.id == id && has_evidence workspace s.evidence_id db) db.submissions

  unfoldable pub save_submission : EvidenceSubmission → Database Value → Database Value
  save_submission s db = record db { submissions = upsert (λ e. s.id == e.id) s db.submissions }

  unfoldable pub get_evidence_grant :
      AgentEvidenceUploadGrantId → WorkspaceId → Database Value → Option AgentEvidenceUploadGrant
  get_evidence_grant id workspace db =
      find (λ g. g.id == id && g.workspace_id == workspace) db.evidence_grants

  unfoldable pub save_evidence_grant : AgentEvidenceUploadGrant → Database Value → Database Value
  save_evidence_grant g db = record db {
    evidence_grants = upsert (λ e. g.id == e.id) g db.evidence_grants;
  }

  unfoldable pub get_policy_grant :
      Uuid → WorkspaceId → Database Value → Option AgentPolicyDocumentUploadGrant
  get_policy_grant id workspace db =
      find (λ g. g.id == id && g.workspace_id == workspace) db.policy_grants

  unfoldable pub save_policy_grant :
      AgentPolicyDocumentUploadGrant → Database Value → Database Value
  save_policy_grant g db = record db {
    policy_grants = upsert (λ e. g.id == e.id) g db.policy_grants;
  }

-- `None` where the policy is archived or not in the workspace.
pub data PolicyDocumentUploadEligibility : Type 0 where
  eligible current_document : PolicyDocumentUploadEligibility

abbrev pub is_current_of : WorkspaceId → PolicyId → Document → Bool
is_current_of workspace id d =
    owner_eq (owner_of d.identity) (policy id) && d.workspace_id == workspace && not d.archived

unfoldable pub lock_document_upload_eligibility :
    {Value : Type 0}
    → WorkspaceId
    → PolicyId
    → Database Value
    → Option PolicyDocumentUploadEligibility
unfolding owner_of
lock_document_upload_eligibility workspace id db =
    if not (any (λ p. p.id == id && p.workspace_id == workspace && not p.is_archived) db.policies)
    then none
    else if any (is_current_of workspace id) db.documents
    then some current_document
    else some eligible

-- `in_unit_of_work`: an error, also one of the connection or of the commit, changes nothing.
abbrev pub commit :
    {A Value : Type 0}
    → Database Value
    → Result (A × Database Value) PersistenceError
    → Result A PersistenceError × Database Value
commit db (ok (a, after)) = (ok a, after)
commit db (err e) = (err e, db)

unfoldable pub in_unit_of_work :
    {A Value : Type 0}
    → Bool
    → (Database Value → Result (A × Database Value) PersistenceError)
    → Database Value
    → Result A PersistenceError × Database Value
in_unit_of_work fails operation db = if fails then (err database, db) else commit db (operation db)
