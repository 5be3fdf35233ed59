-- ===== src/Domain/AgentPolicyUpload/History.antt =====
-- Histories of one grant: attempts to complete it, one after the other, a failed one without effect.
use proofplane.Prelude.{
  ◌≡◌, refl, ap, ◌∙◌, some, List, [], ◌∷◌, arith, leb, if◌then◌else◌, Result, ok, err,
}
use proofplane.Domain.AgentPolicyUpload.Operations.{
  complete, issue, completed_document_at, rehydrate, completed_at, document_id,
}
use proofplane.Domain.AgentPolicyUpload.Rules.{
  IsValid, complete_policy_iff, issuance_of, IsValid-rehydrate,
}
use proofplane.Domain.AgentPolicyUpload.Types.{
  policy_upload_completed, policy_upload_expired, AgentPolicyDocumentUploadGrant, Issuance,
  AgentPolicyDocumentUploadGrantError,
}
use proofplane.Domain.Ids.{DocumentId, DateTime}

abbrev pub after :
    AgentPolicyDocumentUploadGrant
    → Result AgentPolicyDocumentUploadGrant AgentPolicyDocumentUploadGrantError
    → AgentPolicyDocumentUploadGrant
after g (ok h) = h
after g (err _) = g

unfoldable pub step :
    AgentPolicyDocumentUploadGrant → DocumentId × DateTime → AgentPolicyDocumentUploadGrant
unfolding complete
step g (document, at) = after g (complete g document at)

unfoldable pub run :
    AgentPolicyDocumentUploadGrant → List (DocumentId × DateTime) → AgentPolicyDocumentUploadGrant
unfolding step
run g [] = g
run g (x ∷ xs) = run (step g x) xs

step-IsValid :
    (g : AgentPolicyDocumentUploadGrant) (x : DocumentId × DateTime)
    → IsValid g
    → IsValid (step g x)
unfolding step
step-IsValid g (document, at) h = ground arith

step_completed :
    (g : AgentPolicyDocumentUploadGrant) (x : DocumentId × DateTime) (d : DocumentId) (t : DateTime)
    → (g.lifecycle ≡ policy_upload_completed d t)
    → step g x ≡ g
unfolding step
step_completed g (document, at) d t h = ground arith

run_completed :
    (g : AgentPolicyDocumentUploadGrant) (xs : List (DocumentId × DateTime)) (d : DocumentId)
    (t : DateTime)
    → (g.lifecycle ≡ policy_upload_completed d t)
    → run g xs ≡ g
unfolding run
run_completed g [] d t h = refl
run_completed g (x ∷ xs) d t h =
    let e = step_completed g x d t h in ap (λ k. run k xs) e ∙ run_completed g xs d t h

run-IsValid :
    (g : AgentPolicyDocumentUploadGrant) (xs : List (DocumentId × DateTime))
    → IsValid g
    → IsValid (run g xs)
unfolding run
run-IsValid g [] h = h
run-IsValid g (x ∷ xs) h = run-IsValid (step g x) xs (step-IsValid g x h)

issue-IsValid : (i : Issuance) (g : AgentPolicyDocumentUploadGrant) → issue i ≡ ok g → IsValid g
unfolding issue
issue-IsValid i g e = ground arith

-- If issue answers a grant, then after any attempts to complete it rehydrate accepts the columns
-- stored for the grant and gives the same grant.
pub issue-rehydrate_policy :
    (i : Issuance) (g : AgentPolicyDocumentUploadGrant) (xs : List (DocumentId × DateTime))
    → issue i ≡ ok g
    → rehydrate (issuance_of (run g xs)) (completed_at (run g xs)) (document_id (run g xs))
      ≡ ok (run g xs)
issue-rehydrate_policy i g xs e =
    IsValid-rehydrate (run g xs) (run-IsValid g xs (issue-IsValid i g e))

completed_document_lem :
    (g : AgentPolicyDocumentUploadGrant) (d : DocumentId) (t now : DateTime)
    → (g.lifecycle ≡ policy_upload_completed d t)
    → completed_document_at g now
      ≡ (if leb g.expires_at now then err policy_upload_expired else ok (some d))
unfolding completed_document_at
completed_document_lem g d t now e = rw e

-- If complete succeeds with a document, any further attempts to complete the grant leave it as it
-- is, and completed_document_at then answers that document before the expiry and Expired from the
-- expiry on.
pub complete-completed_document_at_policy :
    (g h : AgentPolicyDocumentUploadGrant) (d : DocumentId) (t now : DateTime)
    (xs : List (DocumentId × DateTime))
    → complete g d t ≡ ok h
    → (run h xs ≡ h)
      × (completed_document_at (run h xs) now
          ≡ (if leb g.expires_at now then err policy_upload_expired else ok (some d)))
complete-completed_document_at_policy g h d t now xs e =
    let (_, _, _, q) = (complete_policy_iff g h d t).0 e in
    let l : h.lifecycle ≡ policy_upload_completed d t = ap (λ k. k.lifecycle) q in
    let x : h.expires_at ≡ g.expires_at = ap (λ k. k.expires_at) q in
    let r = run_completed h xs d t l in (r, rw (r, completed_document_lem h d t now l, x))
