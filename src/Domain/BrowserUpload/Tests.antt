-- ===== src/Domain/BrowserUpload/Tests.antt =====
-- One grant of each kind on concrete data.
use proofplane.Domain.BrowserUpload.Evidence
use proofplane.Domain.BrowserUpload.Policy
use proofplane.Prelude.{◌≡◌, refl, false, none, some, ok, is_ok}
use proofplane.Domain.BrowserUpload.Evidence.{
  EvidenceDocumentUploadGrant, evidence_redeem_iff, EvidenceDocumentUploadGrantAuthority,
  evidence_redeem_once,
}
use proofplane.Domain.BrowserUpload.Policy.{
  PolicyDocumentUploadGrant, policy_redeem_iff, PolicyDocumentUploadGrantAuthority,
  policy_redeem_once,
}
use proofplane.Domain.Ids.{DateTime}

abbrev evidence_grant : EvidenceDocumentUploadGrant
evidence_grant = record {
  id = 1;
  workspace_id = 2;
  evidence_id = 3;
  coverage = record { valid_from = 10; valid_until = 20 };
  issued_by_user_id = 4;
  issued_via_agent_connection_id = 5;
  issued_at = 100;
  expires_at = 400;
  redeemed_at = none;
}

abbrev evidence_redeemed : EvidenceDocumentUploadGrant
evidence_redeemed = record evidence_grant { redeemed_at = some 200 }

evidence_redeem_test :
    Evidence.redeem evidence_grant (Evidence.authority_of evidence_grant) 200 ≡ ok evidence_redeemed
unfolding Evidence.redeem
evidence_redeem_test = refl

evidence_redeem_once_example :
    (Evidence.rehydrate evidence_redeemed ≡ ok evidence_redeemed)
    × ((b : EvidenceDocumentUploadGrantAuthority) (later : DateTime)
        → is_ok (Evidence.redeem evidence_redeemed b later) ≡ false)
evidence_redeem_once_example =
    evidence_redeem_once evidence_grant evidence_redeemed (Evidence.authority_of evidence_grant) 200
      evidence_redeem_test

abbrev policy_grant : PolicyDocumentUploadGrant
policy_grant = record {
  id = 1;
  workspace_id = 2;
  policy_id = 3;
  issued_by_user_id = 4;
  issued_via_agent_connection_id = 5;
  issued_at = 100;
  expires_at = 400;
  redeemed_at = none;
}

abbrev policy_redeemed : PolicyDocumentUploadGrant
policy_redeemed = record policy_grant { redeemed_at = some 200 }

policy_redeem_test :
    Policy.redeem policy_grant (Policy.authority_of policy_grant) 200 ≡ ok policy_redeemed
unfolding Policy.redeem
policy_redeem_test = refl
