-- ===== src/Domain/Catalogue/Tests.antt =====
-- One policy, one piece of evidence and one list of references on concrete data.
use proofplane.Domain.Catalogue.Evidence
use proofplane.Prelude.{◌≡◌, refl, none, List, [], ◌∷◌, ok, err}
use proofplane.Text.{codes}
use proofplane.Domain.Catalogue.Evidence.{
  evidence_active, duplicate_control_mapping, Evidence, Replaced, EvidenceControlMappingState,
  replace_mappings-Replaced,
}
use proofplane.Domain.Catalogue.Policy.{PolicyDefinition}
use proofplane.Domain.Catalogue.PolicyHistory.{replaces, archives, maps, Call}
use proofplane.Domain.Ids.{ControlId}

abbrev mapped : ControlId → EvidenceControlMappingState
mapped control = record { control_id = control; rationale = codes "covers it"; created_at = 5 }

abbrev reviews : Evidence
reviews = record {
  id = 1;
  workspace_id = 2;
  definition = record {
    title = codes "Access reviews";
    description = codes "Quarterly";
    collection_instructions = codes "Export";
  };
  status = evidence_active;
  mappings = [];
  created_at = 5;
  updated_at = 5;
}

sorted_test :
    Evidence.replace_mappings reviews (mapped 9 ∷ mapped 4 ∷ [])
    ≡ ok (record reviews { mappings = mapped 4 ∷ mapped 9 ∷ [] })
unfolding Evidence.replace_mappings
sorted_test = refl

repeated_test :
    Evidence.replace_mappings reviews (mapped 9 ∷ mapped 4 ∷ mapped 9 ∷ [])
    ≡ err (duplicate_control_mapping 9)
unfolding Evidence.replace_mappings
repeated_test = refl

abbrev access_policy : PolicyDefinition
access_policy = record { name = codes "Access"; description = none }

abbrev policy_calls : List Call
policy_calls =
    maps
      (record { control_id = 8; created_at = 5 } ∷ record { control_id = 3; created_at = 5 } ∷ [])
    ∷ archives 20
    ∷ replaces access_policy 30
    ∷ []
