-- ===== src/Domain/Catalogue/Evidence.antt =====
-- src/domain/evidence.rs: a piece of evidence that a workspace collects, and its mappings to controls.
use mathlib.Core.List.{Perm}
use proofplane.Prelude.{
  ℕ, ◌≤◌, ◌≡◌, refl, not, Option, none, some, List, [], map, arith, ltb, if◌then◌else◌, occurrences,
  Result, ok, err, ◌>>=◌, ◌>>◌, guard,
}
use proofplane.Text.{Text, codes, text_eq}
use proofplane.Domain.Catalogue.Sorting.{
  sort_by_key, Ascending, sort_by_key-Ascending, first_repeat, Finds, sort_by_key-Perm,
  sort_by_key-occurrences, first_repeat-Finds,
}
use proofplane.Domain.Error.{DomainError, invalid_enum_value}
use proofplane.Domain.Fields.Required.{required_text}
use proofplane.Domain.Ids.{ControlId, EvidenceId, DateTime, WorkspaceId}
use proofplane.Validation.Types.{Validation, validate₃, map_valid}

pub data EvidenceStatus : Type 0 where
  evidence_active evidence_paused evidence_retired : EvidenceStatus

unfoldable pub status_as_str : EvidenceStatus → Text
status_as_str evidence_active = codes "active"
status_as_str evidence_paused = codes "paused"
status_as_str evidence_retired = codes "retired"

unfoldable pub status_from_str : Text → Result EvidenceStatus DomainError
status_from_str value =
    if text_eq value (codes "active")
    then ok evidence_active
    else if text_eq value (codes "paused")
    then ok evidence_paused
    else if text_eq value (codes "retired")
    then ok evidence_retired
    else err (invalid_enum_value (codes "status") value)

pub record EvidenceDefinition : Type 0 where
  pub title : Text
  pub description : Text
  pub collection_instructions : Text

unfoldable pub new_definition : Text → Text → Text → Validation EvidenceDefinition DomainError
unfolding required_text
new_definition title description collection_instructions =
    validate₃ (λ t d c. record { title = t; description = d; collection_instructions = c })
      (required_text (codes "title") title) (required_text (codes "description") description)
      (required_text (codes "collection_instructions") collection_instructions)

pub record EvidenceControlMappingState : Type 0 where
  pub control_id : ControlId
  pub rationale : Text
  pub created_at : DateTime

unfoldable pub new_mapping :
    ControlId → Text → DateTime → Validation EvidenceControlMappingState DomainError
unfolding required_text
new_mapping control_id rationale created_at =
    map_valid (λ r. record { control_id = control_id; rationale = r; created_at = created_at })
      (required_text (codes "rationale") rationale)

pub record Evidence : Type 0 where
  pub id : EvidenceId
  pub workspace_id : WorkspaceId
  pub definition : EvidenceDefinition
  pub status : EvidenceStatus
  pub mappings : List EvidenceControlMappingState
  pub created_at : DateTime
  pub updated_at : DateTime

pub data EvidenceError : Type 0 where
  duplicate_control_mapping : ControlId → EvidenceError
  evidence_invalid_rehydration evidence_invalid_replacement_time : EvidenceError

abbrev pub control_of : EvidenceControlMappingState → ControlId
control_of m = m.control_id

unfoldable pub define :
    EvidenceId → WorkspaceId → EvidenceDefinition → EvidenceStatus → DateTime → Evidence
define id workspace_id definition status created_at = record {
  id = id;
  workspace_id = workspace_id;
  definition = definition;
  status = status;
  mappings = [];
  created_at = created_at;
  updated_at = created_at;
}

-- The loop over the pairs of neighbours.
abbrev pub without_repeat :
    List EvidenceControlMappingState
    → Option ControlId
    → Result (List EvidenceControlMappingState) EvidenceError
without_repeat ms none = ok ms
without_repeat ms (some control) = err (duplicate_control_mapping control)

unfoldable pub normalize_mappings :
    List EvidenceControlMappingState → Result (List EvidenceControlMappingState) EvidenceError
unfolding sort_by_key first_repeat
normalize_mappings mappings =
    let sorted = sort_by_key control_of mappings in
    without_repeat sorted (first_repeat control_of sorted)

unfoldable pub replace_mappings :
    Evidence → List EvidenceControlMappingState → Result Evidence EvidenceError
unfolding normalize_mappings
replace_mappings e mappings = do
  normalized ← normalize_mappings mappings
  ok (record e { mappings = normalized })

-- `rehydrate`, its arguments in a record.
unfoldable pub rehydrate : Evidence → Result Evidence EvidenceError
unfolding define replace_mappings
rehydrate a = do
  guard (not (ltb a.updated_at a.created_at)) evidence_invalid_rehydration
  evidence ←
      replace_mappings (define a.id a.workspace_id a.definition a.status a.created_at) a.mappings
  ok (record evidence { updated_at = a.updated_at })

unfoldable pub replace :
    Evidence → EvidenceDefinition → EvidenceStatus → DateTime → Result Evidence EvidenceError
replace e definition status updated_at =
    if ltb updated_at e.created_at
    then err evidence_invalid_replacement_time
    else ok (record e { definition = definition; status = status; updated_at = updated_at })

-- What `replace_mappings` answers: the same mappings in ascending order of their controls, if no
-- control is mapped twice; otherwise a control that is.
abbrev pub Replaced :
    Evidence → List EvidenceControlMappingState → Result Evidence EvidenceError → Type 0
Replaced e ms (ok v) =
    (v ≡ record e { mappings = v.mappings })
    × Ascending control_of v.mappings
    × Perm ms v.mappings
    × ((k : ControlId) → occurrences k (map control_of ms) ≤ 1)
Replaced e ms (err x) =
    (k : ControlId) × (x ≡ duplicate_control_mapping k) × (2 ≤ occurrences k (map control_of ms))

without_repeat-Replaced :
    (e : Evidence) (ms sorted : List EvidenceControlMappingState) (r : Option ControlId)
    → Ascending control_of sorted
    → Perm ms sorted
    → ((k : ℕ) → occurrences k (map control_of sorted) ≡ occurrences k (map control_of ms))
    → Finds control_of sorted r
    → Replaced e ms
        (without_repeat sorted r >>= λ normalized. ok (record e { mappings = normalized }))
without_repeat-Replaced e ms sorted none a p o f = (refl, a, p, λ k. omega (arith, o k, f k))
without_repeat-Replaced e ms sorted (some k) a p o f = (k, refl, omega (arith, o k, f))

-- If replace_mappings answers Ok, only the mappings of the evidence have changed, they are the
-- given ones in ascending order of their controls, and no control is mapped twice; if it answers
-- Err, the error names a control that is mapped at least twice.
pub replace_mappings-Replaced :
    (e : Evidence) (ms : List EvidenceControlMappingState) → Replaced e ms (replace_mappings e ms)
unfolding replace_mappings
replace_mappings-Replaced e ms =
    let a = sort_by_key-Ascending control_of ms in
    without_repeat-Replaced e ms (sort_by_key control_of ms) _ a (sort_by_key-Perm control_of ms)
      (λ k. sort_by_key-occurrences control_of k ms) (first_repeat-Finds control_of _ a)
