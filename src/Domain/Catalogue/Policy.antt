-- ===== src/Domain/Catalogue/Policy.antt =====
-- src/domain/policy.rs: a policy of a workspace and its mappings to controls.
use proofplane.Prelude.{
  Bool, true, not, ◌&&◌, ◌||◌, Option, none, some, List, [], ◌∷◌, ltb, if◌then◌else◌, is_some,
  is_none, is_some_and, length, is_empty, contains, Result, ok, err, ◌>>=◌, ◌>>◌, guard,
}
use proofplane.Text.{Text, trim, codes}
use proofplane.Domain.Catalogue.Sorting.{sort_by_key, first_repeat}
use proofplane.Domain.Error.{
  DomainError, empty_required_text, required_text_too_long, duplicate_policy_control_id,
}
use proofplane.Domain.Fields.Required.{optional_text}
use proofplane.Domain.Ids.{ControlId, PolicyId, DateTime, WorkspaceId}
use proofplane.Validation.Types.{Validation, valid, invalid, validate₂}

pub record PolicyDefinition : Type 0 where
  pub name : Text
  pub description : Option Text

pub record PolicyControlMappingState : Type 0 where
  pub control_id : ControlId
  pub created_at : DateTime

pub record Policy : Type 0 where
  pub id : PolicyId
  pub workspace_id : WorkspaceId
  pub definition : PolicyDefinition
  pub mappings : List PolicyControlMappingState
  pub created_at : DateTime
  pub updated_at : DateTime
  pub archived_at : Option DateTime

pub data PolicyError : Type 0 where
  policy_archived duplicate_policy_control_mapping : PolicyError
  policy_invalid_rehydration policy_invalid_replacement_time : PolicyError

abbrev pub mapped_control : PolicyControlMappingState → ControlId
mapped_control m = m.control_id

unfoldable pub validate_policy_name : Text → Validation Text DomainError
unfolding trim
validate_policy_name raw =
    let value = trim raw in
    if is_empty value
    then invalid (empty_required_text (codes "name"))
    else if ltb 200 (length value)
    then invalid (required_text_too_long (codes "name") 200)
    else valid value

unfoldable pub new_definition : Text → Option Text → Validation PolicyDefinition DomainError
unfolding validate_policy_name optional_text
new_definition raw_name raw_description =
    validate₂ (λ n d. record { name = n; description = d }) (validate_policy_name raw_name)
      (optional_text (codes "description") raw_description 4000)

-- `all(|id| seen.insert(id))`
unfoldable pub all_new : List ControlId → List ControlId → Bool
all_new seen [] = true
all_new seen (id ∷ ids) = let rest = all_new (id ∷ seen) ids in not (contains id seen) && rest

unfoldable pub validate_unique_policy_control_ids :
    List ControlId → Validation (List ControlId) DomainError
unfolding all_new
validate_unique_policy_control_ids ids =
    if all_new [] ids then valid ids else invalid duplicate_policy_control_id

unfoldable pub define : PolicyId → WorkspaceId → PolicyDefinition → DateTime → Policy
define id workspace_id definition created_at = record {
  id = id;
  workspace_id = workspace_id;
  definition = definition;
  mappings = [];
  created_at = created_at;
  updated_at = created_at;
  archived_at = none;
}

abbrev pub ensure_active : Policy → Result (Unit {0}) PolicyError
ensure_active p = if is_some p.archived_at then err policy_archived else ok tt

unfoldable pub replace_mappings :
    Policy → List PolicyControlMappingState → Result Policy PolicyError
unfolding sort_by_key first_repeat
replace_mappings p raw = do
  ensure_active p
  let sorted : List PolicyControlMappingState = sort_by_key mapped_control raw
  guard (is_none (first_repeat mapped_control sorted)) duplicate_policy_control_mapping
  ok (record p { mappings = sorted })

-- `rehydrate`, its arguments in a record.
unfoldable pub rehydrate : Policy → Result Policy PolicyError
unfolding define replace_mappings
rehydrate a = do
  guard
      (not (ltb a.updated_at a.created_at || is_some_and a.archived_at (λ at. ltb at a.created_at)))
      policy_invalid_rehydration
  policy ← replace_mappings (define a.id a.workspace_id a.definition a.created_at) a.mappings
  ok (record policy { updated_at = a.updated_at; archived_at = a.archived_at })

unfoldable pub replace : Policy → PolicyDefinition → DateTime → Result Policy PolicyError
replace p definition at = do
  ensure_active p
  guard (not (ltb at p.created_at)) policy_invalid_replacement_time
  ok (record p { definition = definition; updated_at = at })

unfoldable pub archive : Policy → DateTime → Result Policy PolicyError
archive p at = do
  ensure_active p
  guard (not (ltb at p.created_at)) policy_invalid_replacement_time
  ok (record p { archived_at = some at; updated_at = at })
