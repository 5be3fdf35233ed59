-- ===== src/Domain/Catalogue/Control.antt =====
-- src/domain/controls.rs: a control of a workspace and the framework requirements that it answers.
use mathlib.Core.List.{Perm}
use proofplane.Prelude.{
  ℕ, ◌+◌, ◌≤◌, ◌≡◌, refl, inl, inr, true, false, not, Option, none, some, List, [], ◌∷◌, map, arith,
  ltb, if◌then◌else◌, ==_iff, ==_refl, Bool-cases, contains, occurrences, Result, ok, err, ◌>>=◌,
  ◌>>◌, guard,
}
use proofplane.Text.{Text, codes}
use proofplane.Domain.Catalogue.Sorting.{
  sort_by_key, Ascending, sort_by_key-Ascending, sort_by_key-Perm, sort_by_key-occurrences,
}
use proofplane.Domain.Error.{DomainError}
use proofplane.Domain.Fields.Required.{required_text}
use proofplane.Domain.Ids.{ControlId, FrameworkRequirementId, WorkspaceId, DateTime}
use proofplane.Validation.Types.{Validation, validate₃}

pub record ControlDefinition : Type 0 where
  pub code : Text
  pub title : Text
  pub description : Text

unfoldable pub new_definition : Text → Text → Text → Validation ControlDefinition DomainError
unfolding required_text
new_definition code title description =
    validate₃ (λ c t d. record { code = c; title = t; description = d })
      (required_text (codes "code") code) (required_text (codes "title") title)
      (required_text (codes "description") description)

pub record Control : Type 0 where
  pub id : ControlId
  pub workspace_id : WorkspaceId
  pub definition : ControlDefinition
  pub framework_requirement_ids : List FrameworkRequirementId
  pub created_at : DateTime
  pub updated_at : DateTime

pub data ControlError : Type 0 where
  duplicate_framework_requirement : FrameworkRequirementId → ControlError
  control_invalid_rehydration control_invalid_replacement_time : ControlError

abbrev pub requirement : FrameworkRequirementId → FrameworkRequirementId
requirement id = id

-- The loop with the set `seen`: the first id that was seen before.
unfoldable pub first_seen :
    (seen : List FrameworkRequirementId)
    → List FrameworkRequirementId
    → Option FrameworkRequirementId
first_seen seen [] = none
first_seen seen (id ∷ ids) =
    let rest = first_seen (id ∷ seen) ids in if contains id seen then some id else rest

abbrev pub unless_seen :
    List FrameworkRequirementId
    → Option FrameworkRequirementId
    → Result (List FrameworkRequirementId) ControlError
unless_seen ids none = ok ids
unless_seen ids (some id) = err (duplicate_framework_requirement id)

unfoldable pub normalize_framework_requirement_ids :
    List FrameworkRequirementId → Result (List FrameworkRequirementId) ControlError
unfolding sort_by_key first_seen
normalize_framework_requirement_ids raw =
    let ids = sort_by_key requirement raw in unless_seen ids (first_seen [] ids)

unfoldable pub define :
    ControlId
    → WorkspaceId
    → ControlDefinition
    → List FrameworkRequirementId
    → DateTime
    → Result Control ControlError
unfolding normalize_framework_requirement_ids
define id workspace_id definition raw created_at = do
  ids ← normalize_framework_requirement_ids raw
  ok (record {
    id = id;
    workspace_id = workspace_id;
    definition = definition;
    framework_requirement_ids = ids;
    created_at = created_at;
    updated_at = created_at;
  })

-- `rehydrate`, its arguments in a record.
unfoldable pub rehydrate : Control → Result Control ControlError
unfolding define
rehydrate a = do
  guard (not (ltb a.updated_at a.created_at)) control_invalid_rehydration
  control ← define a.id a.workspace_id a.definition a.framework_requirement_ids a.created_at
  ok (record control { updated_at = a.updated_at })

unfoldable pub replace :
    Control
    → ControlDefinition
    → List FrameworkRequirementId
    → DateTime
    → Result Control ControlError
unfolding normalize_framework_requirement_ids
replace c definition raw updated_at = do
  ids ← normalize_framework_requirement_ids raw
  guard (not (ltb updated_at c.created_at)) control_invalid_replacement_time
  ok (record c {
    definition = definition;
    framework_requirement_ids = ids;
    updated_at = updated_at;
  })

-- What the scan finds, counted with the ids seen before.
abbrev pub SeenTwice :
    List FrameworkRequirementId
    → List FrameworkRequirementId
    → Option FrameworkRequirementId
    → Type 0
SeenTwice seen ids none =
    (k : FrameworkRequirementId) → (if contains k seen then 1 else 0) + occurrences k ids ≤ 1
SeenTwice seen ids (some k) = 2 ≤ (if contains k seen then 1 else 0) + occurrences k ids

SeenTwice-further :
    (seen : List FrameworkRequirementId) (id : FrameworkRequirementId)
    (ids : List FrameworkRequirementId) (r : Option FrameworkRequirementId)
    → contains id seen ≡ false
    → SeenTwice (id ∷ seen) ids r
    → SeenTwice seen (id ∷ ids) r
SeenTwice-further seen id ids none n h = λ k. once k (h k)
  where
    once :
        (k : FrameworkRequirementId)
        → (if contains k (id ∷ seen) then 1 else 0) + occurrences k ids ≤ 1
        → (if contains k seen then 1 else 0) + occurrences k (id ∷ ids) ≤ 1
    once k o = ground (arith, ==_iff k id)
SeenTwice-further seen id ids (some k) n h = ground (arith, ==_iff k id)

found :
    (seen : List FrameworkRequirementId) (id : FrameworkRequirementId)
    (ids : List FrameworkRequirementId)
    → contains id seen ≡ true
    → SeenTwice seen (id ∷ ids) (some id)
found seen id ids old = ground (arith, ==_refl id)

first_seen-SeenTwice :
    (seen ids : List FrameworkRequirementId) → SeenTwice seen ids (first_seen seen ids)
unfolding first_seen
first_seen-SeenTwice seen [] = λ k. ground arith
first_seen-SeenTwice seen (id ∷ ids) = elim (Bool-cases (contains id seen)) [
  | inl old ↦ rw old (found seen id ids old)
  | inr new ↦ rw new (SeenTwice-further seen id ids _ new (first_seen-SeenTwice (id ∷ seen) ids))
]

-- What the normal form of a list of references is: the same references in ascending order, if none
-- is given twice; otherwise one that is.
abbrev pub IsNormalForm :
    List FrameworkRequirementId → Result (List FrameworkRequirementId) ControlError → Type 0
IsNormalForm raw (ok ids) =
    Ascending requirement ids
    × Perm raw ids
    × ((k : FrameworkRequirementId) → occurrences k (map requirement raw) ≤ 1)
IsNormalForm raw (err e) =
    (k : FrameworkRequirementId) × (e ≡ duplicate_framework_requirement k)
    × (2 ≤ occurrences k (map requirement raw))

same_keys : (k : ℕ) (ids : List ℕ) → occurrences k (map requirement ids) ≡ occurrences k ids
same_keys k [] = refl
same_keys k (x ∷ ids) = omega (arith, same_keys k ids)

unless_seen-IsNormalForm :
    (raw ids : List FrameworkRequirementId) (r : Option FrameworkRequirementId)
    → Ascending requirement ids
    → Perm raw ids
    → ((k : ℕ) → occurrences k (map requirement ids) ≡ occurrences k (map requirement raw))
    → SeenTwice [] ids r
    → IsNormalForm raw (unless_seen ids r)
unless_seen-IsNormalForm raw ids none a p o f =
    (a, p, λ k. omega (arith, o k, f k, same_keys k ids))
unless_seen-IsNormalForm raw ids (some k) a p o f =
    (k, refl, omega (arith, o k, f, same_keys k ids))

-- If normalize_framework_requirement_ids answers Ok, its list is the given references in ascending
-- order, and none is given twice; if it answers Err, the error names a reference that is given at
-- least twice.
pub normalize_framework_requirement_ids-IsNormalForm :
    (raw : List FrameworkRequirementId) → IsNormalForm raw (normalize_framework_requirement_ids raw)
unfolding normalize_framework_requirement_ids
normalize_framework_requirement_ids-IsNormalForm raw =
    unless_seen-IsNormalForm raw _ _ (sort_by_key-Ascending requirement raw)
      (sort_by_key-Perm requirement raw) (λ k. sort_by_key-occurrences requirement k raw)
      (first_seen-SeenTwice [] (sort_by_key requirement raw))
