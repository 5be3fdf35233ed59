-- ===== src/Domain/Catalogue/PolicyHistory.antt =====
-- Histories of one policy: its snapshot stays acceptable, and an archived policy does not change.
use proofplane.Prelude.{
  ◌≤◌, ◌≡◌, refl, true, false, ◌||◌, Option, none, some, List, [], ◌∷◌, arith, ltb, is_none,
  is_some_and, Result, ok, err,
}
use proofplane.Domain.Catalogue.Policy.{
  PolicyDefinition, Policy, replace, replace_mappings, define, rehydrate, PolicyControlMappingState,
  PolicyError, archive, mapped_control,
}
use proofplane.Domain.Catalogue.Sorting.{
  Ascending, sort_by_key-Ascending, first_repeat, sort_by_key-Ascending_id, sort_by_key,
}
use proofplane.Domain.Ids.{DateTime, PolicyId, WorkspaceId}

pub data Call : Type 0 where
  replaces : PolicyDefinition → DateTime → Call
  archives : DateTime → Call
  maps : List PolicyControlMappingState → Call

abbrev pub after : Policy → Result Policy PolicyError → Policy
after p (ok q) = q
after p (err _) = p

unfoldable pub step : Policy → Call → Policy
unfolding replace archive replace_mappings
step p (replaces definition at) = after p (replace p definition at)
step p (archives at) = after p (archive p at)
step p (maps ms) = after p (replace_mappings p ms)

unfoldable pub run : Policy → List Call → Policy
unfolding step
run p [] = p
run p (x ∷ xs) = run (step p x) xs

-- An optional instant that is not before the creation.
abbrev pub From : DateTime → Option DateTime → Type 0
From created_at none = Unit
From created_at (some at) = created_at ≤ at

pub record IsValid (p : Policy) : Type 0 where
  pub update : p.created_at ≤ p.updated_at
  pub archival : From p.created_at p.archived_at
  pub ordered : Ascending mapped_control p.mappings
  pub unrepeated : is_none (first_repeat mapped_control p.mappings) ≡ true

sorted-IsValid :
    (p : Policy) (ms : List PolicyControlMappingState)
    → Ascending mapped_control (sort_by_key mapped_control ms)
    → IsValid p
    → IsValid (after p (replace_mappings p ms))
unfolding replace_mappings
sorted-IsValid p ms a h = ground arith

step-IsValid : (p : Policy) (x : Call) → IsValid p → IsValid (step p x)
unfolding step
step-IsValid p (replaces definition at) h = ground arith
step-IsValid p (archives at) h = ground arith
step-IsValid p (maps ms) h = sorted-IsValid p ms (sort_by_key-Ascending mapped_control ms) h

run-IsValid : (p : Policy) (xs : List Call) → IsValid p → IsValid (run p xs)
unfolding run
run-IsValid p [] h = h
run-IsValid p (x ∷ xs) h = run-IsValid (step p x) xs (step-IsValid p x h)

define-IsValid :
    (id : PolicyId) (w : WorkspaceId) (d : PolicyDefinition) (at : DateTime)
    → IsValid (define id w d at)
unfolding define first_repeat
define-IsValid id w d at = ground arith

timely :
    (p : Policy)
    → IsValid p
    → (ltb p.updated_at p.created_at || is_some_and p.archived_at (λ at. ltb at p.created_at))
      ≡ false
timely p h = ground arith

IsValid-rehydrate : (p : Policy) → IsValid p → rehydrate p ≡ ok p
unfolding rehydrate
IsValid-rehydrate p h =
    let t = timely p h in
    let s = sort_by_key-Ascending_id mapped_control p.mappings h.ordered in
    rw (t, s, h.unrepeated) refl

-- After any replacements, archivals and changes of mappings on a newly defined policy, those that
-- fail being without effect, rehydrate accepts the policy and gives it back as it is.
pub rehydrate-run_policy :
    (id : PolicyId) (w : WorkspaceId) (d : PolicyDefinition) (at : DateTime) (xs : List Call)
    → rehydrate (run (define id w d at) xs) ≡ ok (run (define id w d at) xs)
rehydrate-run_policy id w d at xs =
    IsValid-rehydrate _ (run-IsValid (define id w d at) xs (define-IsValid id w d at))
