-- ===== src/Domain/Batch/Tests.antt =====
-- Batches on concrete data.
use proofplane.Prelude.{◌≤◌, ◌≡◌, refl, ◌↔◌, List, [], ◌∷◌, map, length, occurrences, ok}
use proofplane.Text.{codes}
use proofplane.Domain.Batch.{duplicate_ids, validate_batch, validate_batch_iff}
use proofplane.Domain.Ids.{Uuid}

abbrev itself : Uuid → Uuid
itself id = id

abbrev pair : List Uuid
pair = 3 ∷ 4 ∷ []

abbrev repeats : List Uuid
repeats = 3 ∷ 4 ∷ 3 ∷ 4 ∷ 3 ∷ []

duplicates_test : duplicate_ids itself repeats ≡ pair
unfolding duplicate_ids
duplicates_test = refl

validate_batch_iff_example : (validate_batch itself (codes "items") pair ≡ ok pair) ↔ (
    (pair ≡ pair)
    × (1 ≤ length pair)
    × (length pair ≤ 50)
    × ((id : Uuid) → occurrences id (map itself pair) ≤ 1))
validate_batch_iff_example = validate_batch_iff itself (codes "items") pair pair
