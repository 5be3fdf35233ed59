-- ===== src/Domain/Permission/Tests.antt =====
-- The permissions on concrete data.
use proofplane.Prelude.{◌≡◌, refl, List, [], ◌∷◌, ok}
use proofplane.Domain.Permission.Canonical.{canonical_permissions}
use proofplane.Domain.Permission.Names.{read_evidence, write_controls, WorkspacePermission}
use proofplane.Domain.Permission.Order.{IsCanonical, canonical_permissions-IsCanonical}

abbrev asked_for : List WorkspacePermission
asked_for = write_controls ∷ read_evidence ∷ []

canonical_test : canonical_permissions asked_for ≡ ok (read_evidence ∷ write_controls ∷ [])
unfolding canonical_permissions
canonical_test = refl

canonical_permissions-IsCanonical_example : IsCanonical asked_for (canonical_permissions asked_for)
canonical_permissions-IsCanonical_example = canonical_permissions-IsCanonical asked_for
