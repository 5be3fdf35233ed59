-- ===== src/Domain/Permission/Canonical.antt =====
-- `canonical_permissions`: a request's permissions without duplicates, in the order of `ALL`.
use proofplane.Prelude.{
  ℕ, zero, suc, Bool, true, false, List, [], ◌∷◌, if◌then◌else◌, Result, ok, err, ◌>>=◌,
}
use proofplane.Domain.Error.{DomainError, duplicate_permission}
use proofplane.Domain.Permission.Names.{
  WorkspacePermission, all_permissions, as_str, permission_index,
}
use proofplane.Domain.Permission.Bits.{keep}

-- The array `seen`: `seen[index]` and `seen[index] = true`. An index of a permission is in bounds.
abbrev pub flag : List Bool → ℕ → Bool
flag [] i = false
flag (b ∷ bs) zero = b
flag (b ∷ bs) (suc i) = flag bs i

abbrev pub set_flag : List Bool → ℕ → List Bool
set_flag [] i = []
set_flag (b ∷ bs) zero = true ∷ bs
set_flag (b ∷ bs) (suc i) = b ∷ set_flag bs i

abbrev pub no_flags : List Bool
no_flags = false ∷ false ∷ false ∷ false ∷ false ∷ false ∷ false ∷ []

-- The loop over the values.
unfoldable pub mark : List Bool → List WorkspacePermission → Result (List Bool) DomainError
unfolding permission_index as_str
mark seen [] = ok seen
mark seen (p ∷ ps) =
    if flag seen (permission_index p)
    then err (duplicate_permission (as_str p))
    else mark (set_flag seen (permission_index p)) ps

unfoldable pub canonical_permissions :
    List WorkspacePermission → Result (List WorkspacePermission) DomainError
unfolding mark
canonical_permissions values = do
  seen ← mark no_flags values
  ok (keep (λ p. flag seen (permission_index p)) all_permissions)
