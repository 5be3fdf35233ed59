-- ===== src/Domain/Permission/Bits.antt =====
-- `WorkspacePermissions`: a set of permissions in one `u8`.
use Prim.Native.Nat.{bit_and, bit_or}
use mathlib.Core.Bool.{not}
use proofplane.Prelude.{ℕ, Bool, List, [], ◌∷◌, ◌^◌, ◌==◌, if◌then◌else◌}
use proofplane.Domain.Permission.Names.{
  WorkspacePermission, read_evidence, write_evidence, read_evidence_submissions,
  write_evidence_submissions, read_controls, write_controls, manage_auditor_access, all_permissions,
}

unfoldable pub bit : WorkspacePermission → ℕ
bit read_evidence = 2 ^ 0
bit write_evidence = 2 ^ 1
bit read_evidence_submissions = 2 ^ 2
bit write_evidence_submissions = 2 ^ 3
bit read_controls = 2 ^ 4
bit write_controls = 2 ^ 5
bit manage_auditor_access = 2 ^ 6

pub record WorkspacePermissions : Type 0 where
  pub bits : ℕ

-- `WorkspacePermissions::none`
abbrev pub empty_set : WorkspacePermissions
empty_set = record { bits = 0 }

unfoldable pub insert : WorkspacePermissions → WorkspacePermission → WorkspacePermissions
unfolding bit
insert s p = record { bits = bit_or s.bits (bit p) }

unfoldable pub has : WorkspacePermissions → WorkspacePermission → Bool
unfolding bit
has s p = not (bit_and s.bits (bit p) == 0)

unfoldable pub is_empty_set : WorkspacePermissions → Bool
is_empty_set s = s.bits == 0

-- The loop of `from_iter`.
unfoldable pub insert_all : WorkspacePermissions → List WorkspacePermission → WorkspacePermissions
unfolding insert
insert_all s [] = s
insert_all s (p ∷ ps) = insert_all (insert s p) ps

unfoldable pub from_iter : List WorkspacePermission → WorkspacePermissions
unfolding insert_all
from_iter ps = insert_all empty_set ps

-- `WorkspacePermissions::all`
unfoldable pub full_set : WorkspacePermissions
unfolding from_iter
full_set = from_iter all_permissions

-- `Iterator::filter`
abbrev pub keep {ℓ} : {A : Type ℓ} → (A → Bool) → List A → List A
keep p [] = []
keep p (x ∷ xs) = if p x then x ∷ keep p xs else keep p xs

-- `WorkspacePermissions::iter`
unfoldable pub iter : WorkspacePermissions → List WorkspacePermission
unfolding has
iter s = keep (has s) all_permissions
