-- ===== src/Domain/Permission/Names.antt =====
-- `WorkspacePermission`, its order in `ALL`, `as_str` and `from_str`.
use proofplane.Prelude.{
  ℕ, ◌≡◌, Bool, true, List, [], ◌∷◌, arith, ◌==◌, if◌then◌else◌, Result, ok, err, all,
}
use proofplane.Text.{Text, codes, text_eq}
use proofplane.Domain.Error.{DomainError, invalid_enum_value}

pub data WorkspacePermission : Type 0 where
  read_evidence write_evidence : WorkspacePermission
  read_evidence_submissions write_evidence_submissions : WorkspacePermission
  read_controls write_controls manage_auditor_access : WorkspacePermission

-- `WorkspacePermission::ALL`
abbrev pub all_permissions : List WorkspacePermission
all_permissions =
    read_evidence ∷ write_evidence ∷ read_evidence_submissions ∷ write_evidence_submissions
    ∷ read_controls ∷ write_controls ∷ manage_auditor_access ∷ []

unfoldable pub as_str : WorkspacePermission → Text
as_str read_evidence = codes "read_evidence"
as_str write_evidence = codes "write_evidence"
as_str read_evidence_submissions = codes "read_evidence_submissions"
as_str write_evidence_submissions = codes "write_evidence_submissions"
as_str read_controls = codes "read_controls"
as_str write_controls = codes "write_controls"
as_str manage_auditor_access = codes "manage_auditor_access"

unfoldable pub from_str : Text → Result WorkspacePermission DomainError
from_str value =
    if text_eq value (codes "read_evidence")
    then ok read_evidence
    else if text_eq value (codes "write_evidence")
    then ok write_evidence
    else if text_eq value (codes "read_evidence_submissions")
    then ok read_evidence_submissions
    else if text_eq value (codes "write_evidence_submissions")
    then ok write_evidence_submissions
    else if text_eq value (codes "read_controls")
    then ok read_controls
    else if text_eq value (codes "write_controls")
    then ok write_controls
    else if text_eq value (codes "manage_auditor_access")
    then ok manage_auditor_access
    else err (invalid_enum_value (codes "permission") value)

unfoldable pub permission_index : WorkspacePermission → ℕ
permission_index read_evidence = 0
permission_index write_evidence = 1
permission_index read_evidence_submissions = 2
permission_index write_evidence_submissions = 3
permission_index read_controls = 4
permission_index write_controls = 5
permission_index manage_auditor_access = 6

abbrev pub perm_eq : WorkspacePermission → WorkspacePermission → Bool
unfolding permission_index
perm_eq p q = permission_index p == permission_index q

-- What a test finds on all of `ALL`, it finds on every permission.
pub all_permissions_sound :
    (f : WorkspacePermission → Bool) (p : WorkspacePermission)
    → all f all_permissions ≡ true
    → f p ≡ true
all_permissions_sound f read_evidence h = ground arith
all_permissions_sound f write_evidence h = ground arith
all_permissions_sound f read_evidence_submissions h = ground arith
all_permissions_sound f write_evidence_submissions h = ground arith
all_permissions_sound f read_controls h = ground arith
all_permissions_sound f write_controls h = ground arith
all_permissions_sound f manage_auditor_access h = ground arith
