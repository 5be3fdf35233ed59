-- ===== src/Domain/Permission/RoundTrip.antt =====
-- The names of the permissions: `from_str` is the inverse of `as_str`.
use proofplane.Prelude.{◌≡◌, refl, ap, ◌∙◌, ◌↔◌, arith, ok}
use proofplane.Text.{Text, codes, text_eq_iff}
use proofplane.Domain.Permission.Names.{
  WorkspacePermission, read_evidence, write_evidence, read_evidence_submissions,
  write_evidence_submissions, read_controls, write_controls, manage_auditor_access, as_str,
  from_str,
}

from_str-as_str_self : (p : WorkspacePermission) → from_str (as_str p) ≡ ok p
unfolding as_str from_str
from_str-as_str_self read_evidence = refl
from_str-as_str_self write_evidence = refl
from_str-as_str_self read_evidence_submissions = refl
from_str-as_str_self write_evidence_submissions = refl
from_str-as_str_self read_controls = refl
from_str-as_str_self write_controls = refl
from_str-as_str_self manage_auditor_access = refl

as_str_of_from_str : (p : WorkspacePermission) (s : Text) → from_str s ≡ ok p → s ≡ as_str p
unfolding as_str from_str
as_str_of_from_str p s h = ground (
  arith,
  text_eq_iff s (codes "read_evidence"),
  text_eq_iff s (codes "write_evidence"),
  text_eq_iff s (codes "read_evidence_submissions"),
  text_eq_iff s (codes "write_evidence_submissions"),
  text_eq_iff s (codes "read_controls"),
  text_eq_iff s (codes "write_controls"),
  text_eq_iff s (codes "manage_auditor_access"),
)

-- from_str reads a text as a permission exactly when the text is what as_str gives for it.
pub from_str_iff : (s : Text) (p : WorkspacePermission) → (from_str s ≡ ok p) ↔ (s ≡ as_str p)
from_str_iff s p = (as_str_of_from_str p s, λ e. ap from_str e ∙ from_str-as_str_self p)
