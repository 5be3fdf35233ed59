-- ===== src/Domain/Permission/Members.antt =====
-- The byte as a set: what `insert`, `has`, `from_iter` and `iter` promise of it.
use proofplane.Prelude.{
  ℕ, zero, suc, ◌<◌, ◌≡◌, refl, ap, ◌∙◌, inl, inr, Bool, true, false, ◌&&◌, ◌||◌, List, [], ◌∷◌,
  arith, ltb, ◌==◌, ltb→lt, ==_iff, ==_refl, Bool-cases, bool_eq, and_left, and_right, all, any,
  contains,
}
use proofplane.Domain.Permission.Bits.{
  WorkspacePermissions, has, insert_all, insert, empty_set, from_iter, iter,
}
use proofplane.Domain.Permission.Names.{
  all_permissions, WorkspacePermission, all_permissions_sound, perm_eq, permission_index,
}

-- The bytes whose highest bit is not set, from 127 down.
descending : ℕ → List ℕ
descending zero = []
descending (suc n) = n ∷ descending n

bytes_of_set : List ℕ
unfolding descending
bytes_of_set = descending 128

contains-descending : (n b : ℕ) → b < n → contains b (descending n) ≡ true
unfolding descending
contains-descending zero b h = absurd (omega arith)
contains-descending (suc n) b h = ground (arith, contains-descending n b, ==_refl n, ==_iff b n)

all-contains :
    (f : ℕ → Bool) (bs : List ℕ) {b : ℕ} → contains b bs ≡ true → all f bs ≡ true → f b ≡ true
all-contains f (x ∷ bs) {b} m h = elim (Bool-cases (b == x)) [
  | inl same ↦ ap f ((==_iff b x).0 same) ∙ and_left _ _ h
  | inr other ↦ all-contains f bs (ground (arith, m)) (and_right _ _ h)
]
all-contains f [] m h = ground arith

-- What evaluation finds of each of these bytes.
each_byte : (f : ℕ → Bool) (b : ℕ) → b < 128 → all f bytes_of_set ≡ true → f b ≡ true
unfolding bytes_of_set
each_byte f b h t = all-contains f (descending 128) (contains-descending 128 b h) t

abbrev of_bits : ℕ → WorkspacePermissions
of_bits b = record { bits = b }

insert_test : ℕ → WorkspacePermission → WorkspacePermission → Bool
unfolding has insert permission_index
insert_test b p q =
    bool_eq (has (insert (of_bits b) p) q) (perm_eq p q || has (of_bits b) q)
    && ltb (insert (of_bits b) p).bits 128

insert_table :
    all (λ b. all (λ p. all (insert_test b p) all_permissions) all_permissions) bytes_of_set ≡ true
unfolding bytes_of_set insert_test
insert_table = refl

insert_tested : (b : ℕ) (p q : WorkspacePermission) → b < 128 → insert_test b p q ≡ true
insert_tested b p q h = all_permissions_sound (insert_test b p) q (
    all_permissions_sound (λ p. all (insert_test b p) all_permissions) p
      (each_byte _ b h insert_table))

bool_eq→eq : (a b : Bool) → bool_eq a b ≡ true → a ≡ b
bool_eq→eq a b h = ground arith

-- The byte uses the seven bits of `ALL` and no other.
abbrev pub IsSet7 : WorkspacePermissions → Type 0
IsSet7 s = s.bits < 128

pub insert-IsSet7 :
    (s : WorkspacePermissions) (p : WorkspacePermission) → IsSet7 s → IsSet7 (insert s p)
unfolding insert_test
insert-IsSet7 s p h = ltb→lt _ _ (
    and_right (bool_eq (has (insert s p) p) (perm_eq p p || has s p)) _
      (insert_tested s.bits p p h))

pub has-insert :
    (s : WorkspacePermissions) (p q : WorkspacePermission)
    → IsSet7 s
    → has (insert s p) q ≡ (perm_eq p q || has s q)
unfolding insert_test
has-insert s p q h =
    bool_eq→eq _ _ (and_left _ (ltb (insert s p).bits 128) (insert_tested s.bits p q h))

has-empty_set : (q : WorkspacePermission) → has empty_set q ≡ false
unfolding has
has-empty_set q = ground arith

has-insert_all :
    (s : WorkspacePermissions) (ps : List WorkspacePermission) (q : WorkspacePermission)
    → IsSet7 s
    → (has (insert_all s ps) q ≡ (any (λ p. perm_eq p q) ps || has s q)) × IsSet7 (insert_all s ps)
unfolding insert_all
has-insert_all s [] q h = (refl, h)
has-insert_all s (p ∷ ps) q h =
    ground (arith, has-insert s p q h, insert-IsSet7 s p h, has-insert_all (insert s p) ps q)

-- The set built from a list has a permission exactly when the list has it.
pub has-from_iter :
    (ps : List WorkspacePermission) (q : WorkspacePermission)
    → has (from_iter ps) q ≡ any (λ p. perm_eq p q) ps
unfolding from_iter
has-from_iter ps q = ground (arith, has-insert_all empty_set ps q, has-empty_set q)

-- Reading a set and building it again gives the same byte.
from_iter-iter_test : ℕ → Bool
unfolding from_iter iter
from_iter-iter_test b = (from_iter (iter (of_bits b))).bits == b

from_iter-iter_table : all from_iter-iter_test bytes_of_set ≡ true
unfolding bytes_of_set from_iter-iter_test
from_iter-iter_table = refl

-- If the bits of a set lie below 128, building a set from the permissions that it lists gives the
-- same bits.
pub from_iter-iter : (s : WorkspacePermissions) → IsSet7 s → from_iter (iter s) ≡ s
unfolding from_iter-iter_test
from_iter-iter s h =
    let e = (==_iff _ s.bits).0 (each_byte from_iter-iter_test s.bits h from_iter-iter_table) in
    λ i. record { bits = e i }
