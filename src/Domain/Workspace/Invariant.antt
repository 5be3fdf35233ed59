-- ===== src/Domain/Workspace/Invariant.antt =====
-- A workspace that `rehydrate` accepts, and what adding a member keeps of it.
use proofplane.Prelude.{
  ℕ, ◌≤◌, ◌≡◌, refl, ◌↔◌, true, false, List, [], ◌∷◌, arith, ◌==◌, length, all, any, All, contains,
  ok,
}
use proofplane.Domain.Ids.{WorkspaceId}
use proofplane.Domain.Workspace.Members.{distinct_count, owner_count, rehydrate, user_ids}
use proofplane.Domain.Workspace.Types.{Workspace, WorkspaceMembership, is_owner}

-- No number stands in the list twice.
abbrev pub NoRepeat : List ℕ → Type 0
NoRepeat [] = Unit
NoRepeat (x ∷ xs) = (contains x xs ≡ false) × NoRepeat xs

pub record IsValid (w : Workspace) : Type 0 where
  pub scoped : All (λ m. m.workspace_id ≡ w.id) w.memberships
  pub unique : NoRepeat (user_ids w.memberships)
  pub owned : 1 ≤ owner_count w.memberships

distinct_count-le : (xs : List ℕ) → distinct_count xs ≤ length xs
unfolding distinct_count
distinct_count-le [] = omega arith
distinct_count-le (x ∷ xs) = ground (arith, distinct_count-le xs)

distinct_count-NoRepeat : (xs : List ℕ) → (distinct_count xs ≡ length xs) ↔ NoRepeat xs
unfolding distinct_count
distinct_count-NoRepeat [] = (λ _. tt, λ _. refl)
distinct_count-NoRepeat (x ∷ xs) =
    let (to, from) = distinct_count-NoRepeat xs in
    (
      λ e. (ground (arith, distinct_count-le xs), to (ground (arith, distinct_count-le xs))),
      λ h. ground (arith, from h.1),
    )

scoped_iff :
    (id : WorkspaceId) (ms : List WorkspaceMembership)
    → (all (λ m. m.workspace_id == id) ms ≡ true) ↔ All (λ m. m.workspace_id ≡ id) ms
scoped_iff id [] = (λ _. tt, λ _. refl)
scoped_iff id (m ∷ ms) =
    let (to, from) = scoped_iff id ms in
    (λ e. (ground arith, to (ground arith)), λ h. ground (arith, from h.1))

has_owner_iff : (ms : List WorkspaceMembership) → (any is_owner ms ≡ true) ↔ (1 ≤ owner_count ms)
unfolding owner_count
has_owner_iff [] = (λ e. cc, λ h. absurd (omega arith))
has_owner_iff (m ∷ ms) =
    let (to, from) = has_owner_iff ms in (λ e. ground (arith, to), λ h. ground (arith, from))

length-map_user : (ms : List WorkspaceMembership) → length (user_ids ms) ≡ length ms
length-map_user [] = refl
length-map_user (m ∷ ms) = omega (arith, length-map_user ms)

-- A snapshot is accepted exactly if it is valid, and is then taken over unchanged.
pub rehydrate-IsValid : (w v : Workspace) → (rehydrate w ≡ ok v) ↔ ((v ≡ w) × IsValid w)
unfolding rehydrate
rehydrate-IsValid w v = (
  λ e. (
    ground arith,
    record {
      scoped = (scoped_iff w.id w.memberships).0 (ground arith);
      unique =
          (distinct_count-NoRepeat (user_ids w.memberships)).0
            (ground (arith, length-map_user w.memberships));
      owned = (has_owner_iff w.memberships).0 (ground arith);
    },
  ),
  λ (e, h). ground (
    arith,
    (scoped_iff w.id w.memberships).1 h.scoped,
    (distinct_count-NoRepeat (user_ids w.memberships)).1 h.unique,
    length-map_user w.memberships,
    (has_owner_iff w.memberships).1 h.owned,
  ),
)
