-- ===== src/Domain/Workspace/Verdict.antt =====
-- `remove_member` on every branch, in the words of roles: who is refused and why, and what a removal
-- leaves of the workspace.
use proofplane.Prelude.{
  ℕ, ◌≤◌, ◌≡◌, refl, sym, subst, ◌∙◌, ◌↔◌, ◌⊎◌, inl, inr, Bool, true, false, ◌&&◌, none, some, List,
  arith, ltb, ◌==◌, if◌then◌else◌, ltb→lt, ==_iff, Bool-cases, Option-cases, and_left, Result, ok,
  err,
}
use proofplane.Domain.Ids.{UserId}
use proofplane.Domain.Workspace.Invariant.{IsValid, NoRepeat}
use proofplane.Domain.Workspace.Members.{
  remove_member, role_for, owner_count, position, is_owner_at, remove_at, role_in, user_ids,
}
use proofplane.Domain.Workspace.Owners.{owner-counted, counted-owner}
use proofplane.Domain.Workspace.Removal.{
  role_in-position, remove_at-scoped, remove_at-NoRepeat, owner_count-remove_at, role_in-remove_at,
}
use proofplane.Domain.Workspace.Types.{
  owner, unavailable, not_found, last_owner, self_removal, Workspace, WorkspaceMemberError,
  WorkspaceRole, WorkspaceMembership,
}

-- The user is an owner, and no other user is one.
abbrev pub OnlyOwner : Workspace → UserId → Type 0
OnlyOwner w user =
    (role_for w user ≡ some owner) × ((x : UserId) → role_for w x ≡ some owner → x ≡ user)

abbrev pub IsMember : Workspace → UserId → Type 0
IsMember w user = (role : WorkspaceRole) × (role_for w user ≡ some role)

-- Why an actor may not remove a target.
abbrev pub Refused : Workspace → UserId → UserId → WorkspaceMemberError → Type 0
Refused w actor target unavailable = role_for w actor ≡ none
Refused w actor target not_found = IsMember w actor × (role_for w target ≡ none)
Refused w actor target last_owner = IsMember w actor × OnlyOwner w target
Refused w actor target self_removal = IsMember w actor × (actor ≡ target) × ¬ OnlyOwner w target

-- What is left when a member goes.
abbrev pub Removed : Workspace → UserId → Workspace → Type 0
Removed w target v =
    IsValid v
    × ((x : UserId) → role_for v x ≡ (if x == target then none else role_for w x))
    × (v.id ≡ w.id)

owner_at_iff :
    (ms : List WorkspaceMembership) (target : UserId) (i : ℕ)
    → position target ms ≡ some i
    → (is_owner_at ms i ≡ true) ↔ (role_in ms target ≡ some owner)
owner_at_iff ms target i found = (
  λ h. ground (arith, role_in-position ms target),
  λ h. ground (arith, role_in-position ms target),
)

-- Without the target, an owner is left exactly where another user is one.
other_owner :
    (ms : List WorkspaceMembership) (target x : UserId) (i : ℕ)
    → NoRepeat (user_ids ms)
    → position target ms ≡ some i
    → role_in ms x ≡ some owner
    → (x ≡ target) ⊎ (1 ≤ owner_count (remove_at ms i))
other_owner ms target x i n found h = elim (Bool-cases (x == target)) [
  | inl same ↦ inl ((==_iff x target).0 same)
  | inr other ↦
      inr (owner-counted (remove_at ms i) x (role_in-remove_at ms target x i n found ∙ rw other h))
]

left_owner :
    (ms : List WorkspaceMembership) (target : UserId) (i : ℕ)
    → NoRepeat (user_ids ms)
    → position target ms ≡ some i
    → 1 ≤ owner_count (remove_at ms i)
    → (x : UserId) × (role_in ms x ≡ some owner) × ((x == target) ≡ false)
left_owner ms target i n found h =
    let (x, role) = counted-owner (remove_at ms i) (remove_at-NoRepeat ms i n) h in
    (
      x,
      ground (arith, role_in-remove_at ms target x i n found),
      ground (arith, role_in-remove_at ms target x i n found),
    )

last_owner_iff :
    (w : Workspace) (target : UserId) (i : ℕ)
    → IsValid w
    → position target w.memberships ≡ some i
    → ((is_owner_at w.memberships i && owner_count w.memberships == 1) ≡ true) ↔ OnlyOwner w target
unfolding role_for
last_owner_iff w target i h found =
    let ms = w.memberships in
    let total = owner_count-remove_at ms i in
    (
      λ e. (
        (owner_at_iff ms target i found).0 (and_left _ _ e),
        λ x role. elim (other_owner ms target x i h.unique found role) [
          | inl same ↦ same
          | inr left ↦ absurd (ground (arith, total))
        ],
      ),
      λ (role, only).
          let first = (owner_at_iff ms target i found).1 role in
          elim (Bool-cases (ltb 0 (owner_count (remove_at ms i)))) [
            | inr none_left ↦ ground (arith, total)
            | inl some_left ↦
                let (x, other, apart) =
                  left_owner ms target i h.unique found
                    (ltb→lt 0 (owner_count (remove_at ms i)) some_left) in
                absurd (ground (arith, only x other, ==_iff x target))
          ],
    )

-- A user has no role exactly where no membership is found.
position-none :
    (w : Workspace) (user : UserId)
    → (position user w.memberships ≡ none) ↔ (role_for w user ≡ none)
unfolding role_for
position-none w user = (
  λ h. ground (arith, role_in-position w.memberships user),
  λ h. ground (arith, role_in-position w.memberships user),
)

-- The test of the guard on the last owner.
abbrev is_last_owner : Workspace → ℕ → Bool
is_last_owner w i = is_owner_at w.memberships i && owner_count w.memberships == 1

member_found :
    (w : Workspace) (actor target : UserId) (role : WorkspaceRole)
    → role_for w actor ≡ some role
    → position target w.memberships ≡ none
    → remove_member w actor target ≡ err not_found
unfolding remove_member
member_found w actor target role h k = ground arith

found_target :
    (w : Workspace) (actor target : UserId) (role : WorkspaceRole) (i : ℕ)
    → role_for w actor ≡ some role
    → position target w.memberships ≡ some i
    → remove_member w actor target ≡ (
        if is_last_owner w i
        then err last_owner
        else if actor == target
        then err self_removal
        else ok (record w { memberships = remove_at w.memberships i }))
unfolding remove_member
found_target w actor target role i h k = ground arith

not_member :
    (w : Workspace) (actor target : UserId)
    → role_for w actor ≡ none
    → remove_member w actor target ≡ err unavailable
unfolding remove_member
not_member w actor target h = ground arith

same_error :
    (w : Workspace) (actor target : UserId) (e f : WorkspaceMemberError)
    → ◌≡◌ {A = Result Workspace WorkspaceMemberError} (err f) (err e)
    → Refused w actor target f
    → Refused w actor target e
same_error w actor target e f h = subst (Refused w actor target) (ground arith)

found_target-Refused :
    (w : Workspace) (actor target : UserId) (e : WorkspaceMemberError) (role : WorkspaceRole)
    (i : ℕ)
    → IsValid w
    → role_for w actor ≡ some role
    → position target w.memberships ≡ some i
    → remove_member w actor target ≡ err e
    → Refused w actor target e
found_target-Refused w actor target e role i v h k r =
    let branch = sym (found_target w actor target role i h k) ∙ r in
    elim (Bool-cases (is_last_owner w i)) [
      | inl last ↦
          same_error w actor target e last_owner (sym (rw last refl) ∙ branch)
            ((role, h), (last_owner_iff w target i v k).0 last)
      | inr more ↦ elim (Bool-cases (actor == target)) [
        | inl same ↦
            same_error w actor target e self_removal (sym (rw (more, same) refl) ∙ branch) (
              (role, h),
              (==_iff actor target).0 same,
              λ only. ground (arith, (last_owner_iff w target i v k).1 only),
            )
        | inr apart ↦ ground arith
      ]
    ]

error-Refused :
    (w : Workspace) (actor target : UserId) (e : WorkspaceMemberError)
    → IsValid w
    → remove_member w actor target ≡ err e
    → Refused w actor target e
error-Refused w actor target e v r = elim (Option-cases (role_for w actor)) [
  | inl missing ↦
      same_error w actor target e unavailable (sym (not_member w actor target missing) ∙ r) missing
  | inr (role, h) ↦ elim (Option-cases (position target w.memberships)) [
    | inl absent ↦
        same_error w actor target e not_found (sym (member_found w actor target role h absent) ∙ r)
          ((role, h), (position-none w target).0 absent)
    | inr (i, k) ↦ found_target-Refused w actor target e role i v h k r
  ]
]

member-position :
    (w : Workspace) (user : UserId) (role : WorkspaceRole)
    → role_for w user ≡ some role
    → (i : ℕ) × (position user w.memberships ≡ some i)
member-position w user role h = elim (Option-cases (position user w.memberships)) [
  | inl absent ↦ absurd (ground (arith, (position-none w user).0 absent))
  | inr found ↦ found
]

error_of_reason :
    (w : Workspace) (actor target : UserId) (e : WorkspaceMemberError)
    → IsValid w
    → Refused w actor target e
    → remove_member w actor target ≡ err e
error_of_reason w actor target unavailable v h = not_member w actor target h
error_of_reason w actor target not_found v ((role, h), k) =
    member_found w actor target role h ((position-none w target).1 k)
error_of_reason w actor target last_owner v ((role, h), only) =
    let (i, k) = member-position w target owner only.0 in
    found_target w actor target role i h k ∙ rw ((last_owner_iff w target i v k).1 only) refl
error_of_reason w actor target self_removal v ((role, h), same, others) =
    let (i, k) = member-position w target role (subst (λ x. role_for w x ≡ some role) same h) in
    found_target w actor target role i h k ∙ elim (Bool-cases (is_last_owner w i)) [
      | inl last ↦ absurd (others ((last_owner_iff w target i v k).0 last))
      | inr more ↦ rw (more, (==_iff actor target).1 same) refl
    ]

-- If a workspace is valid, remove_member fails with Unavailable exactly if the actor is no member,
-- with NotFound exactly if the actor is one and the target is none, with LastOwner exactly if the
-- actor is a member and the target is an owner and no other user is one, and with SelfRemoval
-- exactly if the actor is a member and the target, and not the only owner.
pub remove_member-Refused :
    (w : Workspace) (actor target : UserId) (e : WorkspaceMemberError)
    → IsValid w
    → (remove_member w actor target ≡ err e) ↔ Refused w actor target e
remove_member-Refused w actor target e v =
    (error-Refused w actor target e v, error_of_reason w actor target e v)

removal-Removed :
    (w : Workspace) (target : UserId) (i : ℕ)
    → IsValid w
    → position target w.memberships ≡ some i
    → (is_owner_at w.memberships i && owner_count w.memberships == 1) ≡ false
    → Removed w target (record w { memberships = remove_at w.memberships i })
unfolding role_for
removal-Removed w target i h found others = (
  record {
    scoped = remove_at-scoped w.id w.memberships i h.scoped;
    unique = remove_at-NoRepeat w.memberships i h.unique;
    owned = ground (arith, h.owned, owner_count-remove_at w.memberships i);
  },
  λ x. role_in-remove_at w.memberships target x i h.unique found,
  refl,
)

-- If a workspace is valid and remove_member succeeds, the result is valid, so it has an owner; the
-- target has no role in it, every other user has the role it had, and the id is the same.
pub remove_member-Removed :
    (w v : Workspace) (actor target : UserId)
    → IsValid w
    → remove_member w actor target ≡ ok v
    → Removed w target v
unfolding remove_member
remove_member-Removed w v actor target h e = elim (Option-cases (position target w.memberships)) [
  | inl missing ↦ ground arith
  | inr (i, found) ↦
      subst (Removed w target) (ground arith) (removal-Removed w target i h found (ground arith))
]
