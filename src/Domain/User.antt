-- ===== src/Domain/User.antt =====
-- src/domain/user.rs: a user as Auth0 knows it, and its logins.
mod Tests
use proofplane.Prelude.{
  ℕ, zero, suc, ◌+◌, ◌-◌, ◌*◌, ◌/◌, ◌%◌, ◌^◌, ◌≤◌, ◌<◌, ◌≡◌, refl, sym, ap, subst, ◌∙◌, ◌≢◌, ◌↔◌,
  ◌⊎◌, inl, inr, Bool, true, false, not, ◌&&◌, ◌||◌, Option, none, some, List, [], ◌∷◌, ◌++◌, map,
  arith, ltb, leb, ◌==◌, if◌then◌else◌, ltb→lt, lt→ltb, leb→le, ==_iff, ==_refl, Bool-cases,
  is_some, is_none, is_some_and, is_none_or, Option-cases, map_some, option_eq, option_eq_iff,
  bool_eq, and_left, and_right, length, is_empty, all, any, All, length-append, contains,
  occurrences, ℤ, pos, negsuc, is_negative, int_eq, int_le, is_positive, i64_max, checked_suc,
  int_option_eq, int_eq_iff, Result, ok, err, ◌>>=◌, ◌>>◌, map_err, ok_or, guard, is_ok,
}
use proofplane.Text.{Text, text_eq}
use proofplane.Domain.Ids.{UserId, DateTime}

pub record User : Type 0 where
  pub id : UserId
  pub auth0_sub : Text
  pub email : Option Text
  pub name : Option Text
  pub last_login_at : Option DateTime
  pub created_at : DateTime

pub data UserTransition : Type 0 where
  user_applied user_replay : UserTransition

pub data UserError : Type 0 where
  invalid_lifecycle : UserError

unfoldable pub provision : UserId → Text → Option Text → Option Text → DateTime → User
provision id auth0_sub email name created_at = record {
  id = id;
  auth0_sub = auth0_sub;
  email = email;
  name = name;
  last_login_at = none;
  created_at = created_at;
}

-- `rehydrate`, its arguments in a record.
unfoldable pub rehydrate : User → Result User UserError
rehydrate u =
    if is_some_and u.last_login_at (λ at. ltb at u.created_at) then err invalid_lifecycle else ok u

-- `Option::or_else` with a value that is at hand.
abbrev pub or_else : Option Text → Option Text → Option Text
or_else none t = t
or_else (some s) t = some s

-- `==` on optional texts.
abbrev pub optional_text_eq : Option Text → Option Text → Bool
optional_text_eq none none = true
optional_text_eq none (some _) = false
optional_text_eq (some _) none = false
optional_text_eq (some s) (some t) = text_eq s t

unfoldable pub provision_profile : User → Option Text → Option Text → UserTransition × User
provision_profile u email name =
    let next_email = or_else email u.email in
    let next_name = or_else name u.name in
    if optional_text_eq u.email next_email && optional_text_eq u.name next_name
    then (user_replay, u)
    else (user_applied, record u { email = next_email; name = next_name })

unfoldable pub record_login : User → DateTime → Result (UserTransition × User) UserError
record_login u logged_in_at =
    if ltb logged_in_at u.created_at
    then err invalid_lifecycle
    else if is_some_and u.last_login_at (λ current. leb logged_in_at current)
    then ok (user_replay, u)
    else ok (user_applied, record u { last_login_at = some logged_in_at })

pub data Call : Type 0 where
  profiles : Option Text → Option Text → Call
  logs_in : DateTime → Call

abbrev pub after_login : User → Result (UserTransition × User) UserError → User
after_login u (ok (_, v)) = v
after_login u (err _) = u

unfoldable pub step : User → Call → User
unfolding provision_profile record_login
step u (profiles email name) = (provision_profile u email name).1
step u (logs_in at) = after_login u (record_login u at)

unfoldable pub run : User → List Call → User
unfolding step
run u [] = u
run u (x ∷ xs) = run (step u x) xs

-- The instants of the logins of a history that are not before a creation.
abbrev pub logins : DateTime → List Call → List DateTime
logins created_at [] = []
logins created_at (profiles _ _ ∷ xs) = logins created_at xs
logins created_at (logs_in at ∷ xs) =
    let rest = logins created_at xs in if ltb at created_at then rest else at ∷ rest

-- The later of two instants, either of which may be missing.
abbrev pub later : Option DateTime → Option DateTime → Option DateTime
later none b = b
later (some a) none = some a
later (some a) (some b) = if leb a b then some b else some a

abbrev pub latest : List DateTime → Option DateTime
latest [] = none
latest (at ∷ ats) = later (some at) (latest ats)

later_assoc : (a b c : Option DateTime) → later (later a b) c ≡ later a (later b c)
later_assoc a b c = ground arith

step-profiles :
    (u : User) (email name : Option Text)
    → ((step u (profiles email name)).last_login_at ≡ u.last_login_at)
      × ((step u (profiles email name)).created_at ≡ u.created_at)
unfolding step
step-profiles u email name = ground arith

step-logs_in :
    (u : User) (at : DateTime)
    → ((step u (logs_in at)).last_login_at
        ≡ (if ltb at u.created_at then u.last_login_at else later u.last_login_at (some at)))
      × ((step u (logs_in at)).created_at ≡ u.created_at)
unfolding step
step-logs_in u at = ground arith

later-none : (a : Option DateTime) → a ≡ later a none
later-none a = ground arith

login_case :
    (last : Option DateTime) (b : Bool) (at : DateTime) (ats : List DateTime)
    → later (if b then last else later last (some at)) (latest ats)
      ≡ later last (latest (if b then ats else at ∷ ats))
login_case last true at ats = refl
login_case last false at ats = later_assoc last (some at) (latest ats)

run-latest :
    (u : User) (xs : List Call)
    → ((run u xs).last_login_at ≡ later u.last_login_at (latest (logins u.created_at xs)))
      × ((run u xs).created_at ≡ u.created_at)
unfolding run
run-latest u [] = (later-none u.last_login_at, refl)
run-latest u (profiles email name ∷ xs) =
    let (l, c) = step-profiles u email name in
    let (m, d) = run-latest (step u (profiles email name)) xs in (m ∙ rw (l, c) refl, d ∙ c)
run-latest u (logs_in at ∷ xs) =
    let (l, c) = step-logs_in u at in
    let (m, d) = run-latest (step u (logs_in at)) xs in
    (
      m ∙ rw (l, c) (login_case u.last_login_at (ltb at u.created_at) at (logins u.created_at xs)),
      d ∙ c,
    )

later-From :
    (created_at at : DateTime) (b : Option DateTime)
    → ltb at created_at ≡ false
    → is_some_and b (λ t. ltb t created_at) ≡ false
    → is_some_and (later (some at) b) (λ t. ltb t created_at) ≡ false
later-From created_at at b h k = ground arith

latest-From :
    (created_at : DateTime) (xs : List Call)
    → is_some_and (latest (logins created_at xs)) (λ at. ltb at created_at) ≡ false
latest-From created_at [] = refl
latest-From created_at (profiles _ _ ∷ xs) = latest-From created_at xs
latest-From created_at (logs_in at ∷ xs) = elim (Bool-cases (ltb at created_at)) [
  | inl early ↦ rw early (latest-From created_at xs)
  | inr timely ↦
      rw timely (
        later-From created_at at (latest (logins created_at xs)) timely (latest-From created_at xs))
]

rehydrate_lem :
    (u : User)
    → is_some_and u.last_login_at (λ at. ltb at u.created_at) ≡ false
    → rehydrate u ≡ ok u
unfolding rehydrate
rehydrate_lem u h = rw h refl

-- After any profile updates and logins of a newly provisioned user, last_login_at is the latest of
-- the logins that are not before the creation, and rehydrate accepts the user and gives it back as
-- it is.
pub provision-latest :
    (id : UserId) (sub : Text) (email name : Option Text) (at : DateTime) (xs : List Call)
    → ((run (provision id sub email name at) xs).last_login_at ≡ latest (logins at xs))
      × (rehydrate (run (provision id sub email name at) xs)
          ≡ ok (run (provision id sub email name at) xs))
unfolding provision
provision-latest id sub email name at xs =
    let u : User = provision id sub email name at in
    let (l, c) = run-latest u xs in (l, rehydrate_lem (run u xs) (rw (l, c) (latest-From at xs)))
