-- ===== src/Domain/User/Tests.antt =====
-- One user on concrete data.
use proofplane.Prelude.{◌≡◌, refl, none, some, List, [], ◌∷◌, ok}
use proofplane.Text.{codes}
use proofplane.Domain.User.{
  profiles, logs_in, Call, run, provision, latest, logins, rehydrate, provision-latest,
}

abbrev visits : List Call
visits =
    logs_in 50 ∷ logs_in 300 ∷ profiles (some (codes "ada@example.com")) none ∷ logs_in 200 ∷ []

visits_test : (run (provision 1 (codes "auth0|u") none none 100) visits).last_login_at ≡ some 300
unfolding run provision
visits_test = refl

provision-latest_example :
    ((run (provision 1 (codes "auth0|u") none none 100) visits).last_login_at
      ≡ latest (logins 100 visits))
    × (rehydrate (run (provision 1 (codes "auth0|u") none none 100) visits)
        ≡ ok (run (provision 1 (codes "auth0|u") none none 100) visits))
provision-latest_example = provision-latest 1 (codes "auth0|u") none none 100 visits
