-- ===== src/Commands/Transactions.antt =====
-- What a transaction that succeeds has done, and that one that fails has done nothing.
use proofplane.Prelude.{◌≡◌, refl, ap, Bool, true, false, arith, Result, ok, err, ok-injective}
use proofplane.Commands.Documents.Messages.{as_command}
use proofplane.Commands.Documents.Types.{DocumentCommandError, command_repository}
use proofplane.Outbox.Rows.{PersistenceError, database}
use proofplane.Persistence.Database.{Database, in_unit_of_work, commit}

absurd_error :
    {A P : Type 0} (e : DocumentCommandError) (a : A)
    → ◌≡◌ {A = Result A DocumentCommandError} (err e) (ok a)
    → P
absurd_error e a h = ground arith

module _ {A Value : Type 0} where
  commit-ok :
      (r : Result (A × Database Value) PersistenceError) (db after : Database Value) (a : A)
      → as_command (commit db r) ≡ (ok a, after)
      → r ≡ ok (a, after)
  commit-ok (ok (x, v)) db after a h = rw (ok-injective x a (ap (λ p. p.0) h), ap (λ p. p.1) h) refl
  commit-ok (err e) db after a h = absurd_error (command_repository e) a (ap (λ p. p.0) h)

  pub in_unit_of_work-ok :
      (fails : Bool) (operation : Database Value → Result (A × Database Value) PersistenceError)
      (db after : Database Value) (a : A)
      → as_command (in_unit_of_work fails operation db) ≡ (ok a, after)
      → (fails ≡ false) × (operation db ≡ ok (a, after))
  unfolding in_unit_of_work
  in_unit_of_work-ok true operation db after a h =
      absurd_error (command_repository database) a (ap (λ p. p.0) h)
  in_unit_of_work-ok false operation db after a h = (refl, commit-ok (operation db) db after a h)
