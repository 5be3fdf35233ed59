-- ===== src/Dequeuer/Counting.antt =====
-- The count that a run answers is the number of rows that have left the table.
use proofplane.Prelude.{
  ℕ, ◌+◌, ◌≡◌, refl, sym, subst, ◌∙◌, inl, inr, Bool, true, false, List, [], ◌∷◌, arith, ◌==◌,
  if◌then◌else◌, Bool-cases, length, Result, ok, err, ok-injective,
}
use proofplane.Dequeuer.History.{settle-IsKeyed}
use proofplane.Dequeuer.Publishing.{
  published, failed, Publisher, OutboxDequeuerConfig, PublishOutcome, publish_outbox_row, panicked,
}
use proofplane.Dequeuer.Run.{
  settle, World, next_fault, publish_rows, publish_row, and_then, run_once,
}
use proofplane.Domain.Ids.{DateTime}
use proofplane.Messaging.Serde.{Serde}
use proofplane.Outbox.Count.{
  Named, has_row-delete_rows_other, length-delete_rows, length-failed_rows,
}
use proofplane.Outbox.Keys.{Keyed, IsKeyed, has_row-failed_rows}
use proofplane.Outbox.Listing.{due-Named}
use proofplane.Outbox.Rows.{OutboxMessage, database, PersistenceError, OutboxRow, unwound}
use proofplane.Outbox.Table.{
  delete_outbox_message, record_outbox_publish_failure, has_row, collect_rows,
  list_due_outbox_messages, due_rows,
}

module _ {Value : Type 0} (s : Serde Value) (publisher : Publisher)
    (config : OutboxDequeuerConfig) where
  abbrev pub one_if : Bool → ℕ
  one_if done = if done then 1 else 0

  absurd_answer :
      {P : Type 0} (e : PersistenceError) (done : Bool)
      → ◌≡◌ {A = Result Bool PersistenceError} (err e) (ok done)
      → P
  absurd_answer e done h = ground arith

  settle-length :
      (row : OutboxMessage Value) (outcome : PublishOutcome) (w : World Value) (done : Bool)
      → Keyed w.outbox.rows
      → has_row row.id w.outbox.rows ≡ true
      → (settle s publisher config row outcome w).0 ≡ ok done
      → length (settle s publisher config row outcome w).1.outbox.rows + one_if done
        ≡ length w.outbox.rows
  unfolding settle delete_outbox_message record_outbox_publish_failure
  settle-length row published w done k there h = elim (Bool-cases (next_fault w.faults)) [
    | inl broken ↦ absurd_answer database done (sym (rw broken refl) ∙ h)
    | inr works ↦
        let e = ok-injective true done (sym (rw works refl) ∙ h) in
        rw (works, sym e) (length-delete_rows row.id w.outbox.rows k there)
  ]
  settle-length row (failed error at exhausted) w done k there h =
      elim (Bool-cases (next_fault w.faults)) [
        | inl broken ↦ absurd_answer database done (sym (rw broken refl) ∙ h)
        | inr works ↦
            let e = ok-injective false done (sym (rw works refl) ∙ h) in
            rw (works, sym e) (omega (arith, length-failed_rows row.id at w.outbox.rows))
      ]
  settle-length row panicked w done k there h = absurd_answer unwound done h

  settle-has_row :
      (j : ℕ) (row : OutboxMessage Value) (outcome : PublishOutcome) (w : World Value)
      → (row.id == j) ≡ false
      → has_row j w.outbox.rows ≡ true
      → has_row j (settle s publisher config row outcome w).1.outbox.rows ≡ true
  unfolding settle delete_outbox_message record_outbox_publish_failure
  settle-has_row j row published w other there = elim (Bool-cases (next_fault w.faults)) [
    | inl broken ↦ rw broken there
    | inr works ↦ rw (works, has_row-delete_rows_other row.id j w.outbox.rows other) there
  ]
  settle-has_row j row (failed error at exhausted) w other there =
      elim (Bool-cases (next_fault w.faults)) [
        | inl broken ↦ rw broken there
        | inr works ↦ rw (works, has_row-failed_rows row.id j at w.outbox.rows) there
      ]
  settle-has_row j row panicked w other there = there

  settle-Named :
      (row : OutboxMessage Value) (outcome : PublishOutcome) (w : World Value)
      (ls : List (OutboxMessage Value))
      → has_row row.id ls ≡ false
      → Named w.outbox.rows ls
      → Named (settle s publisher config row outcome w).1.outbox.rows ls
  settle-Named row outcome w [] new named = tt
  settle-Named row outcome w (l ∷ ls) new (there, named) = (
    settle-has_row l.id row outcome w (ground arith) there,
    settle-Named row outcome w ls (ground arith) named,
  )

  -- Each published row leaves the table and each other row stays.
  abbrev pub Counted : ℕ → ℕ → Result ℕ PersistenceError × World Value → Type 0
  Counted rows count (ok n, v) = length v.outbox.rows + n ≡ rows + count
  Counted rows count (err e, v) = Unit

  Counted-shift :
      (a b c d : ℕ) (result : Result ℕ PersistenceError × World Value)
      → a + c ≡ b + d
      → Counted a c result
      → Counted b d result
  Counted-shift a b c d (ok n, v) e h = omega arith
  Counted-shift a b c d (err error, v) e h = tt

  Counted-and_then :
      (result : Result Bool PersistenceError × World Value)
      (rest : Bool → World Value → Result ℕ PersistenceError × World Value) (rows count : ℕ)
      → ((done : Bool) → result.0 ≡ ok done → length result.1.outbox.rows + one_if done ≡ rows)
      → ((done : Bool)
          → Counted
              (length result.1.outbox.rows)
              (if done then count + 1 else count)
              (rest done result.1))
      → Counted rows count (and_then result rest)
  Counted-and_then (ok true, v) rest rows count step h =
      Counted-shift _ rows _ count (rest true v) (omega (arith, step true refl)) (h true)
  Counted-and_then (ok false, v) rest rows count step h =
      Counted-shift _ rows _ count (rest false v) (omega (arith, step false refl)) (h false)
  Counted-and_then (err e, v) rest rows count step h = tt

  publish_rows-Counted :
      (ls : List (OutboxMessage Value)) (count : ℕ) (now : DateTime) (w : World Value)
      → IsKeyed w.outbox
      → Keyed ls
      → Named w.outbox.rows ls
      → Counted (length w.outbox.rows) count (publish_rows s publisher config ls count now w)
  unfolding publish_rows publish_row
  publish_rows-Counted [] count now w valid keys named = refl
  publish_rows-Counted (row ∷ ls) count now w valid (new, keys) (there, named) =
      let outcome = publish_outbox_row s publisher config row now w.log in
      let v = record w { log = outcome.1 } in
      Counted-and_then (publish_row s publisher config row now w) _ (length w.outbox.rows) count
        (λ done. settle-length row outcome.0 v done valid.0 there)
        (λ done.
          publish_rows-Counted ls _ now _ (settle-IsKeyed s publisher config row outcome.0 v valid)
            keys (settle-Named row outcome.0 v ls new named))

  listed-Counted :
      (rows : List (OutboxRow Value)) (now : DateTime) (v : World Value)
      → IsKeyed v.outbox
      → ((ms : List (OutboxMessage Value))
          → collect_rows rows ≡ ok ms
          → Keyed ms × Named v.outbox.rows ms)
      → Counted
          (length v.outbox.rows)
          0
          (and_then (collect_rows rows, v) (λ ms u. publish_rows s publisher config ms 0 now u))
  listed-Counted rows now v valid listed =
      elim (collect_rows rows)
          as (λ answer.
            collect_rows rows ≡ answer
            → Counted (length v.outbox.rows) 0
                (and_then (answer, v) (λ ms u. publish_rows s publisher config ms 0 now u))) [
                  | ok ms ↦
                      λ e. publish_rows-Counted ms 0 now v valid (listed ms e).0 (listed ms e).1
                  | err error ↦ λ _. tt
                ]
        refl

  run_once-Counted :
      (now : DateTime) (w : World Value)
      → IsKeyed w.outbox
      → Counted (length w.outbox.rows) 0 (run_once s publisher config now w)
  unfolding run_once list_due_outbox_messages
  run_once-Counted now w valid = elim (Bool-cases (next_fault w.faults)) [
    | inl broken ↦ rw broken tt
    | inr works ↦ rw works (
        listed-Counted (due_rows now config.batch_size w.outbox.rows) now _ valid
          (λ ms e. due-Named now config.batch_size w.outbox.rows ms valid.0 e))
  ]

  -- If the identifiers in the outbox are distinct and below the next one and a run answers Ok with
  -- a count, that count is the number of rows by which the outbox has shrunk.
  pub run_once-count :
      (now : DateTime) (w v : World Value) (n : ℕ)
      → IsKeyed w.outbox
      → run_once s publisher config now w ≡ (ok n, v)
      → length v.outbox.rows + n ≡ length w.outbox.rows
  run_once-count now w v n valid h =
      omega (arith, subst (Counted (length w.outbox.rows) 0) h (run_once-Counted now w valid))
