-- ===== src/Outbox/Keys.antt =====
-- The primary key of the table: no identifier occurs twice, and the sequence is ahead of all of them.
use proofplane.Prelude.{
  ℕ, ◌+◌, ◌<◌, ◌≡◌, refl, sym, ap, inl, inr, false, some, List, [], ◌∷◌, ◌++◌, arith, ◌==◌,
  Bool-cases, All, ok, ok_or, bind-ok, ok_or-ok, ok-injective,
}
use proofplane.Text.{codes}
use proofplane.Domain.Ids.{DateTime}
use proofplane.Messaging.Serde.{Serde}
use proofplane.Messaging.Types.{payload, command}
use proofplane.Messaging.Wire.{payload_to_value}
use proofplane.Outbox.Rows.{
  OutboxColumns, OutboxRow, NewOutboxMessage, OutboxMessage, outbox_message_from_row,
  invariant_violation, with_kind,
}
use proofplane.Outbox.Table.{
  Outbox, delete_rows, failed_rows, delete_outbox_message, record_outbox_publish_failure,
  append_outbox_message, has_row, inserted_row,
}

abbrev pub Keyed : {Kind Value : Type 0} → List (OutboxColumns Kind Value) → Type 0
Keyed [] = Unit
Keyed (row ∷ rows) = (has_row row.id rows ≡ false) × Keyed rows

abbrev pub IsKeyed : {Value : Type 0} → Outbox Value → Type 0
IsKeyed t = Keyed t.rows × All (λ row. row.id < t.next_id) t.rows

module _ {Value : Type 0} where
  has_row-delete_rows :
      (i j : ℕ) (rows : List (OutboxRow Value))
      → has_row j rows ≡ false
      → has_row j (delete_rows i rows) ≡ false
  unfolding delete_rows
  has_row-delete_rows i j [] h = refl
  has_row-delete_rows i j (r ∷ rows) h = ground (arith, has_row-delete_rows i j rows)

  pub has_row-failed_rows :
      (i j : ℕ) (at : DateTime) (rows : List (OutboxRow Value))
      → has_row j (failed_rows i at rows) ≡ has_row j rows
  unfolding failed_rows
  has_row-failed_rows i j at [] = refl
  has_row-failed_rows i j at (r ∷ rows) = elim (Bool-cases (r.id == i)) [
    | inl hit ↦ rw (hit, has_row-failed_rows i j at rows) refl
    | inr miss ↦ rw (miss, has_row-failed_rows i j at rows) refl
  ]

  Keyed-delete_rows :
      (i : ℕ) (rows : List (OutboxRow Value)) → Keyed rows → Keyed (delete_rows i rows)
  unfolding delete_rows
  Keyed-delete_rows i [] h = tt
  Keyed-delete_rows i (r ∷ rows) (new, h) = elim (Bool-cases (r.id == i)) [
    | inl hit ↦ rw hit (Keyed-delete_rows i rows h)
    | inr miss ↦ rw miss (has_row-delete_rows i r.id rows new, Keyed-delete_rows i rows h)
  ]

  Keyed-failed_rows :
      (i : ℕ) (at : DateTime) (rows : List (OutboxRow Value))
      → Keyed rows
      → Keyed (failed_rows i at rows)
  unfolding failed_rows
  Keyed-failed_rows i at [] h = tt
  Keyed-failed_rows i at (r ∷ rows) (new, h) = elim (Bool-cases (r.id == i)) [
    | inl hit ↦ rw (hit, has_row-failed_rows i r.id at rows) (new, Keyed-failed_rows i at rows h)
    | inr miss ↦ rw (miss, has_row-failed_rows i r.id at rows) (new, Keyed-failed_rows i at rows h)
  ]

  -- The identifiers that remain are below a bound.
  abbrev pub Below : ℕ → List (OutboxRow Value) → Type 0
  Below n rows = All (λ row. row.id < n) rows

  Below-delete_rows :
      (n i : ℕ) (rows : List (OutboxRow Value)) → Below n rows → Below n (delete_rows i rows)
  unfolding delete_rows
  Below-delete_rows n i [] h = tt
  Below-delete_rows n i (r ∷ rows) (l, h) = elim (Bool-cases (r.id == i)) [
    | inl hit ↦ rw hit (Below-delete_rows n i rows h)
    | inr miss ↦ rw miss (l, Below-delete_rows n i rows h)
  ]

  Below-failed_rows :
      (n i : ℕ) (at : DateTime) (rows : List (OutboxRow Value))
      → Below n rows
      → Below n (failed_rows i at rows)
  unfolding failed_rows
  Below-failed_rows n i at [] h = tt
  Below-failed_rows n i at (r ∷ rows) (l, h) = elim (Bool-cases (r.id == i)) [
    | inl hit ↦ rw hit (l, Below-failed_rows n i at rows h)
    | inr miss ↦ rw miss (l, Below-failed_rows n i at rows h)
  ]

  pub delete_outbox_message-IsKeyed :
      (id : ℕ) (t : Outbox Value) → IsKeyed t → IsKeyed (delete_outbox_message id t).1
  unfolding delete_outbox_message
  delete_outbox_message-IsKeyed id t (k, b) =
      (Keyed-delete_rows id t.rows k, Below-delete_rows t.next_id id t.rows b)

  pub record_outbox_publish_failure-IsKeyed :
      (id : ℕ) (at : DateTime) (t : Outbox Value)
      → IsKeyed t
      → IsKeyed (record_outbox_publish_failure id at t).1
  unfolding record_outbox_publish_failure
  record_outbox_publish_failure-IsKeyed id at t (k, b) =
      (Keyed-failed_rows id at t.rows k, Below-failed_rows t.next_id id at t.rows b)

  has_row-append :
      (j : ℕ) (rows : List (OutboxRow Value)) (r : OutboxRow Value)
      → has_row j rows ≡ false
      → (r.id == j) ≡ false
      → has_row j (rows ++ r ∷ []) ≡ false
  has_row-append j [] r h o = rw o refl
  has_row-append j (x ∷ rows) r h o = ground (arith, has_row-append j rows r)

  -- A new row goes to the end.
  appended-IsKeyed :
      (n : ℕ) (rows : List (OutboxRow Value)) (r : OutboxRow Value)
      → r.id ≡ n
      → Keyed rows
      → Below n rows
      → Keyed (rows ++ (r ∷ [])) × Below (n + 1) (rows ++ (r ∷ []))
  appended-IsKeyed n [] r e k b = ((refl, tt), (omega arith, tt))
  appended-IsKeyed n (x ∷ rows) r e (new, k) (l, b) =
      let (k', b') = appended-IsKeyed n rows r e k b in
      ((has_row-append x.id rows r new (ground arith), k'), (omega arith, b'))

  abbrev pub with_row : Outbox Value → OutboxRow Value → Outbox Value
  with_row t row = record { next_id = t.next_id + 1; rows = t.rows ++ row ∷ [] }

  -- Where the statement succeeds, it has put one row at the end, and answers what it reads of it.
  pub append_outbox_message-inserted_row :
      (s : Serde Value) (now : DateTime) (message : NewOutboxMessage) (t v : Outbox Value)
      (m : OutboxMessage Value)
      → append_outbox_message s now message t ≡ ok (v, m)
      → (value : Value) × (payload_to_value s (payload message.message) ≡ some value)
        × (outbox_message_from_row (inserted_row t.next_id now message value) ≡ ok m)
        × (v ≡ with_row t (inserted_row t.next_id now message value))
  unfolding append_outbox_message outbox_message_from_row
  append_outbox_message-inserted_row s now message t v m h =
      let (value, wrote, h1) =
        bind-ok
          (ok_or (payload_to_value s (payload message.message))
            (invariant_violation (codes "integration message payload must serialize")))
          _ (v, m) h in
      let row = inserted_row t.next_id now message value in
      let same = ok-injective (with_row t row, with_kind row command) (v, m) h1 in
      (value, ok_or-ok _ _ value wrote, ap (λ p. ok p.1) same, sym (ap (λ p. p.0) same))

  pub append_outbox_message-IsKeyed :
      (s : Serde Value) (now : DateTime) (message : NewOutboxMessage) (t v : Outbox Value)
      (m : OutboxMessage Value)
      → IsKeyed t
      → append_outbox_message s now message t ≡ ok (v, m)
      → IsKeyed v
  unfolding inserted_row
  append_outbox_message-IsKeyed s now message t v m (k, b) h =
      let (value, _, _, e) = append_outbox_message-inserted_row s now message t v m h in
      rw e (appended-IsKeyed t.next_id t.rows _ refl k b)
