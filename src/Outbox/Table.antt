-- ===== src/Outbox/Table.antt =====
-- The statements on the table `outbox_messages`.
use proofplane.Prelude.{
  ℕ, ◌+◌, Bool, not, ◌&&◌, ◌||◌, List, [], ◌∷◌, ◌++◌, ltb, leb, ◌==◌, if◌then◌else◌, any, Result,
  ok, ◌>>=◌, ok_or,
}
use proofplane.Text.{codes}
use proofplane.Domain.Ids.{DateTime}
use proofplane.Messaging.Serde.{Serde}
use proofplane.Messaging.Types.{
  aggregate_type, payload, metadata, kind, kind_as_str, message_type, version,
}
use proofplane.Messaging.Wire.{payload_to_value}
use proofplane.Outbox.Ordering.{order_by, limit, where_}
use proofplane.Outbox.Rows.{
  invariant_violation, OutboxRow, legacy_event_type, outbox_message_from_row, OutboxMessage,
  PersistenceError, NewOutboxMessage, OutboxColumns, rescheduled,
}

-- The next value of the sequence of the identifiers, and the rows.
pub record Outbox (Value : Type 0) : Type 0 where
  pub next_id : ℕ
  pub rows : List (OutboxRow Value)

-- A row has this identifier.
abbrev pub has_row : {Kind Value : Type 0} → ℕ → List (OutboxColumns Kind Value) → Bool
has_row id rows = any (λ row. row.id == id) rows

module _ {Value : Type 0} where
  -- The row that the statement inserts: the identifier is the next one of the sequence, the two
  -- instants are `now()`, and there were no attempts.
  unfoldable pub inserted_row : ℕ → DateTime → NewOutboxMessage → Value → OutboxRow Value
  unfolding legacy_event_type aggregate_type payload metadata kind kind_as_str message_type version
  inserted_row id now message value = record {
    id = id;
    topic = message.topic;
    event_type = legacy_event_type message.message;
    aggregate_type = aggregate_type (payload message.message);
    aggregate_id = (metadata message.message).subject;
    payload = value;
    request_id = (metadata message.message).correlation_id;
    message_kind = kind_as_str (kind message.message);
    message_type = message_type message.message;
    message_version = version message.message;
    message_id = (metadata message.message).message_id;
    subject = (metadata message.message).subject;
    correlation_id = (metadata message.message).correlation_id;
    causation_id = (metadata message.message).causation_id;
    attempt_count = 0;
    next_available_at = now;
    created_at = now;
  }

  -- An error leaves the transaction to be rolled back.
  unfoldable pub append_outbox_message :
      Serde Value
      → DateTime
      → NewOutboxMessage
      → Outbox Value
      → Result (Outbox Value × OutboxMessage Value) PersistenceError
  unfolding inserted_row outbox_message_from_row payload payload_to_value
  append_outbox_message s now message t = do
    value ←
        ok_or (payload_to_value s (payload message.message))
          (invariant_violation (codes "integration message payload must serialize"))
    read ← outbox_message_from_row (inserted_row t.next_id now message value)
    ok (
      record {
        next_id = t.next_id + 1;
        rows = t.rows ++ (inserted_row t.next_id now message value ∷ []);
      },
      read,
    )

  -- `collect` of a list of results: the first error, or all the values.
  unfoldable pub collect_rows :
      List (OutboxRow Value) → Result (List (OutboxMessage Value)) PersistenceError
  unfolding outbox_message_from_row
  collect_rows [] = ok []
  collect_rows (row ∷ rows) = do
    message ← outbox_message_from_row row
    messages ← collect_rows rows
    ok (message ∷ messages)

  -- `ORDER BY next_available_at, id`
  abbrev pub row_before : OutboxRow Value → OutboxRow Value → Bool
  row_before a b =
      ltb a.next_available_at b.next_available_at
      || (a.next_available_at == b.next_available_at && leb a.id b.id)

  abbrev pub is_due : DateTime → OutboxRow Value → Bool
  is_due now row = leb row.next_available_at now

  unfoldable pub due_rows : DateTime → ℕ → List (OutboxRow Value) → List (OutboxRow Value)
  unfolding order_by
  due_rows now n rows = limit n (order_by row_before (where_ (is_due now) rows))

  unfoldable pub list_due_outbox_messages :
      DateTime → ℕ → Outbox Value → Result (List (OutboxMessage Value)) PersistenceError
  unfolding due_rows collect_rows
  list_due_outbox_messages now n t = collect_rows (due_rows now n t.rows)

  unfoldable pub list_exhausted_outbox_messages :
      ℕ → ℕ → Outbox Value → Result (List (OutboxMessage Value)) PersistenceError
  unfolding order_by collect_rows
  list_exhausted_outbox_messages max_attempts n t =
      collect_rows
        (limit n (order_by row_before (where_ (λ row. leb max_attempts row.attempt_count) t.rows)))

  unfoldable pub delete_rows : ℕ → List (OutboxRow Value) → List (OutboxRow Value)
  delete_rows id rows = where_ (λ row. not (row.id == id)) rows

  unfoldable pub delete_outbox_message : ℕ → Outbox Value → Bool × Outbox Value
  unfolding delete_rows
  delete_outbox_message id t = (has_row id t.rows, record t { rows = delete_rows id t.rows })

  unfoldable pub failed_rows : ℕ → DateTime → List (OutboxRow Value) → List (OutboxRow Value)
  failed_rows id at [] = []
  failed_rows id at (row ∷ rows) =
      (if row.id == id then rescheduled row (row.attempt_count + 1) at else row)
      ∷ failed_rows id at rows

  unfoldable pub record_outbox_publish_failure : ℕ → DateTime → Outbox Value → Bool × Outbox Value
  unfolding failed_rows
  record_outbox_publish_failure id at t =
      (has_row id t.rows, record t { rows = failed_rows id at t.rows })
