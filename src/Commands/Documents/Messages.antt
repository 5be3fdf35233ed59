-- ===== src/Commands/Documents/Messages.antt =====
-- The message that follows from a transition, appended in its transaction.
use proofplane.Prelude.{Option, none, some, Result, ok, ◌>>=◌, map_err}
use proofplane.Text.{Text, codes}
use proofplane.Commands.Documents.Types.{command_repository, DocumentCommandError}
use proofplane.Commands.Metadata.{Environment, ExecutionMetadata}
use proofplane.Domain.Document.Types.{DocumentEvent, scan_requested, finalization_requested}
use proofplane.Domain.Ids.{Uuid}
use proofplane.Messaging.Serde.{Serde}
use proofplane.Messaging.Types.{new_scan_document, new_finalize_document, Uuids}
use proofplane.Outbox.Rows.{NewOutboxMessage, PersistenceError, OutboxMessage}
use proofplane.Outbox.Table.{Outbox, append_outbox_message}
use proofplane.Persistence.Database.{Database}

abbrev pub message_bus_topic : Text
message_bus_topic = codes "proof.message_bus"

-- `Option::or`
abbrev pub or_else : Option Uuid → Option Uuid → Option Uuid
or_else none b = b
or_else (some a) b = some a

unfoldable pub message_for :
    Uuids → Uuid → Option DocumentEvent → ExecutionMetadata → Option NewOutboxMessage
unfolding new_scan_document new_finalize_document
message_for u message_id none m = none
message_for u message_id (some (scan_requested identity object_key)) m = some (record {
  topic = message_bus_topic;
  message =
      new_scan_document u message_id identity object_key (or_else m.correlation_id m.request_id)
        m.causation_id;
})
message_for u message_id (some (finalization_requested identity object_key)) m = some (record {
  topic = message_bus_topic;
  message =
      new_finalize_document u message_id identity object_key (or_else m.correlation_id m.request_id)
        m.causation_id;
})

-- `map_err(Into::into)` on what a transaction answers.
abbrev pub as_command :
    {A Value : Type 0}
    → Result A PersistenceError × Database Value
    → Result A DocumentCommandError × Database Value
as_command (answer, db) = (map_err command_repository answer, db)

module _ {Value : Type 0} (s : Serde Value) (u : Uuids) (env : Environment) where
  abbrev pub with_outbox :
      Database Value → Outbox Value × OutboxMessage Value → Result (Database Value) PersistenceError
  with_outbox db (outbox, _) = ok (record db { outbox = outbox })

  abbrev pub append_message :
      Option NewOutboxMessage → Database Value → Result (Database Value) PersistenceError
  append_message none db = ok db
  append_message (some message) db =
      append_outbox_message s env.now message db.outbox >>= with_outbox db

  -- `append_transition_message` and `append_transaction_message`
  unfoldable pub append_transition_message :
      Option DocumentEvent
      → ExecutionMetadata
      → Database Value
      → Result (Database Value) PersistenceError
  unfolding message_for append_outbox_message
  append_transition_message e m db = append_message (message_for u env.message_id e m) db
