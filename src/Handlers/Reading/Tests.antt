-- ===== src/Handlers/Reading/Tests.antt =====
-- One scan request on its way from the command to the handler.
use proofplane.Prelude.{ℕ, ◌≡◌, refl, none, some, List, [], ◌∷◌, ok}
use proofplane.Text.{codes}
use proofplane.Commands.Documents.Messages.{message_for}
use proofplane.Commands.Metadata.{ExecutionMetadata}
use proofplane.Dequeuer.Publishing.{outbound_message}
use proofplane.Domain.Document.Types.{scan_requested, evidence_identity}
use proofplane.Handlers.Payload.{try_from_message}
use proofplane.Handlers.Reading.{scan_request, try_from_message-appended, UuidValueLaws}
use proofplane.Messaging.Example.{uuids, codec, codec_laws}
use proofplane.Messaging.Types.{UuidLaws, command, evidence_work, new_scan_document}
use proofplane.Messaging.Wire.{document_work_value, payload_to_value}
use proofplane.Outbox.Rows.{NewOutboxMessage, OutboxMessage, with_kind}
use proofplane.Outbox.Table.{Outbox, append_outbox_message, inserted_row}
use proofplane.Storage.Key.{parse, ObjectKey}
use proofplane.Worker.Decoding.{decode_worker_message}
use proofplane.Worker.Types.{PushCodec, WorkerMessage}

codec-UuidValueLaws : UuidValueLaws codec uuids
codec-UuidValueLaws = record { uuid_as_str = λ id. refl }

uuids-UuidLaws : UuidLaws uuids
uuids-UuidLaws = record { parse_text = λ id. refl }

abbrev push_codec : PushCodec (List ℕ)
push_codec = record {
  push_envelope_from_slice = λ body. some (record {
    message = some (record { message_id = codes "m-1"; message_data = body });
    delivery_attempt = some 2;
  });
  base64_decode = λ text. some text;
  dto_from_value = λ v. none;
}

abbrev staged_key : ObjectKey
staged_key = record { value = codes "workspaces/3/evidence/a.pdf" }

abbrev requested : ExecutionMetadata
requested = record { request_id = some 11; correlation_id = none; causation_id = some 12 }

abbrev asked : NewOutboxMessage
asked =
    scan_request codec codec_laws push_codec uuids uuids-UuidLaws codec-UuidValueLaws 7
      (evidence_identity 1 2) staged_key requested

abbrev empty_outbox : Outbox (List ℕ)
empty_outbox = record { next_id = 1; rows = [] }

abbrev asked_row : OutboxMessage (List ℕ)
asked_row =
    with_kind
      (inserted_row 1 50 asked (document_work_value codec (evidence_work 1 staged_key.value)))
      command

abbrev with_row : Outbox (List ℕ)
with_row = record {
  next_id = 2;
  rows =
      inserted_row 1 50 asked (document_work_value codec (evidence_work 1 staged_key.value)) ∷ [];
}

asked_test : append_outbox_message codec 50 asked empty_outbox ≡ ok (with_row, asked_row)
unfolding append_outbox_message inserted_row new_scan_document payload_to_value
asked_test = refl

staged_key_test : parse uuids staged_key.value ≡ ok staged_key
unfolding parse
staged_key_test = refl

message_test :
    message_for uuids 7 (some (scan_requested (evidence_identity 1 2) staged_key.value)) requested
    ≡ some asked
unfolding message_for
message_test = refl

try_from_message-appended_example :
    (request : WorkerMessage (List ℕ)) × (decode_worker_message codec push_codec uuids
        (outbound_message codec asked_row).message_data
      ≡ ok request)
    × (try_from_message codec uuids request
        ≡ ok (record { identity = evidence_identity 1 2; object_key = staged_key }))
    × (request.delivery_attempt ≡ some 2)
    × (request.request_id ≡ some 11)
try_from_message-appended_example =
    try_from_message-appended codec codec_laws push_codec uuids uuids-UuidLaws codec-UuidValueLaws
      50 7 (evidence_identity 1 2) staged_key requested asked empty_outbox with_row asked_row
      (outbound_message codec asked_row).message_data (codes "m-1")
      (outbound_message codec asked_row).message_data (some 2) staged_key_test message_test
      asked_test refl refl
