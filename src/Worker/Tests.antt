-- ===== src/Worker/Tests.antt =====
-- A message on its way from the outbox to the worker, and a malformed one.
use proofplane.Prelude.{ℕ, ◌≡◌, refl, none, some, List, [], ◌∷◌, pos, err}
use proofplane.Text.{codes, trim, trim_start, trim_end}
use proofplane.Messaging.Example.{codec, uuids}
use proofplane.Messaging.Types.{
  send_workspace_invitation, workspace_invitation, payload, aggregate_type, message_type,
}
use proofplane.Messaging.Wire.{delivery_work_value}
use proofplane.Outbox.Rows.{NewOutboxMessage, OutboxRow}
use proofplane.Outbox.Table.{Outbox}
use proofplane.Worker.Data.{
  into_message_data, required_message_string, optional_request_id, required_message_value,
}
use proofplane.Worker.Decoding.{
  decode_worker_message, decode_data, is_typed_envelope, decode_legacy_worker_message,
}
use proofplane.Worker.Types.{
  missing_field, invalid_request_id, data_validation, PushEnvelope, PushCodec,
}

abbrev pushed_as : List ℕ → PushEnvelope
pushed_as body = record {
  message = some (record { message_id = codes "m-1"; message_data = body });
  delivery_attempt = some 2;
}

-- A push envelope is its data here, and its data are not encoded.
abbrev push_codec : PushCodec (List ℕ)
push_codec = record {
  push_envelope_from_slice = λ body. some (pushed_as body);
  base64_decode = λ text. some text;
  dto_from_value = λ v. some (record {
    event_type = none;
    aggregate_type = some v;
    aggregate_id = some (codes " ");
    request_id = some [];
    payload = some v;
  });
}

all_reported_test :
    decode_worker_message codec push_codec uuids (5 ∷ [])
    ≡ err (
        data_validation (
          missing_field (codes "event_type")
          ∷ missing_field (codes "aggregate_id")
          ∷ invalid_request_id
          ∷ []))
unfolding decode_worker_message decode_data is_typed_envelope decode_legacy_worker_message
    into_message_data required_message_string optional_request_id required_message_value trim
    trim_start trim_end
all_reported_test = refl

abbrev delivery : NewOutboxMessage
delivery = record {
  topic = codes "bus";
  message =
      send_workspace_invitation
        (record {
          message_id = 8;
          subject = codes "4";
          correlation_id = some 3;
          causation_id = none;
        })
        (workspace_invitation (record { invitation_id = 4; generation = pos 2 }));
}

abbrev no_rows : Outbox (List ℕ)
no_rows = record { next_id = 1; rows = [] }

abbrev delivery_row : OutboxRow (List ℕ)
delivery_row = record {
  id = 1;
  topic = codes "bus";
  event_type = codes "SendWorkspaceInvitation";
  aggregate_type = codes "workspace_invitation";
  aggregate_id = codes "4";
  payload = delivery_work_value codec (record { invitation_id = 4; generation = pos 2 });
  request_id = some 3;
  message_kind = codes "command";
  message_type = codes "SendWorkspaceInvitation";
  message_version = 1;
  message_id = 8;
  subject = codes "4";
  correlation_id = some 3;
  causation_id = none;
  attempt_count = 0;
  next_available_at = 50;
  created_at = 50;
}
