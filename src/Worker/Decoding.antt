-- ===== src/Worker/Decoding.antt =====
-- `decode_worker_message` of src/worker.rs.
use proofplane.Prelude.{
  ℕ, Bool, Option, List, [], ◌∷◌, if◌then◌else◌, any, Result, ok, ◌>>=◌, map_err, ok_or,
}
use proofplane.Text.{codes, Text}
use proofplane.Messaging.Envelope.{from_envelope}
use proofplane.Messaging.Serde.{Serde, contains_key}
use proofplane.Messaging.Types.{
  Uuids, scan_document, finalize_document, send_workspace_invitation, IntegrationMessage, metadata,
  send_workspace_invitation_type, payload, aggregate_type,
}
use proofplane.Messaging.Wire.{payload_to_value}
use proofplane.Validation.Types.{into_result}
use proofplane.Worker.Data.{into_message_data}
use proofplane.Worker.Types.{
  envelope_json, missing_message, invalid_base64, payload_json, typed_message, data_validation,
  PushCodec, WorkerMessage, WorkerMessageDecodeError,
}

module _ {Value : Type 0} (s : Serde Value) (c : PushCodec Value) (u : Uuids) where
  unfoldable pub is_typed_envelope : Value → Bool
  unfolding contains_key
  is_typed_envelope data_value =
      any (λ field. contains_key s field data_value)
        (codes "message_id"
          ∷ codes "kind"
          ∷ codes "type"
          ∷ codes "version"
          ∷ codes "subject"
          ∷ codes "correlation_id"
          ∷ codes "causation_id"
          ∷ [])

  unfoldable pub handled_type : IntegrationMessage → Text
  handled_type (scan_document _ _) = codes "document.scan_requested"
  handled_type (finalize_document _ _) = codes "document.finalization_requested"
  handled_type (send_workspace_invitation _ _) = send_workspace_invitation_type

  unfoldable pub decode_typed_worker_message :
      Value → Option ℕ → Result (WorkerMessage Value) WorkerMessageDecodeError
  unfolding handled_type from_envelope metadata payload aggregate_type payload_to_value
  decode_typed_worker_message data_value delivery_attempt = do
    m ← map_err typed_message (from_envelope s data_value)
    value ← ok_or (payload_to_value s (payload m)) payload_json
    ok (record {
      message_id = u.uuid_text (metadata m).message_id;
      event_type = handled_type m;
      aggregate_type = aggregate_type (payload m);
      aggregate_id = (metadata m).subject;
      request_id = (metadata m).correlation_id;
      payload = value;
      delivery_attempt = delivery_attempt;
    })

  unfoldable pub decode_legacy_worker_message :
      Value → Text → Option ℕ → Result (WorkerMessage Value) WorkerMessageDecodeError
  unfolding into_message_data
  decode_legacy_worker_message data_value message_id delivery_attempt = do
    dto ← ok_or (c.dto_from_value data_value) payload_json
    read ← map_err data_validation (into_result (into_message_data u dto))
    ok (record {
      message_id = message_id;
      event_type = read.event_type;
      aggregate_type = read.aggregate_type;
      aggregate_id = read.aggregate_id;
      request_id = read.request_id;
      payload = read.payload;
      delivery_attempt = delivery_attempt;
    })

  unfoldable pub decode_data :
      Value → Text → Option ℕ → Result (WorkerMessage Value) WorkerMessageDecodeError
  unfolding is_typed_envelope decode_typed_worker_message decode_legacy_worker_message
  decode_data data_value message_id delivery_attempt =
      if is_typed_envelope data_value
      then decode_typed_worker_message data_value delivery_attempt
      else decode_legacy_worker_message data_value message_id delivery_attempt

  unfoldable pub decode_worker_message :
      List ℕ → Result (WorkerMessage Value) WorkerMessageDecodeError
  unfolding decode_data
  decode_worker_message body = do
    envelope ← ok_or (c.push_envelope_from_slice body) envelope_json
    message ← ok_or envelope.message missing_message
    bytes ← ok_or (c.base64_decode message.message_data) invalid_base64
    data_value ← ok_or (s.value_from_slice bytes) payload_json
    decode_data data_value message.message_id envelope.delivery_attempt
