-- ===== src/Worker/Types.antt =====
-- The data of src/worker.rs, and what it takes from other crates.
use proofplane.Prelude.{ℕ, Option, List}
use proofplane.Text.{Text}
use proofplane.Domain.Ids.{Uuid}
use proofplane.Messaging.Envelope.{IntegrationMessageDecodeError}

pub record WorkerMessage (Value : Type 0) : Type 0 where
  pub message_id : Text
  pub event_type : Text
  pub aggregate_type : Text
  pub aggregate_id : Text
  pub request_id : Option Uuid
  pub payload : Value
  pub delivery_attempt : Option ℕ

pub data WorkerMessageDataValidationError : Type 0 where
  missing_field : Text → WorkerMessageDataValidationError
  invalid_request_id : WorkerMessageDataValidationError

pub data WorkerMessageDecodeError : Type 0 where
  envelope_json : WorkerMessageDecodeError
  missing_message : WorkerMessageDecodeError
  invalid_base64 : WorkerMessageDecodeError
  payload_json : WorkerMessageDecodeError
  typed_message : IntegrationMessageDecodeError → WorkerMessageDecodeError
  data_validation : List WorkerMessageDataValidationError → WorkerMessageDecodeError

pub record PushEnvelopeMessage : Type 0 where
  pub message_id : Text
  pub message_data : Text

pub record PushEnvelope : Type 0 where
  pub message : Option PushEnvelopeMessage
  pub delivery_attempt : Option ℕ

-- The optional members of a message of version 0.
pub record WorkerMessageDataDto (Value : Type 0) : Type 0 where
  pub event_type : Option Text
  pub aggregate_type : Option Text
  pub aggregate_id : Option Text
  pub request_id : Option Text
  pub payload : Option Value

pub record WorkerMessageData (Value : Type 0) : Type 0 where
  pub event_type : Text
  pub aggregate_type : Text
  pub aggregate_id : Text
  pub request_id : Option Uuid
  pub payload : Value

-- `from_slice` and `from_value` of serde_json, and `STANDARD.decode` of the crate base64, on the bytes
-- of a text.
pub record PushCodec (Value : Type 0) : Type 0 where
  pub push_envelope_from_slice : List ℕ → Option PushEnvelope
  pub base64_decode : Text → Option (List ℕ)
  pub dto_from_value : Value → Option (WorkerMessageDataDto Value)
