-- ===== src/Handlers/Payload.antt =====
-- What src/handlers/document_scan.rs reads from a message.
use proofplane.Prelude.{
  Option, none, some, List, [], ◌∷◌, if◌then◌else◌, Result, ok, err, ◌>>=◌, map_err, ok_or,
}
use proofplane.Text.{Text, text_eq, codes}
use proofplane.Commands.Metadata.{
  ExecutionMetadata, background, with_causation_id, with_correlation_id,
}
use proofplane.Domain.Document.Types.{DocumentIdentity, evidence_identity, policy_identity}
use proofplane.Domain.Ids.{Uuid}
use proofplane.Messaging.Serde.{Serde}
use proofplane.Messaging.Types.{Uuids}
use proofplane.Storage.Key.{parse, ObjectKey}
use proofplane.Validation.Five.{and_some}
use proofplane.Worker.Types.{WorkerMessage}

pub data PermanentScanMessageError : Type 0 where
  aggregate_type_error payload_error owner_id_error aggregate_id_error key_error :
      PermanentScanMessageError

pub record ScanRequestedPayload : Type 0 where
  pub identity : DocumentIdentity
  pub object_key : ObjectKey

module _ {Value : Type 0} (s : Serde Value) (u : Uuids) where
  -- `payload.get(field).and_then(as_str)`
  abbrev pub payload_text : Value → Text → Option Text
  payload_text payload field = and_some (s.get payload field) s.value_as_str

  unfoldable pub payload_uuid : Value → Text → Option Uuid
  payload_uuid payload field = and_some (payload_text payload field) u.parse_uuid

  unfoldable pub payload_identity :
      WorkerMessage Value → Uuid → Result DocumentIdentity (List PermanentScanMessageError)
  unfolding payload_uuid
  payload_identity message id =
      if text_eq message.aggregate_type (codes "evidence_document")
      then ok_or (payload_uuid message.payload (codes "evidence_submission_id"))
          (owner_id_error ∷ [])
        >>= (λ owner. ok (evidence_identity owner id))
      else if text_eq message.aggregate_type (codes "policy_document")
      then ok_or (payload_uuid message.payload (codes "policy_id")) (owner_id_error ∷ [])
        >>= (λ owner. ok (policy_identity owner id))
      else err (aggregate_type_error ∷ [])

  unfoldable pub try_from_message :
      WorkerMessage Value → Result ScanRequestedPayload (List PermanentScanMessageError)
  unfolding parse payload_identity
  try_from_message message = do
    id ← ok_or (u.parse_uuid message.aggregate_id) (aggregate_id_error ∷ [])
    text ← ok_or (payload_text message.payload (codes "object_key")) (payload_error ∷ [])
    key ← map_err (λ _. key_error ∷ []) (parse u text)
    identity ← payload_identity message id
    ok (record { identity = identity; object_key = key })

  abbrev pub or_causation : ExecutionMetadata → Option Uuid → ExecutionMetadata
  or_causation m none = m
  or_causation m (some id) = with_causation_id m id

  abbrev pub or_correlation : ExecutionMetadata → Option Uuid → ExecutionMetadata
  or_correlation m none = m
  or_correlation m (some id) = with_correlation_id m id

  unfoldable pub worker_metadata : WorkerMessage Value → ExecutionMetadata
  unfolding background with_causation_id with_correlation_id
  worker_metadata message =
      or_causation (or_correlation background message.request_id) (u.parse_uuid message.message_id)
