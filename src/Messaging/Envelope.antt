-- ===== src/Messaging/Envelope.antt =====
-- `to_envelope` and `from_envelope` of src/messaging.rs.
use proofplane.Prelude.{
  ℕ, Bool, true, false, Option, ◌==◌, if◌then◌else◌, map_some, Result, ok, err, ◌>>=◌, ◌>>◌, ok_or,
  guard,
}
use proofplane.Text.{Text, text_eq}
use proofplane.Messaging.Serde.{Serde}
use proofplane.Messaging.Types.{
  command, event, document, workspace_invitation, scan_document, finalize_document,
  send_workspace_invitation, IntegrationMessageKind, metadata, IntegrationMessage, payload,
  IntegrationMessageMetadata, IntegrationPayload, current_message_version, kind, scan_document_type,
  message_type, finalize_document_type, version, send_workspace_invitation_type,
}
use proofplane.Messaging.Wire.{
  EnvelopeFields, envelope_value, document_work_from_value, delivery_work_from_value,
  header_from_value, payload_to_value,
}

pub data IntegrationMessageDecodeError : Type 0 where
  malformed_envelope : IntegrationMessageDecodeError
  unknown_kind : IntegrationMessageKind → IntegrationMessageDecodeError
  unknown_type : Text → IntegrationMessageDecodeError
  unsupported_version : Text → ℕ → IntegrationMessageDecodeError
  malformed_payload : IntegrationMessageDecodeError

-- `==` on kinds.
abbrev pub kind_eq : IntegrationMessageKind → IntegrationMessageKind → Bool
kind_eq command k = elim k [ command ↦ true | event ↦ false ]
kind_eq event k = elim k [ command ↦ false | event ↦ true ]

module _ {Value : Type 0} (s : Serde Value) where
  -- `IntegrationEnvelopeRef` of a message, with its payload written.
  unfoldable pub envelope_of : IntegrationMessage → Value → EnvelopeFields Value
  unfolding metadata kind message_type version
  envelope_of m v = record {
    message_id = (metadata m).message_id;
    kind = kind m;
    message_type = message_type m;
    version = version m;
    subject = (metadata m).subject;
    correlation_id = (metadata m).correlation_id;
    causation_id = (metadata m).causation_id;
    payload = v;
  }

  -- The error of serde, `none`, is passed on.
  unfoldable pub to_envelope : IntegrationMessage → Option Value
  unfolding envelope_of payload envelope_value payload_to_value
  to_envelope m =
      map_some (λ v. envelope_value s (envelope_of m v)) (payload_to_value s (payload m))

  unfoldable pub header_metadata : EnvelopeFields Value → IntegrationMessageMetadata
  header_metadata h = record {
    message_id = h.message_id;
    subject = h.subject;
    correlation_id = h.correlation_id;
    causation_id = h.causation_id;
  }

  unfoldable pub document_payload :
      EnvelopeFields Value → Result IntegrationPayload IntegrationMessageDecodeError
  unfolding document_work_from_value
  document_payload h =
      ok_or (map_some document (document_work_from_value s h.payload)) malformed_payload

  unfoldable pub delivery_payload :
      EnvelopeFields Value → Result IntegrationPayload IntegrationMessageDecodeError
  unfolding delivery_work_from_value
  delivery_payload h =
      ok_or (map_some workspace_invitation (delivery_work_from_value s h.payload)) malformed_payload

  -- The `match` on the type of the message.
  unfoldable pub message_of_header :
      EnvelopeFields Value → Result IntegrationMessage IntegrationMessageDecodeError
  unfolding header_metadata document_payload delivery_payload
  message_of_header h =
      if text_eq h.message_type scan_document_type
      then document_payload h >>= (λ p. ok (scan_document (header_metadata h) p))
      else if text_eq h.message_type finalize_document_type
      then document_payload h >>= (λ p. ok (finalize_document (header_metadata h) p))
      else if text_eq h.message_type send_workspace_invitation_type
      then delivery_payload h >>= (λ p. ok (send_workspace_invitation (header_metadata h) p))
      else err (unknown_type h.message_type)

  unfoldable pub from_envelope : Value → Result IntegrationMessage IntegrationMessageDecodeError
  unfolding message_of_header header_from_value
  from_envelope value = do
    h ← ok_or (header_from_value s value) malformed_envelope
    guard (kind_eq h.kind command) (unknown_kind h.kind)
    guard (h.version == current_message_version) (unsupported_version h.message_type h.version)
    message_of_header h
