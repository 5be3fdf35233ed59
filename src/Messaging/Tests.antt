-- ===== src/Messaging/Tests.antt =====
-- Messages on concrete data.
use proofplane.Prelude.{ℕ, ◌≡◌, refl, none, some, List, [], ◌∷◌, pos, ok, err}
use proofplane.Text.{codes}
use proofplane.Messaging.Decoding.{to_envelope-from_envelope}
use proofplane.Messaging.Envelope.{
  unknown_kind, unsupported_version, to_envelope, from_envelope, envelope_of, message_of_header,
  header_metadata, document_payload, malformed_envelope,
}
use proofplane.Messaging.Example.{codec, codec_laws}
use proofplane.Messaging.Types.{
  command, event, evidence_work, document, workspace_invitation, scan_document, IntegrationMessage,
  scan_document_type, payload, metadata, kind, message_type, version,
}
use proofplane.Messaging.Wire.{envelope_value, document_work_value}

abbrev scan : IntegrationMessage
scan =
    scan_document
      (record { message_id = 7; subject = codes "d"; correlation_id = some 3; causation_id = none })
      (document (evidence_work 5 (codes "key")))

abbrev mismatched : IntegrationMessage
mismatched =
    scan_document
      (record { message_id = 7; subject = codes "d"; correlation_id = some 3; causation_id = none })
      (workspace_invitation (record { invitation_id = 4; generation = pos 2 }))

abbrev scan_envelope : List ℕ
scan_envelope = envelope_value codec (record {
  message_id = 7;
  kind = command;
  message_type = scan_document_type;
  version = 1;
  subject = codes "d";
  correlation_id = some 3;
  causation_id = none;
  payload = document_work_value codec (evidence_work 5 (codes "key"));
})

scan_written : to_envelope codec scan ≡ some scan_envelope
unfolding to_envelope envelope_of payload metadata kind message_type version envelope_value
    document_work_value
scan_written = refl

next_version_test :
    from_envelope codec (
      envelope_value codec (record {
        message_id = 7;
        kind = command;
        message_type = scan_document_type;
        version = 2;
        subject = codes "d";
        correlation_id = none;
        causation_id = none;
        payload = [];
      }))
    ≡ err (unsupported_version scan_document_type 2)
unfolding from_envelope envelope_value
next_version_test = refl

event_test :
    from_envelope codec (
      envelope_value codec (record {
        message_id = 7;
        kind = event;
        message_type = scan_document_type;
        version = 2;
        subject = codes "d";
        correlation_id = none;
        causation_id = none;
        payload = [];
      }))
    ≡ err (unknown_kind event)
unfolding from_envelope envelope_value
event_test = refl

scan_read : from_envelope codec scan_envelope ≡ ok scan
unfolding from_envelope message_of_header header_metadata document_payload envelope_value
    document_work_value
scan_read = refl

-- A key that the header does not know is refused.
unknown_key_test :
    from_envelope codec (codec.object_value ((codes "kinds", codes "command") ∷ []))
    ≡ err malformed_envelope
unfolding from_envelope
unknown_key_test = refl

to_envelope-from_envelope_example : from_envelope codec scan_envelope ≡ ok scan
to_envelope-from_envelope_example =
    to_envelope-from_envelope codec codec_laws scan scan_envelope
      (evidence_work 5 (codes "key"), refl) scan_written
