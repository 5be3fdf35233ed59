-- ===== src/Worker/Roundtrip.antt =====
-- From the outbox to the worker: a message that is appended is the one that is decoded.
use proofplane.Prelude.{
  ℕ, ◌≡◌, refl, sym, inl, inr, true, Option, some, List, Bool-cases, ok, ok-injective,
}
use proofplane.Text.{Text, codes}
use proofplane.Dequeuer.Publishing.{outbound_message, message_json}
use proofplane.Domain.Ids.{DateTime}
use proofplane.Messaging.Decoding.{Fits, to_envelope-from_envelope, written_envelope}
use proofplane.Messaging.Envelope.{envelope_of}
use proofplane.Messaging.Serde.{Serde, SerdeLaws, contains_key}
use proofplane.Messaging.Types.{
  Uuids, command, IntegrationMessage, metadata, payload, aggregate_type,
}
use proofplane.Messaging.Wire.{payload_to_value, envelope_value}
use proofplane.Messaging.Written.{envelope_has_kind}
use proofplane.Outbox.Keys.{append_outbox_message-inserted_row}
use proofplane.Outbox.Rows.{NewOutboxMessage, with_kind, OutboxMessage, outbox_message_from_row}
use proofplane.Outbox.Table.{inserted_row, Outbox, append_outbox_message}
use proofplane.Worker.Decoding.{
  decode_typed_worker_message, decode_data, decode_worker_message, is_typed_envelope, handled_type,
}
use proofplane.Worker.Types.{PushCodec, WorkerMessage}

module _ {Value : Type 0} (s : Serde Value) (laws : SerdeLaws s) (c : PushCodec Value)
    (u : Uuids) where
  -- What the worker reads of a message.
  abbrev pub work_of : IntegrationMessage → Value → Option ℕ → WorkerMessage Value
  work_of m value delivery_attempt = record {
    message_id = u.uuid_text (metadata m).message_id;
    event_type = handled_type s c u m;
    aggregate_type = aggregate_type (payload m);
    aggregate_id = (metadata m).subject;
    request_id = (metadata m).correlation_id;
    payload = value;
    delivery_attempt = delivery_attempt;
  }

  decode_typed-envelope_of :
      (m : IntegrationMessage) (value : Value) (attempt : Option ℕ)
      → Fits m
      → payload_to_value s (payload m) ≡ some value
      → decode_typed_worker_message s c u (envelope_value s (envelope_of s m value)) attempt
        ≡ ok (work_of m value attempt)
  unfolding decode_typed_worker_message
  decode_typed-envelope_of m value attempt fits wrote =
      rw (to_envelope-from_envelope s laws m _ fits (written_envelope s m value wrote), wrote) refl

  is_typed_envelope-kind :
      (v : Value) → contains_key s (codes "kind") v ≡ true → is_typed_envelope s c u v ≡ true
  unfolding is_typed_envelope
  is_typed_envelope-kind v h = elim (Bool-cases (contains_key s (codes "message_id") v)) [
    | inl first ↦ rw first refl
    | inr other ↦ rw (other, h) refl
  ]

  decode_data-envelope_of :
      (m : IntegrationMessage) (value : Value) (id : Text) (attempt : Option ℕ)
      → Fits m
      → payload_to_value s (payload m) ≡ some value
      → decode_data s c u (envelope_value s (envelope_of s m value)) id attempt
        ≡ ok (work_of m value attempt)
  unfolding decode_data
  decode_data-envelope_of m value id attempt fits wrote =
      rw (is_typed_envelope-kind _ (envelope_has_kind s laws (envelope_of s m value)))
        (decode_typed-envelope_of m value attempt fits wrote)

  -- The bytes that the dequeuer writes for an appended row are those of the envelope of its message.
  outbound_message-inserted_row :
      (now : DateTime) (id : ℕ) (n : NewOutboxMessage) (value : Value)
      → (outbound_message s (with_kind (inserted_row id now n value) command)).message_data
        ≡ s.value_bytes (envelope_value s (envelope_of s n.message value))
  unfolding outbound_message message_json inserted_row envelope_of envelope_value
  outbound_message-inserted_row now id n value = refl

  pub decode_worker_message-appended :
      (now : DateTime) (n : NewOutboxMessage) (t v : Outbox Value) (row : OutboxMessage Value)
      (body : List ℕ) (id text : Text) (attempt : Option ℕ)
      → Fits n.message
      → append_outbox_message s now n t ≡ ok (v, row)
      → c.push_envelope_from_slice body
        ≡ some (record {
          message = some (record { message_id = id; message_data = text });
          delivery_attempt = attempt;
        })
      → c.base64_decode text ≡ some (outbound_message s row).message_data
      → (value : Value) × (payload_to_value s (payload n.message) ≡ some value)
        × (decode_worker_message s c u body ≡ ok (work_of n.message value attempt))
  unfolding decode_worker_message outbox_message_from_row inserted_row
  decode_worker_message-appended now n t v row body id text attempt fits appends pushed decoded =
      let (value, wrote, read, _) = append_outbox_message-inserted_row s now n t v row appends in
      let same = ok-injective (with_kind (inserted_row t.next_id now n value) command) row read in
      (
        value,
        wrote,
        rw
            (
              pushed,
              decoded,
              sym same,
              outbound_message-inserted_row now t.next_id n value,
              laws.value_of_bytes (envelope_value s (envelope_of s n.message value)),
            )
            (decode_data-envelope_of n.message value id attempt fits wrote),
      )
