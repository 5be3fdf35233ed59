-- ===== src/Handlers/Reading.antt =====
-- A scan request that a command has written is the one that the handler reads, with its correlation.
mod Tests
use proofplane.Prelude.{
  ℕ, zero, suc, ◌+◌, ◌-◌, ◌*◌, ◌/◌, ◌%◌, ◌^◌, ◌≤◌, ◌<◌, ◌≡◌, refl, sym, ap, subst, ◌∙◌, ◌≢◌, ◌↔◌,
  ◌⊎◌, inl, inr, Bool, true, false, not, ◌&&◌, ◌||◌, Option, none, some, List, [], ◌∷◌, ◌++◌, map,
  arith, ltb, leb, ◌==◌, if◌then◌else◌, ltb→lt, lt→ltb, leb→le, ==_iff, ==_refl, Bool-cases,
  is_some, is_none, is_some_and, is_none_or, Option-cases, some-injective, map_some, option_eq,
  option_eq_iff, bool_eq, and_left, and_right, le→leb, length, is_empty, all, any, All,
  length-append, contains, occurrences, ℤ, pos, negsuc, is_negative, int_eq, int_le, is_positive,
  i64_max, checked_suc, int_option_eq, int_eq_iff, negate, int_times, wrap_i32, Result, ok, err,
  ◌>>=◌, ◌>>◌, map_err, ok_or, guard, is_ok, bind-ok, guard-ok, ok_or-ok, ok-injective, map_err-ok,
}
use proofplane.Text.{Text, codes, text_eq, text_eq_refl}
use proofplane.Commands.Documents.Messages.{message_for, message_bus_topic, or_else}
use proofplane.Commands.Metadata.{ExecutionMetadata}
use proofplane.Dequeuer.Publishing.{outbound_message}
use proofplane.Domain.Document.Types.{
  DocumentIdentity, evidence_identity, policy_identity, scan_requested,
}
use proofplane.Domain.Ids.{Uuid, DateTime}
use proofplane.Handlers.Payload.{payload_text, try_from_message, payload_identity, payload_uuid}
use proofplane.Messaging.Decoding.{Fits}
use proofplane.Messaging.Serde.{Serde, SerdeLaws}
use proofplane.Messaging.Types.{
  Uuids, evidence_work, policy_work, document, UuidLaws, new_scan_document, payload, metadata,
  aggregate_type, new_document_work,
}
use proofplane.Messaging.Wire.{payload_to_value, document_work_value}
use proofplane.Messaging.Written.{owned_list}
use proofplane.Outbox.Rows.{NewOutboxMessage, OutboxMessage}
use proofplane.Outbox.Table.{Outbox, append_outbox_message}
use proofplane.Storage.Key.{parse, ObjectKey}
use proofplane.Worker.Decoding.{decode_worker_message}
use proofplane.Worker.Roundtrip.{work_of, decode_worker_message-appended}
use proofplane.Worker.Types.{PushCodec, WorkerMessage}

-- The documentation of the crate uuid: an identifier is written to JSON as its text.
pub record UuidValueLaws {Value : Type 0} (s : Serde Value) (u : Uuids) : Type 0 where
  pub uuid_as_str : (id : Uuid) → s.value_as_str (s.uuid_value id) ≡ some (u.uuid_text id)

module _ {Value : Type 0} (s : Serde Value) (laws : SerdeLaws s) (c : PushCodec Value) (u : Uuids)
    (ids : UuidLaws u) (fields : UuidValueLaws s u) where
  -- What the handler reads of a work that was written.
  written_key :
      (owner : Text) (id : Uuid) (key : Text)
      → text_eq (codes "object_key") owner ≡ false
      → text_eq owner (codes "object_key") ≡ false
      → payload_text s u (s.object_value (owned_list s laws owner id key)) (codes "object_key")
        ≡ some key
  written_key owner id key apart other =
      rw
        (
          laws.get_object (owned_list s laws owner id key) (codes "object_key") (rw apart refl),
          other,
          laws.text_of_value key,
        )
        refl

  written_owner :
      (owner : Text) (id : Uuid) (key : Text)
      → text_eq (codes "object_key") owner ≡ false
      → payload_text s u (s.object_value (owned_list s laws owner id key)) owner
        ≡ some (u.uuid_text id)
  written_owner owner id key apart =
      rw
        (
          laws.get_object (owned_list s laws owner id key) owner (rw apart refl),
          text_eq_refl owner,
          fields.uuid_as_str id,
        )
        refl

  -- What the worker decodes of a request.
  abbrev pub request_of :
      Uuid
      → DocumentIdentity
      → ObjectKey
      → Option Uuid
      → Option Uuid
      → Value
      → Option ℕ
      → WorkerMessage Value
  request_of message_id identity key correlation causation value attempt =
      work_of s laws c u (new_scan_document u message_id identity key.value correlation causation)
        value attempt

  try_from_message-written :
      (message_id : Uuid) (identity : DocumentIdentity) (key : ObjectKey)
      (correlation causation : Option Uuid) (attempt : Option ℕ)
      → parse u key.value ≡ ok key
      → try_from_message s u (
          request_of message_id identity key correlation causation
            (document_work_value s (new_document_work identity key.value))
            attempt)
        ≡ ok (record { identity = identity; object_key = key })
  unfolding try_from_message payload_identity payload_uuid new_scan_document payload metadata
      aggregate_type document_work_value new_document_work
  try_from_message-written message_id (evidence_identity owner id) key correlation causation attempt
        p =
      rw
        (
          ids.parse_text id,
          written_key (codes "evidence_submission_id") owner key.value refl refl,
          p,
          written_owner (codes "evidence_submission_id") owner key.value refl,
          ids.parse_text owner,
        )
        refl
  try_from_message-written message_id (policy_identity owner id) key correlation causation attempt
        p =
      rw
        (
          ids.parse_text id,
          written_key (codes "policy_id") owner key.value refl refl,
          p,
          written_owner (codes "policy_id") owner key.value refl,
          ids.parse_text owner,
        )
        refl

  payload-new_scan_document :
      (message_id : Uuid) (identity : DocumentIdentity) (key : Text)
      (correlation causation : Option Uuid) (value : Value)
      → payload_to_value s
          (payload (new_scan_document u message_id identity key correlation causation))
        ≡ some value
      → document_work_value s (new_document_work identity key) ≡ value
  unfolding payload_to_value payload new_scan_document
  payload-new_scan_document message_id identity key correlation causation value w =
      some-injective _ value w

  pub try_from_message-request_of :
      (message_id : Uuid) (identity : DocumentIdentity) (key : ObjectKey)
      (correlation causation : Option Uuid) (value : Value) (attempt : Option ℕ)
      → parse u key.value ≡ ok key
      → payload_to_value s
          (payload (new_scan_document u message_id identity key.value correlation causation))
        ≡ some value
      → try_from_message s u
          (request_of message_id identity key correlation causation value attempt)
        ≡ ok (record { identity = identity; object_key = key })
  try_from_message-request_of message_id identity key correlation causation value attempt p w =
      subst
        (λ v.
          try_from_message s u (request_of message_id identity key correlation causation v attempt)
          ≡ ok (record { identity = identity; object_key = key }))
        (payload-new_scan_document message_id identity key.value correlation causation value w)
        (try_from_message-written message_id identity key correlation causation attempt p)

  -- The row of a scan request.
  abbrev pub scan_request :
      Uuid → DocumentIdentity → ObjectKey → ExecutionMetadata → NewOutboxMessage
  scan_request message_id identity key m = record {
    topic = message_bus_topic;
    message =
        new_scan_document u message_id identity key.value (or_else m.correlation_id m.request_id)
          m.causation_id;
  }

  message_for-scan_request :
      (message_id : Uuid) (identity : DocumentIdentity) (key : ObjectKey) (m : ExecutionMetadata)
      → message_for u message_id (some (scan_requested identity key.value)) m
        ≡ some (scan_request message_id identity key m)
  unfolding message_for
  message_for-scan_request message_id identity key m = refl

  new_scan_document-Fits :
      (message_id : Uuid) (identity : DocumentIdentity) (key : Text)
      (correlation causation : Option Uuid)
      → Fits (new_scan_document u message_id identity key correlation causation)
  unfolding new_scan_document
  new_scan_document-Fits message_id identity key correlation causation = (_, refl)

  -- Let a JSON object have the fields that it was written with, a value be read as it was written,
  -- and an identifier be written as its text, which is parsed to it; let the object key be one that
  -- ObjectKey::parse takes. If the message that follows from a requested scan is appended to the
  -- outbox, and the worker is pushed the bytes that the dequeuer publishes for the row, then the
  -- worker decodes a request in which the handler of scans reads the identity and the object key of
  -- the document whose scan was requested; the request carries the number of the delivery, and the
  -- correlation of the command or, where it has none, its request.
  pub try_from_message-appended :
      (now : DateTime) (message_id : Uuid) (identity : DocumentIdentity) (key : ObjectKey)
      (m : ExecutionMetadata) (n : NewOutboxMessage) (t v : Outbox Value)
      (row : OutboxMessage Value) (body : List ℕ) (id text : Text) (attempt : Option ℕ)
      → parse u key.value ≡ ok key
      → message_for u message_id (some (scan_requested identity key.value)) m ≡ some n
      → append_outbox_message s now n t ≡ ok (v, row)
      → c.push_envelope_from_slice body
        ≡ some (record {
          message = some (record { message_id = id; message_data = text });
          delivery_attempt = attempt;
        })
      → c.base64_decode text ≡ some (outbound_message s row).message_data
      → (request : WorkerMessage Value) × (decode_worker_message s c u body ≡ ok request)
        × (try_from_message s u request ≡ ok (record { identity = identity; object_key = key }))
        × (request.delivery_attempt ≡ attempt)
        × (request.request_id ≡ or_else m.correlation_id m.request_id)
  unfolding metadata new_scan_document
  try_from_message-appended now message_id identity key m n t v row body id text attempt p asked
        appends pushed decoded =
      let same =
        some-injective (scan_request message_id identity key m) n
          (sym (message_for-scan_request message_id identity key m) ∙ asked) in
      let appended =
        subst (λ x. append_outbox_message s now x t ≡ ok (v, row)) (sym same) appends in
      let (value, wrote, reads) =
        decode_worker_message-appended s laws c u now (scan_request message_id identity key m) t v
          row body id text attempt
          (new_scan_document-Fits message_id identity key.value
            (or_else m.correlation_id m.request_id) m.causation_id)
          appended pushed decoded in
      (
        _,
        reads,
        try_from_message-request_of message_id identity key (or_else m.correlation_id m.request_id)
            m.causation_id value attempt p wrote,
        refl,
        refl,
      )
