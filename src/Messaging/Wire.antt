-- ===== src/Messaging/Wire.antt =====
-- The derived `Serialize` and `Deserialize` of the types of src/messaging.rs: the keys are the names of the fields.
use proofplane.Prelude.{ℕ, not, Option, none, some, List, [], ◌∷◌, if◌then◌else◌, map_some}
use proofplane.Text.{Text, codes, text_eq}
use proofplane.Domain.Ids.{Uuid}
use proofplane.Messaging.Serde.{Serde, optional_uuid, optional_uuid_from, required}
use proofplane.Messaging.Types.{
  command, event, evidence_work, policy_work, document, workspace_invitation,
  IntegrationMessageKind, DocumentWork, WorkspaceInvitationDeliveryWork, IntegrationPayload,
}
use proofplane.Validation.Five.{and_some}

-- The fields of an envelope: of `IntegrationEnvelopeRef` and of `IntegrationEnvelopeHeader`.
pub record EnvelopeFields (Value : Type 0) : Type 0 where
  pub message_id : Uuid
  pub kind : IntegrationMessageKind
  pub message_type : Text
  pub version : ℕ
  pub subject : Text
  pub correlation_id : Option Uuid
  pub causation_id : Option Uuid
  pub payload : Value

module _ {Value : Type 0} (s : Serde Value) where
  -- `rename_all = "snake_case"`
  unfoldable pub kind_value : IntegrationMessageKind → Value
  kind_value command = s.text_value (codes "command")
  kind_value event = s.text_value (codes "event")

  abbrev pub kind_of_text : Text → Option IntegrationMessageKind
  kind_of_text t =
      if text_eq t (codes "command")
      then some command
      else if text_eq t (codes "event")
      then some event
      else none

  unfoldable pub kind_from_value : Value → Option IntegrationMessageKind
  kind_from_value v = and_some (s.value_as_str v) kind_of_text

  -- `IntegrationEnvelopeRef`
  unfoldable pub envelope_value : EnvelopeFields Value → Value
  unfolding kind_value optional_uuid
  envelope_value e = s.object_value (
      (codes "message_id", s.uuid_value e.message_id)
      ∷ (codes "kind", kind_value e.kind)
      ∷ (codes "type", s.text_value e.message_type)
      ∷ (codes "version", s.number_value e.version)
      ∷ (codes "subject", s.text_value e.subject)
      ∷ (codes "correlation_id", optional_uuid s e.correlation_id)
      ∷ (codes "causation_id", optional_uuid s e.causation_id)
      ∷ (codes "payload", e.payload)
      ∷ [])

  -- `IntegrationEnvelopeHeader`, which is closed to other keys.
  abbrev pub header_keys : List Text
  header_keys =
      codes "message_id"
      ∷ codes "kind"
      ∷ codes "type"
      ∷ codes "version"
      ∷ codes "subject"
      ∷ codes "correlation_id"
      ∷ codes "causation_id"
      ∷ codes "payload"
      ∷ []

  abbrev pub read_header : Value → Option (EnvelopeFields Value)
  read_header v = and_some (required s v (codes "message_id") s.uuid_from_value) λ message_id.
      and_some (required s v (codes "kind") kind_from_value) λ kind.
        and_some (required s v (codes "type") s.value_as_str) λ message_type.
          and_some (required s v (codes "version") s.number_from_value) λ version.
            and_some (required s v (codes "subject") s.value_as_str) λ subject.
              and_some (optional_uuid_from s (s.get v (codes "correlation_id"))) λ correlation_id.
                and_some (optional_uuid_from s (s.get v (codes "causation_id"))) λ causation_id.
                  map_some
                    (λ payload. record {
                      message_id = message_id;
                      kind = kind;
                      message_type = message_type;
                      version = version;
                      subject = subject;
                      correlation_id = correlation_id;
                      causation_id = causation_id;
                      payload = payload;
                    })
                    (s.get v (codes "payload"))

  unfoldable pub header_from_value : Value → Option (EnvelopeFields Value)
  unfolding kind_from_value optional_uuid_from
  header_from_value v = if not (s.only_keys header_keys v) then none else read_header v

  -- An untagged payload is written as the struct that it holds.
  unfoldable pub document_work_value : DocumentWork → Value
  document_work_value (evidence_work id key) = s.object_value (
      (codes "evidence_submission_id", s.uuid_value id)
      ∷ (codes "object_key", s.text_value key)
      ∷ [])
  document_work_value (policy_work id key) =
      s.object_value
        ((codes "policy_id", s.uuid_value id) ∷ (codes "object_key", s.text_value key) ∷ [])

  unfoldable pub delivery_work_value : WorkspaceInvitationDeliveryWork → Value
  delivery_work_value w = s.object_value (
      (codes "invitation_id", s.uuid_value w.invitation_id)
      ∷ (codes "generation", s.integer_value w.generation)
      ∷ [])

  -- `to_value`, which fails on no payload.
  unfoldable pub payload_to_value : IntegrationPayload → Option Value
  unfolding document_work_value delivery_work_value
  payload_to_value (document w) = some (document_work_value w)
  payload_to_value (workspace_invitation w) = some (delivery_work_value w)

  -- A struct of an owner and a key, closed to other keys.
  unfoldable pub owned_work : Text → (Uuid → Text → DocumentWork) → Value → Option DocumentWork
  owned_work owner make v =
      if not (s.only_keys (owner ∷ codes "object_key" ∷ []) v)
      then none
      else and_some (required s v owner s.uuid_from_value)
          λ id. map_some (make id) (required s v (codes "object_key") s.value_as_str)

  -- Untagged: the first variant that can be read.
  abbrev pub first_of : Option DocumentWork → Option DocumentWork → Option DocumentWork
  first_of (some w) _ = some w
  first_of none other = other

  unfoldable pub document_work_from_value : Value → Option DocumentWork
  unfolding owned_work
  document_work_from_value v =
      first_of (owned_work (codes "evidence_submission_id") evidence_work v)
        (owned_work (codes "policy_id") policy_work v)

  unfoldable pub delivery_work_from_value : Value → Option WorkspaceInvitationDeliveryWork
  delivery_work_from_value v =
      if not (s.only_keys (codes "invitation_id" ∷ codes "generation" ∷ []) v)
      then none
      else and_some (required s v (codes "invitation_id") s.uuid_from_value) λ id.
        map_some (λ generation. record { invitation_id = id; generation = generation })
          (required s v (codes "generation") s.integer_from_value)
