-- ===== src/Messaging/Written.antt =====
-- What was written is read: the header of an envelope, and the two kinds of work.
use proofplane.Prelude.{
  ◌≡◌, refl, subst, ◌∙◌, true, false, Option, none, some, [], ◌∷◌, some-injective,
}
use proofplane.Text.{Text, codes, text_eq, text_eq_refl}
use proofplane.Domain.Ids.{Uuid}
use proofplane.Messaging.Serde.{
  Serde, SerdeLaws, optional_uuid_from, Fields, contains_key, optional_uuid, distinct_keys, lookup,
  required,
}
use proofplane.Messaging.Types.{
  command, event, evidence_work, policy_work, document, workspace_invitation, DocumentWork,
  WorkspaceInvitationDeliveryWork, IntegrationMessageKind,
}
use proofplane.Messaging.Wire.{
  kind_from_value, EnvelopeFields, header_from_value, owned_work, document_work_from_value,
  payload_to_value, delivery_work_from_value, kind_value, read_header, envelope_value,
  document_work_value, delivery_work_value, header_keys,
}

module _ {Value : Type 0} (s : Serde Value) (laws : SerdeLaws s) where
  optional_uuid_from-optional_uuid :
      (o : Option Uuid) → optional_uuid_from s (some (optional_uuid s o)) ≡ some o
  unfolding optional_uuid_from optional_uuid
  optional_uuid_from-optional_uuid none = rw laws.null_is_null refl
  optional_uuid_from-optional_uuid (some id) =
      rw (laws.uuid_not_null id, laws.uuid_of_value id) refl

  kind_from_value-kind_value :
      (k : IntegrationMessageKind) → kind_from_value s (kind_value s k) ≡ some k
  unfolding kind_from_value kind_value
  kind_from_value-kind_value command = rw (laws.text_of_value (codes "command")) refl
  kind_from_value-kind_value event = rw (laws.text_of_value (codes "event")) refl

  -- A field of an object that was written.
  required-object :
      {A : Type 0} (fields : Fields Value) (key : Text) (v : Value) (read : Value → Option A)
      → distinct_keys fields ≡ true
      → lookup key fields ≡ some v
      → required s (s.object_value fields) key read ≡ read v
  required-object fields key v read d e = rw (laws.get_object fields key d ∙ e) refl

  -- The fields of an envelope.
  abbrev pub envelope_list : EnvelopeFields Value → Fields Value
  envelope_list e =
      (codes "message_id", s.uuid_value e.message_id)
      ∷ (codes "kind", kind_value s e.kind)
      ∷ (codes "type", s.text_value e.message_type)
      ∷ (codes "version", s.number_value e.version)
      ∷ (codes "subject", s.text_value e.subject)
      ∷ (codes "correlation_id", optional_uuid s e.correlation_id)
      ∷ (codes "causation_id", optional_uuid s e.causation_id)
      ∷ (codes "payload", e.payload)
      ∷ []

  envelope_field :
      (e : EnvelopeFields Value) (key : Text)
      → s.get (s.object_value (envelope_list e)) key ≡ lookup key (envelope_list e)
  envelope_field e key = laws.get_object (envelope_list e) key refl

  read_header-envelope :
      (e : EnvelopeFields Value) → read_header s (s.object_value (envelope_list e)) ≡ some e
  read_header-envelope e =
      rw
        (
          envelope_field e (codes "message_id"),
          envelope_field e (codes "kind"),
          envelope_field e (codes "type"),
          envelope_field e (codes "version"),
          envelope_field e (codes "subject"),
          envelope_field e (codes "correlation_id"),
          envelope_field e (codes "causation_id"),
          envelope_field e (codes "payload"),
          laws.uuid_of_value e.message_id,
          kind_from_value-kind_value e.kind,
          laws.text_of_value e.message_type,
          laws.number_of_value e.version,
          laws.text_of_value e.subject,
          optional_uuid_from-optional_uuid e.correlation_id,
          optional_uuid_from-optional_uuid e.causation_id,
        )
        refl

  pub header_of_envelope :
      (e : EnvelopeFields Value) → header_from_value s (envelope_value s e) ≡ some e
  unfolding header_from_value envelope_value
  header_of_envelope e =
      rw (laws.only_keys_object (header_keys s) (envelope_list e)) (read_header-envelope e)

  pub envelope_has_kind :
      (e : EnvelopeFields Value) → contains_key s (codes "kind") (envelope_value s e) ≡ true
  unfolding contains_key envelope_value
  envelope_has_kind e = rw (envelope_field e (codes "kind")) refl

  -- The fields of a document's work.
  abbrev pub owned_list : Text → Uuid → Text → Fields Value
  owned_list owner id key = (owner, s.uuid_value id) ∷ (codes "object_key", s.text_value key) ∷ []

  owned_work-read :
      (owner : Text) (make : Uuid → Text → DocumentWork) (id : Uuid) (key : Text)
      → text_eq owner (codes "object_key") ≡ false
      → text_eq (codes "object_key") owner ≡ false
      → owned_work s owner make (s.object_value (owned_list owner id key)) ≡ some (make id key)
  unfolding owned_work
  owned_work-read owner make id key apart other =
      rw
        (
          laws.only_keys_object (owner ∷ codes "object_key" ∷ []) (owned_list owner id key),
          laws.get_object (owned_list owner id key) owner (rw other refl),
          laws.get_object (owned_list owner id key) (codes "object_key") (rw other refl),
          text_eq_refl owner,
          apart,
          other,
          laws.uuid_of_value id,
          laws.text_of_value key,
        )
        refl

  owned_work-other :
      (owner : Text) (make : Uuid → Text → DocumentWork) (id : Uuid) (key : Text)
      → owned_work s
          (codes "evidence_submission_id")
          make
          (s.object_value (owned_list (codes "policy_id") id key))
        ≡ none
  unfolding owned_work
  owned_work-other owner make id key =
      rw
        (laws.only_keys_object (codes "evidence_submission_id" ∷ codes "object_key" ∷ [])
          (owned_list (codes "policy_id") id key))
        refl

  document_work-read :
      (w : DocumentWork) → document_work_from_value s (document_work_value s w) ≡ some w
  unfolding document_work_from_value document_work_value
  document_work-read (evidence_work id key) =
      rw (owned_work-read (codes "evidence_submission_id") evidence_work id key refl refl) refl
  document_work-read (policy_work id key) =
      rw
        (
          owned_work-other (codes "policy_id") evidence_work id key,
          owned_work-read (codes "policy_id") policy_work id key refl refl,
        )
        refl

  pub document_of_payload :
      (w : DocumentWork) (v : Value)
      → payload_to_value s (document w) ≡ some v
      → document_work_from_value s v ≡ some w
  unfolding payload_to_value
  document_of_payload w v h =
      subst (λ x. document_work_from_value s x ≡ some w) (some-injective _ v h)
        (document_work-read w)

  delivery_work-read :
      (w : WorkspaceInvitationDeliveryWork)
      → delivery_work_from_value s (delivery_work_value s w) ≡ some w
  unfolding delivery_work_from_value delivery_work_value
  delivery_work-read w =
      let fields : Fields Value =
        (codes "invitation_id", s.uuid_value w.invitation_id)
        ∷ (codes "generation", s.integer_value w.generation)
        ∷ [] in
      rw
        (
          laws.only_keys_object (codes "invitation_id" ∷ codes "generation" ∷ []) fields,
          laws.get_object fields (codes "invitation_id") refl,
          laws.get_object fields (codes "generation") refl,
          laws.uuid_of_value w.invitation_id,
          laws.integer_of_value w.generation,
        )
        refl

  pub delivery_of_payload :
      (w : WorkspaceInvitationDeliveryWork) (v : Value)
      → payload_to_value s (workspace_invitation w) ≡ some v
      → delivery_work_from_value s v ≡ some w
  unfolding payload_to_value
  delivery_of_payload w v h =
      subst (λ x. delivery_work_from_value s x ≡ some w) (some-injective _ v h)
        (delivery_work-read w)
