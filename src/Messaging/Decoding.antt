-- ===== src/Messaging/Decoding.antt =====
-- What `from_envelope` answers: a message that was written, and never one whose payload is of the wrong kind.
use proofplane.Prelude.{
  ◌≡◌, refl, sym, subst, ◌∙◌, inl, inr, true, some, arith, ◌==◌, ==_iff, Bool-cases, Option-cases,
  ok, ◌>>=◌, ◌>>◌, ok_or, guard, bind-ok, guard-ok, ok_or-ok, ok-injective,
}
use proofplane.Text.{text_eq_iff, text_eq}
use proofplane.Messaging.Envelope.{
  to_envelope, from_envelope, message_of_header, envelope_of, header_metadata, kind_eq,
  malformed_envelope, unknown_kind, unsupported_version, document_payload, delivery_payload,
}
use proofplane.Messaging.Serde.{Serde, SerdeLaws}
use proofplane.Messaging.Types.{
  document, workspace_invitation, scan_document, finalize_document, send_workspace_invitation,
  IntegrationMessage, DocumentWork, WorkspaceInvitationDeliveryWork, command, payload,
  scan_document_type, metadata, finalize_document_type, send_workspace_invitation_type, event,
  IntegrationMessageKind, IntegrationPayload, current_message_version,
}
use proofplane.Messaging.Wire.{
  payload_to_value, EnvelopeFields, envelope_value, document_work_from_value,
  delivery_work_from_value, header_from_value,
}
use proofplane.Messaging.Written.{header_of_envelope, document_of_payload, delivery_of_payload}

-- The payload is of the kind that belongs to the message.
abbrev pub Fits : IntegrationMessage → Type 0
Fits (scan_document _ p) = (w : DocumentWork) × (p ≡ document w)
Fits (finalize_document _ p) = (w : DocumentWork) × (p ≡ document w)
Fits (send_workspace_invitation _ p) =
    (w : WorkspaceInvitationDeliveryWork) × (p ≡ workspace_invitation w)

kind_eq-command : (k : IntegrationMessageKind) → kind_eq k command ≡ true → k ≡ command
kind_eq-command command h = refl
kind_eq-command event h = ground arith

module _ {Value : Type 0} (s : Serde Value) where
  written-payload :
      (m : IntegrationMessage) (v : Value)
      → to_envelope s m ≡ some v
      → (p : Value) × (payload_to_value s (payload m) ≡ some p)
        × (v ≡ envelope_value s (envelope_of s m p))
  unfolding to_envelope
  written-payload m v h = elim (Option-cases (payload_to_value s (payload m))) [
    | inl missing ↦ ground arith
    | inr (p, written) ↦ (p, written, ground arith)
  ]

  module _ (laws : SerdeLaws s) where
    message_of_header-envelope_of :
        (m : IntegrationMessage) (p : Value)
        → Fits m
        → payload_to_value s (payload m) ≡ some p
        → message_of_header s (envelope_of s m p) ≡ ok m
    unfolding message_of_header envelope_of payload
    message_of_header-envelope_of (scan_document d q) p (w, e) h =
        rw (document_of_payload s laws w p (rw (sym e) h), e) refl
    message_of_header-envelope_of (finalize_document d q) p (w, e) h =
        rw (document_of_payload s laws w p (rw (sym e) h), e) refl
    message_of_header-envelope_of (send_workspace_invitation d q) p (w, e) h =
        rw (delivery_of_payload s laws w p (rw (sym e) h), e) refl

    -- Let a JSON object have the fields that it was written with, and a value be read as it was
    -- written. If the payload of a message is of its kind and to_envelope writes it, from_envelope
    -- reads the same message.
    pub to_envelope-from_envelope :
        (m : IntegrationMessage) (v : Value)
        → Fits m
        → to_envelope s m ≡ some v
        → from_envelope s v ≡ ok m
    unfolding from_envelope envelope_of
    to_envelope-from_envelope m v f h =
        let (p, written, e) = written-payload m v h in
        rw (e, header_of_envelope s laws (envelope_of s m p))
          (message_of_header-envelope_of m p f written)

  -- The type and the payload of a header that is read as a message.
  abbrev pub Reads : EnvelopeFields Value → IntegrationMessage → Type 0
  Reads h (scan_document d p) =
      (h.message_type ≡ scan_document_type)
      × ((w : DocumentWork) × (document_work_from_value s h.payload ≡ some w) × (p ≡ document w))
  Reads h (finalize_document d p) =
      (h.message_type ≡ finalize_document_type)
      × ((w : DocumentWork) × (document_work_from_value s h.payload ≡ some w) × (p ≡ document w))
  Reads h (send_workspace_invitation d p) =
      (h.message_type ≡ send_workspace_invitation_type)
      × ((w : WorkspaceInvitationDeliveryWork) × (delivery_work_from_value s h.payload ≡ some w)
          × (p ≡ workspace_invitation w))

  document_payload-ok :
      (h : EnvelopeFields Value) (p : IntegrationPayload)
      → document_payload s h ≡ ok p
      → (w : DocumentWork) × (document_work_from_value s h.payload ≡ some w) × (p ≡ document w)
  unfolding document_payload
  document_payload-ok h p e = elim (Option-cases (document_work_from_value s h.payload)) [
    | inl missing ↦ ground arith
    | inr (w, read) ↦ (w, read, ground arith)
  ]

  delivery_payload-ok :
      (h : EnvelopeFields Value) (p : IntegrationPayload)
      → delivery_payload s h ≡ ok p
      → (w : WorkspaceInvitationDeliveryWork) × (delivery_work_from_value s h.payload ≡ some w)
        × (p ≡ workspace_invitation w)
  unfolding delivery_payload
  delivery_payload-ok h p e = elim (Option-cases (delivery_work_from_value s h.payload)) [
    | inl missing ↦ ground arith
    | inr (w, read) ↦ (w, read, ground arith)
  ]

  -- A header and the message that it is read as.
  abbrev pub Described : EnvelopeFields Value → IntegrationMessage → Type 0
  Described h m = Reads h m × (metadata m ≡ header_metadata s h)

  read_as_scan_document :
      (h : EnvelopeFields Value) (m : IntegrationMessage)
      → h.message_type ≡ scan_document_type
      → (document_payload s h >>= (λ p. ok (scan_document (header_metadata s h) p))) ≡ ok m
      → Described h m
  unfolding metadata
  read_as_scan_document h m type_ok e =
      let (p, read, same) = bind-ok (document_payload s h) _ m e in
      subst (Described h) (ok-injective _ m same) ((type_ok, document_payload-ok h p read), refl)

  read_as_finalize_document :
      (h : EnvelopeFields Value) (m : IntegrationMessage)
      → h.message_type ≡ finalize_document_type
      → (document_payload s h >>= (λ p. ok (finalize_document (header_metadata s h) p))) ≡ ok m
      → Described h m
  unfolding metadata
  read_as_finalize_document h m type_ok e =
      let (p, read, same) = bind-ok (document_payload s h) _ m e in
      subst (Described h) (ok-injective _ m same) ((type_ok, document_payload-ok h p read), refl)

  read_as_send_workspace_invitation :
      (h : EnvelopeFields Value) (m : IntegrationMessage)
      → h.message_type ≡ send_workspace_invitation_type
      → (delivery_payload s h >>= (λ p. ok (send_workspace_invitation (header_metadata s h) p)))
        ≡ ok m
      → Described h m
  unfolding metadata
  read_as_send_workspace_invitation h m type_ok e =
      let (p, read, same) = bind-ok (delivery_payload s h) _ m e in
      subst (Described h) (ok-injective _ m same) ((type_ok, delivery_payload-ok h p read), refl)

  message_of_header-Described :
      (h : EnvelopeFields Value) (m : IntegrationMessage)
      → message_of_header s h ≡ ok m
      → Described h m
  unfolding message_of_header
  message_of_header-Described h m e =
      elim (Bool-cases (text_eq h.message_type scan_document_type)) [
        | inl scan ↦ read_as_scan_document h m ((text_eq_iff _ _).0 scan) (sym (rw scan refl) ∙ e)
        | inr other ↦ elim (Bool-cases (text_eq h.message_type finalize_document_type)) [
          | inl final ↦
              read_as_finalize_document h m ((text_eq_iff _ _).0 final)
                (sym (rw (other, final) refl) ∙ e)
          | inr last ↦ elim (Bool-cases (text_eq h.message_type send_workspace_invitation_type)) [
            | inl send ↦
                read_as_send_workspace_invitation h m ((text_eq_iff _ _).0 send)
                  (sym (rw (other, last, send) refl) ∙ e)
            | inr strange ↦ ground arith
          ]
        ]
      ]

  accepted_header :
      (h : EnvelopeFields Value) (m : IntegrationMessage)
      → (guard (kind_eq h.kind command) (unknown_kind h.kind)
          >> (guard
                (h.version == current_message_version)
                (unsupported_version h.message_type h.version)
              >> message_of_header s h))
        ≡ ok m
      → (h.kind ≡ command) × (h.version ≡ 1) × Described h m
  accepted_header h m e =
      let (_, kind_ok, e1) = bind-ok (guard (kind_eq h.kind command) (unknown_kind h.kind)) _ m e in
      let (_, version_ok, e2) =
        bind-ok (guard (h.version == 1) (unsupported_version h.message_type h.version)) _ m e1 in
      (
        kind_eq-command h.kind (guard-ok _ _ kind_ok),
        (==_iff h.version 1).0 (guard-ok _ _ version_ok),
        message_of_header-Described h m e2,
      )

  -- If from_envelope reads a message, then the header is a command of version 1 with the metadata
  -- and the type of that message, and the payload of the header is of the kind that belongs to that
  -- type and is the payload of the message.
  pub from_envelope-Described :
      (v : Value) (m : IntegrationMessage)
      → from_envelope s v ≡ ok m
      → (h : EnvelopeFields Value) × (header_from_value s v ≡ some h)
        × (h.kind ≡ command)
        × (h.version ≡ 1)
        × Described h m
  unfolding from_envelope
  from_envelope-Described v m e =
      let (h, read, e1) = bind-ok (ok_or (header_from_value s v) malformed_envelope) _ m e in
      let (kind_ok, version_ok, described) = accepted_header h m e1 in
      (h, ok_or-ok _ _ h read, kind_ok, version_ok, described)

  pub written_envelope :
      (m : IntegrationMessage) (p : Value)
      → payload_to_value s (payload m) ≡ some p
      → to_envelope s m ≡ some (envelope_value s (envelope_of s m p))
  unfolding to_envelope
  written_envelope m p h = rw h refl
