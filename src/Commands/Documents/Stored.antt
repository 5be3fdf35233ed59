-- ===== src/Commands/Documents/Stored.antt =====
-- What the result of a scan makes of a document, and its storing with the message.
use proofplane.Prelude.{
  ◌≡◌, refl, sym, ap, subst, ◌∙◌, ◌⊎◌, true, false, Option, none, some, arith, ok, bind-ok,
  ok-injective,
}
use proofplane.Commands.Documents.Messages.{
  append_transition_message, append_message, with_outbox, message_for,
}
use proofplane.Commands.Documents.Types.{
  ScanDocumentResult, clean_result, malicious_result, failed_result,
}
use proofplane.Commands.Documents.Worker.{scanned_document, store_transition}
use proofplane.Commands.Metadata.{Environment, ExecutionMetadata}
use proofplane.Domain.Document.Lifecycle.{
  status_eq, transition, scan_clean, scan_malicious, scan_failed,
}
use proofplane.Domain.Document.Types.{
  Document, DocumentTransition, changed, ignored, pending_upload,
}
use proofplane.Messaging.Serde.{Serde}
use proofplane.Messaging.Types.{Uuids}
use proofplane.Outbox.Rows.{NewOutboxMessage}
use proofplane.Outbox.Table.{append_outbox_message}
use proofplane.Persistence.Database.{Database, save_document}
use proofplane.Persistence.Saving.{with_document, save_document-ok}

-- The result of a scan moves a pending document on, and reports it, or leaves it and reports nothing.
abbrev pub Moved : Document → Document × DocumentTransition → Type 0
Moved d (v, t) =
    (changed t ≡ true)
    × (d.archived ≡ false)
    × (d.upload_status ≡ pending_upload)
    × (v.identity ≡ d.identity)
    × (v.object_key ≡ d.object_key)
    × (status_eq v.upload_status pending_upload ≡ false)

abbrev pub Unmoved : Document → Document × DocumentTransition → Type 0
Unmoved d (v, t) = (changed t ≡ false) × (t.outcome ≡ ignored) × (v ≡ d)

module _ {Value : Type 0} (s : Serde Value) (u : Uuids) (env : Environment) where
  pub scanned_document-Moved :
      (r : ScanDocumentResult) (d : Document)
      → Moved d (scanned_document s u env r d) ⊎ Unmoved d (scanned_document s u env r d)
  unfolding scanned_document scan_clean scan_malicious scan_failed transition changed
  scanned_document-Moved clean_result d = ground arith
  scanned_document-Moved malicious_result d = ground arith
  scanned_document-Moved failed_result d = ground arith

  pub scanned_document-settled :
      (r : ScanDocumentResult) (d : Document)
      → status_eq d.upload_status pending_upload ≡ false
      → Unmoved d (scanned_document s u env r d)
  unfolding scanned_document scan_clean scan_malicious scan_failed transition changed
  scanned_document-settled clean_result d h = ground arith
  scanned_document-settled malicious_result d h = ground arith
  scanned_document-settled failed_result d h = ground arith

  append_message-documents :
      (o : Option NewOutboxMessage) (db after : Database Value)
      → append_message s u env o db ≡ ok after
      → after.documents ≡ db.documents
  append_message-documents none db after h = ap (λ d. d.documents) (sym (ok-injective db after h))
  append_message-documents (some message) db after h =
      let ((t, _), _, e) =
        bind-ok (append_outbox_message s env.now message db.outbox) (with_outbox s u env db) after
          h in
      ap (λ d. d.documents) (sym (ok-injective (record db { outbox = t }) after e))

  -- The changed document is stored, and its message is appended.
  abbrev pub Stored :
      Document × DocumentTransition → ExecutionMetadata → Database Value → Database Value → Type 0
  Stored (v, t) m db after =
      (append_transition_message s u env t.event m (with_document v db) ≡ ok after)
      × (after.documents ≡ (with_document v db).documents)

  pub store_transition-Stored :
      (v : Document) (t : DocumentTransition) (m : ExecutionMetadata) (db after : Database Value)
      → changed t ≡ true
      → store_transition s u env (v, t) m db ≡ ok after
      → Stored (v, t) m db after
  unfolding store_transition append_transition_message
  store_transition-Stored v t m db after moved h =
      let (saved, e, k) =
        bind-ok (save_document v db) (append_transition_message s u env t.event m) after
          (sym (rw moved refl) ∙ h) in
      let same = save_document-ok v db saved e in
      let appends = subst (λ d. append_transition_message s u env t.event m d ≡ ok after) same k in
      (
        appends,
        append_message-documents (message_for u env.message_id t.event m) (with_document v db) after
            appends,
      )
