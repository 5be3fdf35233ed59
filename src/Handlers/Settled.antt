-- ===== src/Handlers/Settled.antt =====
-- A result of a scan that the command has taken leaves no work on the document that it names.
use proofplane.Prelude.{
  ◌≡◌, refl, sym, ap, subst, ◌∙◌, inl, inr, false, Option, none, some, arith, Bool-cases, Result,
  ok, bind-ok, ok-injective,
}
use proofplane.Text.{Text, text_eq}
use proofplane.Commands.Documents.Scanning.{stored_found}
use proofplane.Commands.Documents.Stored.{scanned_document-Moved, store_transition-Stored}
use proofplane.Commands.Documents.Types.{
  ScanDocument, clean_result, malicious_result, failed_result, command_ignored, ScanDocumentResult,
  DocumentCommandOutcome,
}
use proofplane.Commands.Documents.Worker.{
  scanned_document, store_transition, apply_scan, handle_scan_document, with_outcome,
  scan_operation,
}
use proofplane.Commands.Metadata.{Environment, ExecutionMetadata}
use proofplane.Commands.Transactions.{in_unit_of_work-ok}
use proofplane.Domain.Document.Lifecycle.{
  status_eq, scan_clean, scan_malicious, scan_failed, transition,
}
use proofplane.Domain.Document.Types.{
  DocumentIdentity, pending_upload, Document, document_id, owner_of, changed,
}
use proofplane.Messaging.Serde.{Serde}
use proofplane.Messaging.Types.{Uuids}
use proofplane.Outbox.Rows.{PersistenceError}
use proofplane.Persistence.Database.{Database, get_document}
use proofplane.Persistence.Work.{load_pending_upload_work, is_work, work_if}

abbrev pub IsSettled : {Value : Type 0} → DocumentIdentity → Text → Database Value → Type 0
IsSettled identity object_key db = load_pending_upload_work identity object_key db ≡ none

module _ {Value : Type 0} where
  load_missing :
      (identity : DocumentIdentity) (object_key : Text) (db : Database Value)
      → get_document (document_id identity) (owner_of identity) db ≡ none
      → IsSettled identity object_key db
  unfolding load_pending_upload_work
  load_missing identity object_key db h = ap (work_if identity object_key pending_upload db) h

  load_found :
      (identity : DocumentIdentity) (object_key : Text) (db : Database Value) (d : Document)
      → get_document (document_id identity) (owner_of identity) db ≡ some d
      → is_work object_key pending_upload d db ≡ false
      → IsSettled identity object_key db
  unfolding load_pending_upload_work
  load_found identity object_key db d h k =
      ap (work_if identity object_key pending_upload db) h ∙ rw k refl

  other_key-is_work :
      (object_key : Text) (db : Database Value) (d : Document)
      → text_eq d.object_key object_key ≡ false
      → is_work object_key pending_upload d db ≡ false
  unfolding is_work
  other_key-is_work object_key db d h = ground arith

  settled-is_work :
      (object_key : Text) (db : Database Value) (d : Document)
      → status_eq d.upload_status pending_upload ≡ false
      → is_work object_key pending_upload d db ≡ false
  unfolding is_work
  settled-is_work object_key db d h = ground arith

module _ {Value : Type 0} (s : Serde Value) (u : Uuids) (env : Environment) where
  -- A result that changes nothing was not waited for.
  unmoved-is_work :
      (r : ScanDocumentResult) (object_key : Text) (db : Database Value) (d : Document)
      → changed (scanned_document s u env r d).1 ≡ false
      → is_work object_key pending_upload d db ≡ false
  unfolding is_work scanned_document scan_clean scan_malicious scan_failed transition changed
  unmoved-is_work clean_result object_key db d h = ground arith
  unmoved-is_work malicious_result object_key db d h = ground arith
  unmoved-is_work failed_result object_key db d h = ground arith

  ignored_scan :
      (r : ScanDocumentResult) (m : ExecutionMetadata) (db after : Database Value) (d : Document)
      → changed (scanned_document s u env r d).1 ≡ false
      → store_transition s u env (scanned_document s u env r d) m db ≡ ok after
      → after ≡ db
  unfolding store_transition
  ignored_scan r m db after d h k = sym (ok-injective db after (sym (rw h refl) ∙ k))

  apply_known-IsSettled :
      (c : ScanDocument) (m : ExecutionMetadata) (db after : Database Value) (d : Document)
      → get_document (document_id c.identity) (owner_of c.identity) db ≡ some d
      → store_transition s u env (scanned_document s u env c.result d) m db ≡ ok after
      → IsSettled c.identity c.object_key after
  apply_known-IsSettled c m db after d found stores =
      let (v, t) = scanned_document s u env c.result d in
      elim (scanned_document-Moved s u env c.result d) [
        | inl moved ↦
            let stored = store_transition-Stored s u env v t m db after moved.0 stores in
            load_found c.identity c.object_key after v
              (stored_found s u env c.identity d v db after found moved.3 stored.1)
              (settled-is_work c.object_key after v moved.5)
        | inr unmoved ↦
            subst (λ x. IsSettled c.identity c.object_key x)
              (sym (ignored_scan c.result m db after d unmoved.0 stores))
              (load_found c.identity c.object_key db d found
                (unmoved-is_work c.result c.object_key db d unmoved.0))
      ]

  same_store :
      (c : ScanDocument) (o outcome : DocumentCommandOutcome) (db after : Database Value)
      → ◌≡◌ {A = Result (DocumentCommandOutcome × Database Value) PersistenceError}
          (ok (o, db))
          (ok (outcome, after))
      → IsSettled c.identity c.object_key db
      → IsSettled c.identity c.object_key after
  same_store c o outcome db after h =
      subst (λ x. IsSettled c.identity c.object_key x)
        (ap (λ p. p.1) (ok-injective (o, db) (outcome, after) h))

  apply_scan-IsSettled :
      (c : ScanDocument) (m : ExecutionMetadata) (db after : Database Value)
      (outcome : DocumentCommandOutcome) (o : Option Document)
      → get_document (document_id c.identity) (owner_of c.identity) db ≡ o
      → apply_scan s u env c m db o ≡ ok (outcome, after)
      → IsSettled c.identity c.object_key after
  unfolding apply_scan with_outcome
  apply_scan-IsSettled c m db after outcome none found h =
      same_store c command_ignored outcome db after h
        (load_missing c.identity c.object_key db found)
  apply_scan-IsSettled c m db after outcome (some d) found h =
      elim (Bool-cases (text_eq d.object_key c.object_key)) [
        | inr other ↦ same_store c command_ignored outcome db after (sym (rw other refl) ∙ h) (
            load_found c.identity c.object_key db d found
              (other_key-is_work c.object_key db d other))
        | inl same ↦
            let (saved, stores, e) =
              bind-ok (store_transition s u env (scanned_document s u env c.result d) m db)
                (with_outcome s u env (scanned_document s u env c.result d).1.outcome)
                (outcome, after) (sym (rw same refl) ∙ h) in
            same_store c _ outcome saved after e (apply_known-IsSettled c m db saved d found stores)
      ]

  pub handle_scan_document-IsSettled :
      (c : ScanDocument) (m : ExecutionMetadata) (db after : Database Value)
      (outcome : DocumentCommandOutcome)
      → handle_scan_document s u env c m db ≡ (ok outcome, after)
      → IsSettled c.identity c.object_key after
  unfolding handle_scan_document
  handle_scan_document-IsSettled c m db after outcome h =
      let (_, applies) =
        in_unit_of_work-ok env.fails (scan_operation s u env c m) db after outcome h in
      apply_scan-IsSettled c m db after outcome _ refl applies
