-- ===== src/Commands/Documents/Scanning.antt =====
-- What the command of a scan does to the store: the transition with its message, or nothing; and a result that
-- is delivered again does nothing.
use proofplane.Prelude.{
  ◌≡◌, refl, sym, ap, ◌∙◌, inl, inr, true, false, Option, none, some, arith, Bool-cases, Result, ok,
  ◌>>=◌, bind-ok, ok-injective,
}
use proofplane.Text.{text_eq, text_eq_iff}
use proofplane.Commands.Documents.Stored.{
  Moved, scanned_document-settled, Stored, scanned_document-Moved, store_transition-Stored,
}
use proofplane.Commands.Documents.Types.{
  command_applied, ScanDocument, outcome_of_transition, command_ignored, DocumentCommandOutcome,
}
use proofplane.Commands.Documents.Worker.{
  scanned_document, store_transition, apply_scan, with_outcome, handle_scan_document,
  scan_operation,
}
use proofplane.Commands.Metadata.{Environment, ExecutionMetadata}
use proofplane.Commands.Transactions.{in_unit_of_work-ok}
use proofplane.Domain.Document.Lifecycle.{status_eq}
use proofplane.Domain.Document.Types.{
  Document, ignored, pending_upload, DocumentTransitionOutcome, document_id, owner_of,
  DocumentOwner, DocumentIdentity,
}
use proofplane.Domain.Ids.{DocumentId}
use proofplane.Messaging.Serde.{Serde}
use proofplane.Messaging.Types.{Uuids}
use proofplane.Outbox.Rows.{PersistenceError}
use proofplane.Persistence.Database.{Database, in_unit_of_work, get_document, is_document, find}
use proofplane.Persistence.Saving.{
  with_document, get_document-with_document, get_document-is_document,
}

module _ {Value : Type 0} (s : Serde Value) (u : Uuids) (env : Environment) where
  pub ignored_applied :
      {P : Type 0} (db after : Database Value)
      → ◌≡◌ {A = Result (DocumentCommandOutcome × Database Value) PersistenceError}
          (ok (command_ignored, db))
          (ok (command_applied, after))
      → P
  ignored_applied db after h = ground arith

  pub not_applied :
      {P : Type 0} (outcome : DocumentTransitionOutcome)
      → outcome ≡ ignored
      → outcome_of_transition outcome ≡ command_applied
      → P
  unfolding outcome_of_transition
  not_applied outcome h k = ground arith

  -- What a scan that was applied has done.
  abbrev pub ScanApplied :
      ScanDocument → ExecutionMetadata → Database Value → Database Value → Document → Type 0
  ScanApplied c m db after d =
      (d.object_key ≡ c.object_key)
      × Moved d (scanned_document s u env c.result d)
      × Stored s u env (scanned_document s u env c.result d) m db after

  apply_known :
      (c : ScanDocument) (m : ExecutionMetadata) (db after : Database Value) (d : Document)
      → (store_transition s u env (scanned_document s u env c.result d) m db
          >>= with_outcome s u env (scanned_document s u env c.result d).1.outcome)
        ≡ ok (command_applied, after)
      → Moved d (scanned_document s u env c.result d)
        × Stored s u env (scanned_document s u env c.result d) m db after
  unfolding with_outcome
  apply_known c m db after d h =
      let (v, t) = scanned_document s u env c.result d in
      let (saved, stores, e) =
        bind-ok (store_transition s u env (v, t) m db) (with_outcome s u env t.outcome)
          (command_applied, after) h in
      let pair = ok-injective (outcome_of_transition t.outcome, saved) (command_applied, after) e in
      elim (scanned_document-Moved s u env c.result d) [
        | inl moved ↦ (
          moved,
          store_transition-Stored s u env v t m db after moved.0 (stores ∙ ap (λ p. ok p.1) pair),
        )
        | inr unmoved ↦ not_applied t.outcome unmoved.1 (ap (λ p. p.0) pair)
      ]

  apply_scan-applied :
      (c : ScanDocument) (m : ExecutionMetadata) (db after : Database Value) (o : Option Document)
      → apply_scan s u env c m db o ≡ ok (command_applied, after)
      → (d : Document) × (o ≡ some d) × ScanApplied c m db after d
  unfolding apply_scan
  apply_scan-applied c m db after none h = ignored_applied db after h
  apply_scan-applied c m db after (some d) h =
      elim (Bool-cases (text_eq d.object_key c.object_key)) [
        | inr other ↦ ignored_applied db after (sym (rw other refl) ∙ h)
        | inl same ↦
            let (moved, stored) = apply_known c m db after d (sym (rw same refl) ∙ h) in
            (d, refl, ((text_eq_iff d.object_key c.object_key).0 same, moved, stored))
      ]

  is_document-moved :
      (id : DocumentId) (owner : DocumentOwner) (d v : Document)
      → v.identity ≡ d.identity
      → is_document id owner d ≡ true
      → is_document id owner v ≡ true
  unfolding is_document
  is_document-moved id owner d v e h = rw e h

  get_document-documents :
      (id : DocumentId) (owner : DocumentOwner) (db after : Database Value)
      → after.documents ≡ db.documents
      → get_document id owner after ≡ get_document id owner db
  unfolding get_document
  get_document-documents id owner db after e = ap (λ ds. find (is_document id owner) ds) e

  -- The document is found with its new state.
  pub stored_found :
      (identity : DocumentIdentity) (d v : Document) (db after : Database Value)
      → get_document (document_id identity) (owner_of identity) db ≡ some d
      → v.identity ≡ d.identity
      → after.documents ≡ (with_document v db).documents
      → get_document (document_id identity) (owner_of identity) after ≡ some v
  stored_found identity d v db after found same stored =
      let id = document_id identity in
      let owner = owner_of identity in
      get_document-documents id owner (with_document v db) after stored
      ∙ get_document-with_document id owner v db
          (is_document-moved id owner d v same (get_document-is_document id owner d db found))

  handle_scan_document-applied :
      (c : ScanDocument) (m : ExecutionMetadata) (db after : Database Value)
      → handle_scan_document s u env c m db ≡ (ok command_applied, after)
      → (d : Document) × (get_document (document_id c.identity) (owner_of c.identity) db ≡ some d)
        × ScanApplied c m db after d
  unfolding handle_scan_document
  handle_scan_document-applied c m db after h =
      let (_, applies) =
        in_unit_of_work-ok env.fails (scan_operation s u env c m) db after command_applied h in
      apply_scan-applied c m db after _ applies

  pub handle_scan_document-found :
      (c : ScanDocument) (m : ExecutionMetadata) (db after : Database Value)
      → handle_scan_document s u env c m db ≡ (ok command_applied, after)
      → (d : Document) × (get_document (document_id c.identity) (owner_of c.identity) db ≡ some d)
        × ScanApplied c m db after d
        × (get_document (document_id c.identity) (owner_of c.identity) after
            ≡ some (scanned_document s u env c.result d).0)
  handle_scan_document-found c m db after h =
      let (d, found, applied) = handle_scan_document-applied c m db after h in
      let (v, t) = scanned_document s u env c.result d in
      (d, found, applied, stored_found c.identity d v db after found applied.1.3 applied.2.1)

module _ {Value : Type 0} (s : Serde Value) (u : Uuids) where
  apply_scan-settled :
      (env : Environment) (c : ScanDocument) (m : ExecutionMetadata) (db : Database Value)
      (d : Document)
      → status_eq d.upload_status pending_upload ≡ false
      → apply_scan s u env c m db (some d) ≡ ok (command_ignored, db)
  unfolding apply_scan store_transition with_outcome outcome_of_transition
  apply_scan-settled env c m db d h = elim (Bool-cases (text_eq d.object_key c.object_key)) [
    | inr other ↦ rw other refl
    | inl same ↦
        let (still, outcome, _) = scanned_document-settled s u env c.result d h in
        rw (same, still, outcome) refl
  ]

  -- If the result of a scan was applied to a document, every later result of a scan of that
  -- document, whatever it says and whatever object key it names, is ignored and changes nothing in
  -- the store, if the database works.
  pub handle_scan_document_twice :
      (first second : Environment) (c d : ScanDocument) (m n : ExecutionMetadata)
      (db after : Database Value)
      → handle_scan_document s u first c m db ≡ (ok command_applied, after)
      → d.identity ≡ c.identity
      → second.fails ≡ false
      → handle_scan_document s u second d n after ≡ (ok command_ignored, after)
  unfolding handle_scan_document in_unit_of_work
  handle_scan_document_twice first second c d m n db after h same works =
      let (x, _, applied, found) = handle_scan_document-found s u first c m db after h in
      rw
        (
          works,
          same,
          found,
          apply_scan-settled second d n after (scanned_document s u first c.result x).0 applied.1.5,
        )
        refl
