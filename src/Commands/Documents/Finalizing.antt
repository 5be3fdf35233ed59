-- ===== src/Commands/Documents/Finalizing.antt =====
-- What the command of a finalization has done where it was applied.
use proofplane.Prelude.{
  ◌≡◌, refl, sym, ap, ◌∙◌, ◌⊎◌, inl, inr, true, false, not, ◌||◌, Option, none, some, Bool-cases,
  ok, ◌>>=◌, bind-ok, ok-injective,
}
use proofplane.Text.{Text, text_eq}
use proofplane.Commands.Documents.Scanning.{ignored_applied, not_applied, stored_found}
use proofplane.Commands.Documents.Types.{command_applied, FinalizeDocument, outcome_of_transition}
use proofplane.Commands.Documents.Worker.{
  store_change, apply_finalization, handle_finalize_document, with_outcome, finalization_operation,
}
use proofplane.Commands.Metadata.{Environment}
use proofplane.Commands.Transactions.{in_unit_of_work-ok}
use proofplane.Domain.Document.Lifecycle.{finalize_uploaded, status_eq}
use proofplane.Domain.Document.Types.{
  changed, finalizing, uploaded, ignored, Document, document_id, owner_of,
}
use proofplane.Messaging.Serde.{Serde}
use proofplane.Messaging.Types.{Uuids}
use proofplane.Persistence.Database.{Database, get_document}
use proofplane.Persistence.Saving.{with_document, save_document-ok}

-- A finalization moves a document to its new key, or leaves it.
finalize_uploaded-cases :
    (d : Document) (key : Text)
    → ((changed (finalize_uploaded d key).1 ≡ true)
        × ((finalize_uploaded d key).0 ≡ record d { object_key = key; upload_status = uploaded }))
      ⊎ ((changed (finalize_uploaded d key).1 ≡ false)
          × ((finalize_uploaded d key).1.outcome ≡ ignored))
unfolding finalize_uploaded changed
finalize_uploaded-cases d key =
    elim (Bool-cases (d.archived || not (status_eq d.upload_status finalizing))) [
      | inl stays ↦ inr (rw stays refl, rw stays refl)
      | inr moves ↦ inl (rw moves refl, rw moves refl)
    ]

module _ {Value : Type 0} (s : Serde Value) (u : Uuids) (env : Environment) where
  abbrev pub finalized_document : FinalizeDocument → Document → Document
  finalized_document c d = record d { object_key = c.final_object_key; upload_status = uploaded }

  store_change-moved :
      (c : FinalizeDocument) (db after : Database Value) (d : Document)
      → store_change s u env (finalize_uploaded d c.final_object_key) db
          >>= with_outcome s u env (finalize_uploaded d c.final_object_key).1.outcome
        ≡ ok (command_applied, after)
      → after ≡ with_document (finalized_document c d) db
  unfolding store_change with_outcome
  store_change-moved c db after d h =
      let (v, t) = finalize_uploaded d c.final_object_key in
      let (saved, stores, e) =
        bind-ok (store_change s u env (v, t) db) (with_outcome s u env t.outcome)
          (command_applied, after) h in
      let pair = ok-injective (outcome_of_transition t.outcome, saved) (command_applied, after) e in
      elim (finalize_uploaded-cases d c.final_object_key) [
        | inl (moved, same) ↦
            sym (ap (λ p. p.1) pair)
            ∙ save_document-ok v db saved (sym (rw moved refl) ∙ stores)
            ∙ ap (λ x. with_document x db) same
        | inr (_, outcome) ↦ not_applied s u env t.outcome outcome (ap (λ p. p.0) pair)
      ]

  apply_finalization-applied :
      (c : FinalizeDocument) (db after : Database Value) (o : Option Document)
      → apply_finalization s u env c db o ≡ ok (command_applied, after)
      → (d : Document) × (o ≡ some d) × (after ≡ with_document (finalized_document c d) db)
  unfolding apply_finalization
  apply_finalization-applied c db after none h = ignored_applied s u env db after h
  apply_finalization-applied c db after (some d) h =
      elim (Bool-cases (text_eq d.object_key c.quarantine_object_key)) [
        | inr other ↦ ignored_applied s u env db after (sym (rw other refl) ∙ h)
        | inl same ↦ (d, refl, store_change-moved c db after d (sym (rw same refl) ∙ h))
      ]

  pub handle_finalize_document-applied :
      (c : FinalizeDocument) (db after : Database Value)
      → handle_finalize_document s u env c db ≡ (ok command_applied, after)
      → (d : Document) × (get_document (document_id c.identity) (owner_of c.identity) after
          ≡ some (finalized_document c d))
  unfolding handle_finalize_document
  handle_finalize_document-applied c db after h =
      let (_, applies) =
        in_unit_of_work-ok env.fails (finalization_operation s u env c) db after command_applied
          h in
      let (d, found, stored) = apply_finalization-applied c db after _ applies in
      (
        d,
        stored_found s u env c.identity d (finalized_document c d) db after found refl
            (ap (λ x. x.documents) stored),
      )
