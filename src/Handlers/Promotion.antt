-- ===== src/Handlers/Promotion.antt =====
-- A quarantined object is deleted only where its copy has been verified and the document names the copy.
use proofplane.Prelude.{◌≡◌, Bool, true, false, some, ok}
use proofplane.Domain.Document.Types.{Document, uploaded, document_id, owner_of}
use proofplane.Handlers.Finalization.{
  promoted, deleted_evidence, deleted_quarantine, StoreCall, FinalizationOutside,
  FinalizationRequestedPayload, copy_differs, final_document_object_key,
}
use proofplane.Handlers.Scan.{ObjectMetadata}
use proofplane.Messaging.Serde.{Serde}
use proofplane.Messaging.Types.{Uuids}
use proofplane.Persistence.Database.{Database, get_document}
use proofplane.Persistence.Work.{TypedDocumentUploadWork, load_finalizing_upload_work}
use proofplane.Storage.Key.{ObjectKey}

abbrev pub is_quarantine_deletion : StoreCall → Bool
is_quarantine_deletion (deleted_quarantine _) = true
is_quarantine_deletion (deleted_evidence _) = false
is_quarantine_deletion (promoted _ _) = false

module _ {Value : Type 0} (s : Serde Value) (u : Uuids) (outside : FinalizationOutside Value) where
  -- The work was copied to a key, the copy is what was declared, and the document names that key.
  abbrev pub IsPromoted :
      TypedDocumentUploadWork → ObjectKey → ObjectKey → ObjectMetadata → Database Value → Type 0
  IsPromoted w key final_key copied after =
      (outside.promote key final_key ≡ ok copied)
      × (copy_differs w final_key copied ≡ false)
      × (final_document_object_key u w ≡ ok final_key)
      × ((d : Document) × (get_document (document_id w.identity) (owner_of w.identity) after
            ≡ some (record d { object_key = final_key.value; upload_status = uploaded })))

  -- The work that was read before was promoted.
  abbrev pub DeletedAfter : FinalizationRequestedPayload → Database Value → Database Value → Type 0
  DeletedAfter p db after =
      (w : TypedDocumentUploadWork) × (load_finalizing_upload_work p.identity p.object_key.value db
        ≡ some w)
      × ((final_key : ObjectKey) × (copied : ObjectMetadata) × IsPromoted w p.object_key final_key
            copied after)
