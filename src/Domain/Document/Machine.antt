-- ===== src/Domain/Document/Machine.antt =====
-- The lifecycle as a relation on documents, and the operations as its steps.
use proofplane.Prelude.{
  ◌≡◌, refl, sym, subst, ◌↔◌, ◌⊎◌, inl, inr, true, false, not, ◌||◌, Option, none, some, arith,
  Bool-cases,
}
use proofplane.Text.{Text}
use proofplane.Domain.Document.Lifecycle.{
  scan_clean, scan_malicious, status_eq, scan_failed, is_settled, finalize_uploaded, archive,
  transition,
}
use proofplane.Domain.Document.Types.{
  pending_upload, finalizing, uploaded, contains_virus, failed_upload, finalization_requested,
  Document, changed, DocumentEvent, DocumentTransition, DocumentUploadStatus,
}

pub data Call : Type 0 where
  scans_clean scans_malicious scans_failed archives : Call
  finalizes : Text → Call

unfoldable pub apply : Document → Call → Document × DocumentTransition
unfolding scan_clean scan_malicious scan_failed finalize_uploaded archive
apply d scans_clean = scan_clean d
apply d scans_malicious = scan_malicious d
apply d scans_failed = scan_failed d
apply d archives = archive d
apply d (finalizes key) = finalize_uploaded d key

-- A status in which a document may be archived.
abbrev pub IsTerminal : DocumentUploadStatus → Type 0
IsTerminal s = (s ≡ uploaded) ⊎ ((s ≡ contains_virus) ⊎ (s ≡ failed_upload))

-- The status from which a call moves a document on.
abbrev pub Waits : Call → DocumentUploadStatus → Type 0
Waits scans_clean s = s ≡ pending_upload
Waits scans_malicious s = s ≡ pending_upload
Waits scans_failed s = s ≡ pending_upload
Waits archives s = IsTerminal s
Waits (finalizes _) s = s ≡ finalizing

-- The arrow of each call, with the event that it publishes.
pub data Step (c : Call) (d v : Document) (event : Option DocumentEvent) : Type 0 where
  clean :
      c ≡ scans_clean
      → d.archived ≡ false
      → d.upload_status ≡ pending_upload
      → v ≡ record d { upload_status = finalizing }
      → event ≡ some (finalization_requested d.identity d.object_key)
      → Step c d v event
  malicious :
      c ≡ scans_malicious
      → d.archived ≡ false
      → d.upload_status ≡ pending_upload
      → v ≡ record d { upload_status = contains_virus }
      → event ≡ none
      → Step c d v event
  unscannable :
      c ≡ scans_failed
      → d.archived ≡ false
      → d.upload_status ≡ pending_upload
      → v ≡ record d { upload_status = failed_upload }
      → event ≡ none
      → Step c d v event
  stored :
      (key : Text)
      → c ≡ finalizes key
      → d.archived ≡ false
      → d.upload_status ≡ finalizing
      → v ≡ record d { upload_status = uploaded; object_key = key }
      → event ≡ none
      → Step c d v event
  retired :
      c ≡ archives
      → d.archived ≡ false
      → IsTerminal d.upload_status
      → v ≡ record d { archived = true }
      → event ≡ none
      → Step c d v event

-- A call that finds the document archived, or in another status.
abbrev pub IsBlocked : Call → Document → Type 0
IsBlocked c d = (d.archived ≡ true) ⊎ ¬ Waits c d.upload_status

-- What a call did: its step, reported as a change; or, where it is blocked, nothing, reported as none.
abbrev pub Did : Call → Document → Document × DocumentTransition → Type 0
Did c d (v, t) =
    (Step c d v t.event × (changed t ≡ true))
    ⊎ ((v ≡ d) × (t.event ≡ none) × (changed t ≡ false) × IsBlocked c d)

status_eq_iff : (s t : DocumentUploadStatus) → (status_eq s t ≡ true) ↔ (s ≡ t)
status_eq_iff s t = (λ h. ground arith, λ h. ground arith)

guarded-status :
    (d : Document) (expected : DocumentUploadStatus)
    → (d.archived || not (status_eq d.upload_status expected)) ≡ false
    → (d.archived ≡ false) × (d.upload_status ≡ expected)
guarded-status d expected h = ground arith

refused-status :
    (d : Document) (expected : DocumentUploadStatus)
    → (d.archived || not (status_eq d.upload_status expected)) ≡ true
    → (d.archived ≡ true) ⊎ ¬ (d.upload_status ≡ expected)
refused-status d expected h = elim (Bool-cases d.archived) [
  | inl old ↦ inl old
  | inr live ↦ inr (λ e. ground (arith, (status_eq_iff d.upload_status expected).1 e))
]

transition-Did :
    (c : Call) (d : Document) (expected next : DocumentUploadStatus) (event : Option DocumentEvent)
    → Waits c d.upload_status ≡ (d.upload_status ≡ expected)
    → (d.archived ≡ false
        → d.upload_status ≡ expected
        → Step c d (record d { upload_status = next }) event)
    → Did c d (transition d expected next event)
unfolding transition changed
transition-Did c d expected next event w k =
    elim (Bool-cases (d.archived || not (status_eq d.upload_status expected))) [
      | inl refused ↦
          let blocked : IsBlocked c d =
            subst (λ P. (d.archived ≡ true) ⊎ ¬ P) (sym w) (refused-status d expected refused) in
          rw refused (inr (refl, refl, refl, blocked))
      | inr free ↦ let (h, s) = guarded-status d expected free in rw free (inl (k h s, refl))
    ]

finalize_uploaded-Did :
    (d : Document) (key : Text) → Did (finalizes key) d (finalize_uploaded d key)
unfolding finalize_uploaded changed
finalize_uploaded-Did d key =
    elim (Bool-cases (d.archived || not (status_eq d.upload_status finalizing))) [
      | inl refused ↦
          let blocked = refused-status d finalizing refused in
          rw refused (inr (refl, refl, refl, blocked))
      | inr free ↦
          let (h, s) = guarded-status d finalizing free in
          rw free (inl (stored key refl h s refl refl, refl))
    ]

settled_iff : (s : DocumentUploadStatus) → (is_settled s ≡ true) ↔ IsTerminal s
settled_iff pending_upload = (λ h. ground arith, λ h. ground arith)
settled_iff finalizing = (λ h. ground arith, λ h. ground arith)
settled_iff uploaded = (λ h. inl refl, λ h. refl)
settled_iff contains_virus = (λ h. inr (inl refl), λ h. refl)
settled_iff failed_upload = (λ h. inr (inr refl), λ h. refl)

archive-Did : (d : Document) → Did archives d (archive d)
unfolding archive changed
archive-Did d = elim (Bool-cases d.archived) [
  | inl old ↦ simp old (inr (refl, refl, refl, inl refl))
  | inr live ↦ elim (Bool-cases (is_settled d.upload_status)) [
    | inl settled ↦
        let done = (settled_iff d.upload_status).0 settled in
        simp (live, settled) (inl (retired refl live done refl refl, refl))
    | inr busy ↦
        let waits : ¬ IsTerminal d.upload_status =
          λ t. ground (arith, (settled_iff d.upload_status).1 t) in
        simp (live, busy) (inr (refl, refl, refl, inr waits))
  ]
]

-- On a document that is not archived and in a status that the call waits for, each of the five
-- calls takes its own arrow of the lifecycle, a finalization with the given key, publishes the
-- event of that arrow and reports a change; on any other document it leaves the document as it is,
-- publishes nothing and reports no change.
pub apply-Did : (d : Document) (c : Call) → Did c d (apply d c)
unfolding apply
apply-Did d scans_clean =
    transition-Did scans_clean d pending_upload finalizing _ refl λ h s. clean refl h s refl refl
apply-Did d scans_malicious =
    transition-Did scans_malicious d pending_upload contains_virus _ refl
      λ h s. malicious refl h s refl refl
apply-Did d scans_failed =
    transition-Did scans_failed d pending_upload failed_upload _ refl
      λ h s. unscannable refl h s refl refl
apply-Did d archives = archive-Did d
apply-Did d (finalizes key) = finalize_uploaded-Did d key
