-- ===== src/Domain/Document/History.antt =====
-- Any history of calls on one document: what never changes, what is final, and which events are
-- published.
use proofplane.Prelude.{
  ◌≡◌, refl, sym, subst, ◌∙◌, ◌⊎◌, inl, inr, Bool, true, false, not, ◌&&◌, Option, none, some, List,
  [], ◌∷◌, ◌++◌, arith, Bool-cases,
}
use proofplane.Domain.Document.Lifecycle.{status_eq}
use proofplane.Domain.Document.Machine.{
  clean, malicious, unscannable, stored, retired, apply, Call, Step, apply-Did,
}
use proofplane.Domain.Document.Types.{
  uploaded, contains_virus, failed_upload, DocumentEvent, Document, DocumentUploadStatus,
  pending_upload, finalization_requested,
}

unfoldable pub run : Document → List Call → Document
unfolding apply
run d [] = d
run d (c ∷ cs) = run (apply d c).0 cs

abbrev pub published : Option DocumentEvent → List DocumentEvent
published none = []
published (some e) = e ∷ []

-- The events of a history, in order.
unfoldable pub events : Document → List Call → List DocumentEvent
unfolding apply
events d [] = []
events d (c ∷ cs) = published (apply d c).1.event ++ events (apply d c).0 cs

-- The stored object itself, as opposed to its key and its status.
pub record SameFile (d v : Document) : Type 0 where
  pub identity : v.identity ≡ d.identity
  pub workspace : v.workspace_id ≡ d.workspace_id
  pub creator : v.created_by_user_id ≡ d.created_by_user_id
  pub filename : v.filename ≡ d.filename
  pub content_type : v.content_type ≡ d.content_type
  pub content_length : v.content_length ≡ d.content_length
  pub sha256 : v.checksum_sha256 ≡ d.checksum_sha256
  pub crc32c : v.checksum_crc32c ≡ d.checksum_crc32c

-- Statuses of which a scan has found that the content may not be served.
abbrev pub is_condemned : DocumentUploadStatus → Bool
is_condemned s = elim s [ contains_virus ↦ true | failed_upload ↦ true | _ ↦ false ]

-- What every step keeps.
pub record Kept (d v : Document) : Type 0 where
  pub same_file : SameFile d v
  pub condemned : is_condemned d.upload_status ≡ true → v.upload_status ≡ d.upload_status
  pub archive_final : d.archived ≡ true → v ≡ d
  pub upload_final :
      d.upload_status ≡ uploaded → (v.upload_status ≡ uploaded) × (v.object_key ≡ d.object_key)

Step-Kept : (c : Call) (d v : Document) (e : Option DocumentEvent) → Step c d v e → Kept d v
Step-Kept c d v e (clean k h s q _) = ground arith
Step-Kept c d v e (malicious k h s q _) = ground arith
Step-Kept c d v e (unscannable k h s q _) = ground arith
Step-Kept c d v e (stored key k h s q _) = ground arith
Step-Kept c d v e (retired k h s q _) = ground arith

same : (d : Document) → Kept d d
same d = record {
  same_file = record {
    identity = refl;
    workspace = refl;
    creator = refl;
    filename = refl;
    content_type = refl;
    content_length = refl;
    sha256 = refl;
    crc32c = refl;
  };
  condemned = λ _. refl;
  archive_final = λ _. refl;
  upload_final = λ h. (h, refl);
}

apply-Kept : (d : Document) (c : Call) → Kept d (apply d c).0
apply-Kept d c = elim (apply-Did d c) [
  | inl (step, _) ↦ Step-Kept c d _ _ step
  | inr (e, _, _, _) ↦ subst (Kept d) (sym e) (same d)
]

Kept-trans : (d v w : Document) → Kept d v → Kept v w → Kept d w
Kept-trans d v w k l = record {
  same_file = ground arith;
  condemned = λ h. ground (arith, k.condemned h, l.condemned);
  archive_final = λ h. l.archive_final (ground (arith, k.archive_final h)) ∙ k.archive_final h;
  upload_final = λ h. ground (arith, k.upload_final h, l.upload_final);
}

run-Kept : (d : Document) (cs : List Call) → Kept d (run d cs)
unfolding run
run-Kept d [] = same d
run-Kept d (c ∷ cs) = Kept-trans d (apply d c).0 _ (apply-Kept d c) (run-Kept (apply d c).0 cs)

-- If a document is marked as containing a virus or as failed, any calls leave its status, and its
-- identity, workspace, creator, name, type, length and checksums, as they are.
pub run_condemned :
    (d : Document) (cs : List Call)
    → is_condemned d.upload_status ≡ true
    → SameFile d (run d cs) × ((run d cs).upload_status ≡ d.upload_status)
run_condemned d cs h = let k = run-Kept d cs in (k.same_file, k.condemned h)

-- If a document is uploaded, any calls leave its status, its object key, and its identity,
-- workspace, creator, name, type, length and checksums, as they are.
pub run_uploaded :
    (d : Document) (cs : List Call)
    → d.upload_status ≡ uploaded
    → SameFile d (run d cs)
      × ((run d cs).upload_status ≡ uploaded)
      × ((run d cs).object_key ≡ d.object_key)
run_uploaded d cs h = let k = run-Kept d cs in let (s, o) = k.upload_final h in (k.same_file, s, o)

-- Still to be scanned.
abbrev pub is_waiting : Document → Bool
is_waiting d = not d.archived && status_eq d.upload_status pending_upload

Step-quiet :
    (c : Call) (d v : Document) (e : Option DocumentEvent)
    → Step c d v e
    → is_waiting d ≡ false
    → (e ≡ none) × (is_waiting v ≡ false)
Step-quiet c d v e (clean k h s q p) w = ground arith
Step-quiet c d v e (malicious k h s q p) w = ground arith
Step-quiet c d v e (unscannable k h s q p) w = ground arith
Step-quiet c d v e (stored key k h s q p) w = ground arith
Step-quiet c d v e (retired k h s q p) w = ground arith

apply-quiet :
    (d : Document) (c : Call)
    → is_waiting d ≡ false
    → ((apply d c).1.event ≡ none) × (is_waiting (apply d c).0 ≡ false)
apply-quiet d c w = elim (apply-Did d c) [
  | inl (step, _) ↦ Step-quiet c d _ _ step w
  | inr (e, n, _, _) ↦ (n, rw e w)
]

events-quiet : (d : Document) (cs : List Call) → is_waiting d ≡ false → events d cs ≡ []
unfolding events
events-quiet d [] w = refl
events-quiet d (c ∷ cs) w =
    let (n, w') = apply-quiet d c w in rw (n, events-quiet (apply d c).0 cs w')

-- The first step out of waiting.
Step-waiting :
    (c : Call) (d v : Document) (e : Option DocumentEvent)
    → Step c d v e
    → is_waiting d ≡ true
    → (is_waiting v ≡ false)
      × ((e ≡ none) ⊎ (e ≡ some (finalization_requested d.identity d.object_key)))
Step-waiting c d v e (clean k h s q p) w = (ground arith, inr p)
Step-waiting c d v e (malicious k h s q p) w = (ground arith, inl p)
Step-waiting c d v e (unscannable k h s q p) w = (ground arith, inl p)
Step-waiting c d v e (stored key k h s q p) w = ground arith
Step-waiting c d v e (retired k h s q p) w = ground arith

-- A history publishes nothing, or one request to finalize the staged object.
abbrev pub OnceAtMost : Document → List DocumentEvent → Type 0
OnceAtMost d es = (es ≡ []) ⊎ (es ≡ finalization_requested d.identity d.object_key ∷ [])

-- Whatever scans, finalizations and archivals are called on a document, and however often, they
-- publish no event at all, or one request to finalize the object key that the document had at the
-- start.
pub events-OnceAtMost : (d : Document) (cs : List Call) → OnceAtMost d (events d cs)
unfolding events
events-OnceAtMost d [] = inl refl
events-OnceAtMost d (c ∷ cs) = elim (Bool-cases (is_waiting d)) [
  | inr w ↦ inl (let (n, w') = apply-quiet d c w in rw (n, events-quiet (apply d c).0 cs w'))
  | inl w ↦ elim (apply-Did d c) [
    | inr (e, n, _, _) ↦
        rw n (subst (λ (v : Document). OnceAtMost d (events v cs)) (sym e) (events-OnceAtMost d cs))
    | inl (step, _) ↦
        let (w', p) = Step-waiting c d _ _ step w in
        elim p [
          | inl n ↦ inl (rw (n, events-quiet (apply d c).0 cs w'))
          | inr y ↦ inr (rw (y, events-quiet (apply d c).0 cs w'))
        ]
  ]
]
