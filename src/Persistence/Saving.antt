-- ===== src/Persistence/Saving.antt =====
-- What a saved document leaves in the store.
use proofplane.Prelude.{
  ◌≡◌, refl, sym, subst, ◌∙◌, inl, inr, Bool, true, some, List, [], ◌∷◌, arith, ◌==◌, Bool-cases,
  some-injective, any, Result, ok, err, ok-injective,
}
use proofplane.Domain.Document.Types.{Document, document_id, DocumentOwner}
use proofplane.Domain.Ids.{DocumentId}
use proofplane.Outbox.Rows.{PersistenceError, database}
use proofplane.Persistence.Database.{
  find, save_document, is_document, get_document, upsert, Database, document_conflicts,
}

-- A saved entry is found again by a test that looks at its key.
pub find-upsert {ℓ} :
    {A : Type ℓ} (same p : A → Bool) (a : A) (xs : List A)
    → p a ≡ true
    → ((x : A) → p x ≡ true → same x ≡ true)
    → find p (upsert same a xs) ≡ some a
find-upsert same p a [] h k = rw h refl
find-upsert same p a (x ∷ xs) h k = elim (Bool-cases (same x)) [
  | inl hit ↦ rw (hit, h) refl
  | inr miss ↦ elim (Bool-cases (p x)) [
    | inl found ↦ ground (arith, k x found)
    | inr other ↦ rw (miss, other) (find-upsert same p a xs h k)
  ]
]

pub find-meets {ℓ} :
    {A : Type ℓ} (p : A → Bool) (xs : List A) (a : A) → find p xs ≡ some a → p a ≡ true
find-meets p [] a h = ground arith
find-meets p (x ∷ xs) a h = elim (Bool-cases (p x)) [
  | inl here ↦ subst (λ y. p y ≡ true) (some-injective x a (sym (rw here refl) ∙ h)) here
  | inr later ↦ find-meets p xs a (sym (rw later refl) ∙ h)
]

is_document-id :
    (id : DocumentId) (owner : DocumentOwner) (d e : Document)
    → is_document id owner d ≡ true
    → is_document id owner e ≡ true
    → (document_id d.identity == document_id e.identity) ≡ true
unfolding is_document
is_document-id id owner d e h k = ground arith

module _ {Value : Type 0} where
  abbrev pub with_document : Document → Database Value → Database Value
  with_document d db = record db {
    documents = upsert (λ e. document_id d.identity == document_id e.identity) d db.documents;
  }

  pub save_document-ok :
      (d : Document) (db saved : Database Value)
      → save_document d db ≡ ok saved
      → saved ≡ with_document d db
  unfolding save_document
  save_document-ok d db saved h = elim (Bool-cases (any (document_conflicts d) db.documents)) [
    | inl broken ↦ absurd_saved saved (sym (rw broken refl) ∙ h)
    | inr works ↦ sym (ok-injective (with_document d db) saved (sym (rw works refl) ∙ h))
  ]
    where
      absurd_saved :
          (saved : Database Value)
          → ◌≡◌ {A = Result (Database Value) PersistenceError} (err database) (ok saved)
          → saved ≡ with_document d db
      absurd_saved saved h = ground arith

  pub get_document-with_document :
      (id : DocumentId) (owner : DocumentOwner) (d : Document) (db : Database Value)
      → is_document id owner d ≡ true
      → get_document id owner (with_document d db) ≡ some d
  unfolding get_document
  get_document-with_document id owner d db h =
      find-upsert _ (is_document id owner) d db.documents h (λ e. is_document-id id owner d e h)

  pub get_document-is_document :
      (id : DocumentId) (owner : DocumentOwner) (d : Document) (db : Database Value)
      → get_document id owner db ≡ some d
      → is_document id owner d ≡ true
  unfolding get_document
  get_document-is_document id owner d db h = find-meets (is_document id owner) db.documents d h
