-- ===== src/Documents/Creators.antt =====
-- What the operations of src/documents/documents.service.ts do to the creators of the documents.
use mathlib.Core.Option
use meridian_backend.Prelude.{
  ℕ, Option, none, some, List, [], ◌∷◌, ◌++◌, ◌≡◌, refl, arith, if◌then◌else◌, ◌==◌, find_where,
  update_where,
}
use meridian_backend.Schema.{Document, Database}
use meridian_backend.Memberships.{has_document_id}
use meridian_backend.Documents.{update_document}
use meridian_backend.Documents.Guards.{creator_of}

abbrev creator_in : ℕ → List Document → Option ℕ
creator_in id ds = Option.map (λ c. c.created_by) (find_where (has_document_id id) ds)

creator_in-append :
    (id : ℕ) (d : Document) (ds : List Document)
    → creator_in d.id ds ≡ none
    → creator_in id (ds ++ d ∷ []) ≡ (if d.id == id then some d.created_by else creator_in id ds)
creator_in-append id d [] h = ground arith
creator_in-append id d (x ∷ ds) h = ground (arith, creator_in-append id d ds)

-- A document with a new id adds its creator.
pub creator_of-append :
    (id : ℕ) (d : Document) (db : Database)
    → creator_of db d.id ≡ none
    → creator_of (record db { documents = db.documents ++ d ∷ [] }) id
      ≡ (if d.id == id then some d.created_by else creator_of db id)
creator_of-append id d db h = creator_in-append id d db.documents h

module _ (f : Document → Document) (keep_id : (d : Document) → (f d).id ≡ d.id)
    (keep_creator : (d : Document) → (f d).created_by ≡ d.created_by) where
  creator_in-update_where :
      (id target : ℕ) (ds : List Document)
      → creator_in id (update_where (has_document_id target) f ds) ≡ creator_in id ds
  creator_in-update_where id target [] = refl
  creator_in-update_where id target (x ∷ ds) =
      ground (arith, keep_id x, keep_creator x, creator_in-update_where id target ds)

  -- An update that keeps ids and creators changes no creator.
  pub creator_of-update_document :
      (id target : ℕ) (db : Database)
      → creator_of (update_document f target db) id ≡ creator_of db id
  creator_of-update_document id target db = creator_in-update_where id target db.documents
