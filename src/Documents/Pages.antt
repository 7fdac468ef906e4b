-- ===== src/Documents/Pages.antt =====
-- listUserDocumentsWithRole of src/documents/documents.service.ts: the pages of a user's documents.
-- The query orders by `updatedAt` alone, so the database chooses the order of rows of the same
-- instant, for each query anew: `tie` is its choice for one query, a number for each row.
pub mod Order
pub mod Cover
mod Tests
use meridian_backend.Prelude.{
  ℕ, zero, suc, ◌+◌, ◌-◌, ◌*◌, ◌/◌, Bool, not, List, [], ◌∷◌, ◌++◌, map, length, select_where, leb,
  if◌then◌else◌, ◌==◌, ◌&&◌,
}
use meridian_backend.Schema.{Role, Document, Membership, Database}
use meridian_backend.Documents.Guards.{is_deleted}

pub record DocumentWithRole : Type 0 where
  pub document : Document
  pub role : Role

-- `innerJoin` on `memberships.documentId = documents.id`, with the filter `membershipFilter`.
abbrev pub joined_with : Membership → List Document → List DocumentWithRole
joined_with m documents =
    map (λ d. record { document = d; role = m.role })
      (select_where (λ d. m.document_id == d.id && not (is_deleted d.status)) documents)

abbrev pub joined : ℕ → List Membership → List Document → List DocumentWithRole
joined user_id [] documents = []
joined user_id (m ∷ ms) documents =
    let rest = joined user_id ms documents in
    if m.user_id == user_id then joined_with m documents ++ rest else rest

-- `orderBy(desc(schema.documents.updatedAt))`
abbrev pub goes_first : (DocumentWithRole → ℕ) → DocumentWithRole → DocumentWithRole → Bool
goes_first tie a b =
    if a.document.updated_at == b.document.updated_at
    then leb (tie a) (tie b)
    else leb b.document.updated_at a.document.updated_at

abbrev pub insert_newest :
    (DocumentWithRole → ℕ) → DocumentWithRole → List DocumentWithRole → List DocumentWithRole
insert_newest tie row [] = row ∷ []
insert_newest tie row (next ∷ rows) =
    let rest = insert_newest tie row rows in
    if goes_first tie row next then row ∷ next ∷ rows else next ∷ rest

abbrev pub newest_first : (DocumentWithRole → ℕ) → List DocumentWithRole → List DocumentWithRole
newest_first tie [] = []
newest_first tie (row ∷ rows) = insert_newest tie row (newest_first tie rows)

module _ {ℓ} {A : Type ℓ} where
  -- `.limit(n)` and `.offset(n)`
  abbrev pub limit_to : ℕ → List A → List A
  limit_to zero rows = []
  limit_to (suc n) [] = []
  limit_to (suc n) (row ∷ rows) = row ∷ limit_to n rows

  abbrev pub offset_by : ℕ → List A → List A
  offset_by zero rows = rows
  offset_by (suc n) [] = []
  offset_by (suc n) (row ∷ rows) = offset_by n rows

pub record PageMeta : Type 0 where
  pub page : ℕ
  pub limit : ℕ
  pub total : ℕ
  pub total_pages : ℕ

pub record Page : Type 0 where
  pub data_ : List DocumentWithRole
  pub meta : PageMeta

-- `Math.ceil(total / limit)`, for a limit of at least one, which the route asks for.
abbrev pub ceil_div : ℕ → ℕ → ℕ
ceil_div total limit = (total + (limit - 1)) / limit

abbrev pub user_documents : ℕ → Database → List DocumentWithRole
user_documents user_id db = joined user_id db.memberships db.documents

unfoldable pub list_user_documents_with_role :
    (tie : DocumentWithRole → ℕ) → ℕ → (page limit : ℕ) → Database → Page
list_user_documents_with_role tie user_id page limit db =
    let total = length (user_documents user_id db) in
    let sorted = newest_first tie (user_documents user_id db) in
    record {
      data_ = limit_to limit (offset_by ((page - 1) * limit) sorted);
      meta = record {
        page = page;
        limit = limit;
        total = total;
        total_pages = ceil_div total limit;
      };
    }
