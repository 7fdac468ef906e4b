-- ===== src/Documents/Pages/Cover.antt =====
-- The pages of listUserDocumentsWithRole one after the other.
use native.Mathlib.Nat.{lt-div-mul-add}
use native.Mathlib.Numerals.{unary_clauses}
use meridian_backend.Prelude.{
  ℕ, zero, suc, ◌+◌, ◌-◌, ◌*◌, ◌≤◌, Bool, List, [], ◌∷◌, ◌++◌, length, select_where, ◌≡◌, refl, sym,
  ap, ◌∙◌, arith,
}
use meridian_backend.Schema.{Database}
use meridian_backend.Documents.Pages.{
  DocumentWithRole, newest_first, limit_to, offset_by, ceil_div, user_documents,
  list_user_documents_with_role,
}
use meridian_backend.Documents.Pages.Order.{
  AreNewestFirst, AreDistinct, newest_first-AreNewestFirst, count-newest_first, newest_first-length,
  newest_first-same,
}

suc_plus : (a b : ℕ) → suc a + b ≡ suc (a + b)
suc_plus a b = omega arith

module _ {ℓ} {A : Type ℓ} where
  offset_by-offset_by :
      (a b : ℕ) (rows : List A) → offset_by b (offset_by a rows) ≡ offset_by (a + b) rows
  offset_by-offset_by zero b rows = let same : 0 + b ≡ b = omega arith in rw same refl
  offset_by-offset_by (suc a) zero [] = simp unary_clauses refl
  offset_by-offset_by (suc a) (suc b) [] = simp unary_clauses refl
  offset_by-offset_by (suc a) b (row ∷ rows) = rw (suc_plus a b) (offset_by-offset_by a b rows)

  limit_to-append :
      (a b : ℕ) (rows : List A)
      → limit_to a rows ++ limit_to b (offset_by a rows) ≡ limit_to (a + b) rows
  limit_to-append zero b rows = let same : 0 + b ≡ b = omega arith in rw same refl
  limit_to-append (suc a) zero [] = simp unary_clauses refl
  limit_to-append (suc a) (suc b) [] = simp unary_clauses refl
  limit_to-append (suc a) b (row ∷ rows) =
      rw (suc_plus a b) (ap (◌∷◌ row) (limit_to-append a b rows))

  limit_to-all : (n : ℕ) (rows : List A) → length rows ≤ n → limit_to n rows ≡ rows
  limit_to-all zero [] h = refl
  limit_to-all (suc n) [] h = refl
  limit_to-all zero (row ∷ rows) h = ground arith
  limit_to-all (suc n) (row ∷ rows) h = ap (◌∷◌ row) (limit_to-all n rows (omega (arith, h)))

  limit_to-length : (n : ℕ) (rows : List A) → length (limit_to n rows) ≤ n
  limit_to-length zero rows = omega arith
  limit_to-length (suc n) [] = omega arith
  limit_to-length (suc n) (row ∷ rows) = omega (arith, limit_to-length n rows)

-- So many pages, from one on, each with the choices of its own query.
abbrev pub pages :
    (ties : ℕ → DocumentWithRole → ℕ) → ℕ → ℕ → Database → (count from : ℕ) → List DocumentWithRole
pages ties user_id limit db zero from = []
pages ties user_id limit db (suc count) from =
    (list_user_documents_with_role (ties from) user_id from limit db).data_
    ++ pages ties user_id limit db count (from + 1)

expand : (k limit : ℕ) → (k + 1) * limit ≡ k * limit + limit
expand k limit = omega arith

expand_suc : (k limit : ℕ) → suc k * limit ≡ limit + k * limit
expand_suc k limit = omega arith

one_page :
    {A : Type 0} (limit count k : ℕ) (rows : List A)
    → limit_to limit (offset_by ((k + 1 - 1) * limit) rows)
        ++ limit_to (count * limit) (offset_by ((k + 1) * limit) rows)
      ≡ limit_to (suc count * limit) (offset_by (k * limit) rows)
one_page limit count k rows =
    let here : k + 1 - 1 ≡ k = omega arith in
    rw
      (
        here,
        expand k limit,
        expand_suc count limit,
        sym (offset_by-offset_by (k * limit) limit rows),
      )
      (limit_to-append limit (count * limit) (offset_by (k * limit) rows))

ceil_div-covers : (total limit : ℕ) → 1 ≤ limit → total ≤ ceil_div total limit * limit
ceil_div-covers total limit some_rows =
    omega (arith, some_rows, lt-div-mul-add {a = total + (limit - 1)} {b = limit} some_rows)

module _ (ties : ℕ → DocumentWithRole → ℕ) (tie : DocumentWithRole → ℕ) (user_id limit : ℕ)
    (db : Database) where
  pages-limit_to :
      (count k : ℕ)
      → AreDistinct (user_documents user_id db)
      → pages ties user_id limit db count (k + 1)
        ≡ limit_to
            (count * limit)
            (offset_by (k * limit) (newest_first tie (user_documents user_id db)))
  unfolding list_user_documents_with_role
  pages-limit_to zero k apart = let nothing : 0 * limit ≡ 0 = omega arith in rw nothing refl
  pages-limit_to (suc count) k apart =
      rw
        (
          pages-limit_to count (k + 1) apart,
          newest_first-same (ties (k + 1)) tie (user_documents user_id db) apart,
        )
        (one_page limit count k (newest_first tie (user_documents user_id db)))

  page-length :
      (page : ℕ) → length (list_user_documents_with_role tie user_id page limit db).data_ ≤ limit
  unfolding list_user_documents_with_role
  page-length page =
      limit_to-length limit
        (offset_by ((page - 1) * limit) (newest_first tie (user_documents user_id db)))

  -- The pages that the answer announces are the sorted rows.
  whole_list :
      (page : ℕ)
      → AreDistinct (user_documents user_id db)
      → 1 ≤ limit
      → pages ties user_id limit db
          (list_user_documents_with_role tie user_id page limit db).meta.total_pages
          1
        ≡ newest_first tie (user_documents user_id db)
  unfolding list_user_documents_with_role
  whole_list page apart some_rows =
      let rows = newest_first tie (user_documents user_id db) in
      let count = ceil_div (length (user_documents user_id db)) limit in
      let enough : length rows ≤ count * limit = omega (
        arith,
        newest_first-length tie (user_documents user_id db),
        ceil_div-covers (length (user_documents user_id db)) limit some_rows,
      ) in
      let nothing : 0 * limit ≡ 0 = omega arith in
      pages-limit_to count 0 apart ∙ rw nothing (limit_to-all (count * limit) rows enough)

  -- Where no two of the user's documents were updated at the same instant and the limit is at least
  -- one, whatever order each query would give to equal instants: the pages from the first one to the
  -- last one that an answer announces are together newest first, they have as many rows with any
  -- given property as the join of the user's memberships with the documents that are not deleted,
  -- and no page has more rows than the limit.
  pub list_user_documents_with_role-pages :
      (page : ℕ) (p : DocumentWithRole → Bool)
      → AreDistinct (user_documents user_id db)
      → 1 ≤ limit
      → AreNewestFirst (
          pages ties user_id limit db
            (list_user_documents_with_role tie user_id page limit db).meta.total_pages
            1)
        × (length (
              select_where p (
                pages ties user_id limit db
                  (list_user_documents_with_role tie user_id page limit db).meta.total_pages
                  1))
            ≡ length (select_where p (user_documents user_id db)))
        × (length (list_user_documents_with_role tie user_id page limit db).data_ ≤ limit)
  list_user_documents_with_role-pages page p apart some_rows =
      rw (whole_list page apart some_rows) (
        newest_first-AreNewestFirst tie (user_documents user_id db),
        count-newest_first tie p (user_documents user_id db),
        page-length page,
      )
