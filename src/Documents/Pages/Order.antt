-- ===== src/Documents/Pages/Order.antt =====
-- The order of one query of listUserDocumentsWithRole, whatever the database chooses for ties.
use meridian_backend.Prelude.{
  ℕ, suc, ◌≤◌, Bool, true, false, List, [], ◌∷◌, length, select_where, ◌≡◌, ◌≢◌, refl, ap, ◌∙◌, All,
  All-imp, inl, inr, Bool-cases, arith,
}
use meridian_backend.Documents.Pages.{DocumentWithRole, goes_first, insert_newest, newest_first}

-- No row before a newer one.
abbrev pub AreNewestFirst : List DocumentWithRole → Type 0
AreNewestFirst [] = Unit
AreNewestFirst (row ∷ rows) =
    All (λ next. next.document.updated_at ≤ row.document.updated_at) rows × AreNewestFirst rows

module _ (tie : DocumentWithRole → ℕ) where
  goes_first-newer :
      (a b : DocumentWithRole)
      → goes_first tie a b ≡ true
      → b.document.updated_at ≤ a.document.updated_at
  goes_first-newer a b h = ground arith

  goes_second-older :
      (a b : DocumentWithRole)
      → goes_first tie a b ≡ false
      → a.document.updated_at ≤ b.document.updated_at
  goes_second-older a b h = ground arith

  All-insert_newest :
      (P : DocumentWithRole → Type 0) (row : DocumentWithRole) (rows : List DocumentWithRole)
      → P row
      → All P rows
      → All P (insert_newest tie row rows)
  All-insert_newest P row [] p h = (p, tt)
  All-insert_newest P row (next ∷ rows) p (q, h) = elim (Bool-cases (goes_first tie row next)) [
    | inl first ↦ rw first (p, (q, h))
    | inr later ↦ rw later (q, All-insert_newest P row rows p h)
  ]

  All-newest_first :
      (P : DocumentWithRole → Type 0) (rows : List DocumentWithRole)
      → All P rows
      → All P (newest_first tie rows)
  All-newest_first P [] h = tt
  All-newest_first P (row ∷ rows) (p, h) =
      All-insert_newest P row (newest_first tie rows) p (All-newest_first P rows h)

  insert_newest-AreNewestFirst :
      (row : DocumentWithRole) (rows : List DocumentWithRole)
      → AreNewestFirst rows
      → AreNewestFirst (insert_newest tie row rows)
  insert_newest-AreNewestFirst row [] h = (tt, tt)
  insert_newest-AreNewestFirst row (next ∷ rows) (below, h) =
      elim (Bool-cases (goes_first tie row next)) [
        | inl first ↦
            let newer = goes_first-newer row next first in
            rw first (
              (
                newer,
                All-imp (λ r. r.document.updated_at ≤ next.document.updated_at)
                    (λ r. r.document.updated_at ≤ row.document.updated_at)
                    (λ r le. omega (arith, newer, le)) rows below,
              ),
              (below, h),
            )
        | inr later ↦ rw later (
          All-insert_newest (λ r. r.document.updated_at ≤ next.document.updated_at) row rows
              (goes_second-older row next later) below,
          insert_newest-AreNewestFirst row rows h,
        )
      ]

  pub newest_first-AreNewestFirst :
      (rows : List DocumentWithRole) → AreNewestFirst (newest_first tie rows)
  newest_first-AreNewestFirst [] = tt
  newest_first-AreNewestFirst (row ∷ rows) =
      insert_newest-AreNewestFirst row (newest_first tie rows) (newest_first-AreNewestFirst rows)

  module _ (p : DocumentWithRole → Bool) where
    count-insert_newest :
        (row : DocumentWithRole) (rows : List DocumentWithRole)
        → length (select_where p (insert_newest tie row rows))
          ≡ length (select_where p (row ∷ rows))
    count-insert_newest row [] = refl
    count-insert_newest row (next ∷ rows) = elim (Bool-cases (goes_first tie row next)) [
      | inl first ↦ rw first refl
      | inr later ↦ rw later (ground (arith, count-insert_newest row rows))
    ]

    pub count-newest_first :
        (rows : List DocumentWithRole)
        → length (select_where p (newest_first tie rows)) ≡ length (select_where p rows)
    count-newest_first [] = refl
    count-newest_first (row ∷ rows) =
        ground (arith, count-insert_newest row (newest_first tie rows), count-newest_first rows)

  insert_newest-length :
      (row : DocumentWithRole) (rows : List DocumentWithRole)
      → length (insert_newest tie row rows) ≡ suc (length rows)
  insert_newest-length row [] = refl
  insert_newest-length row (next ∷ rows) = elim (Bool-cases (goes_first tie row next)) [
    | inl first ↦ rw first refl
    | inr later ↦ rw later (ap suc (insert_newest-length row rows))
  ]

  pub newest_first-length :
      (rows : List DocumentWithRole) → length (newest_first tie rows) ≡ length rows
  newest_first-length [] = refl
  newest_first-length (row ∷ rows) =
      insert_newest-length row (newest_first tie rows) ∙ ap suc (newest_first-length rows)

-- No two rows have the same instant.
abbrev pub AreDistinct : List DocumentWithRole → Type 0
AreDistinct [] = Unit
AreDistinct (row ∷ rows) =
    All (λ next. row.document.updated_at ≢ next.document.updated_at) rows × AreDistinct rows

module _ (tie tie' : DocumentWithRole → ℕ) where
  goes_first-same :
      (a b : DocumentWithRole)
      → a.document.updated_at ≢ b.document.updated_at
      → goes_first tie a b ≡ goes_first tie' a b
  goes_first-same a b apart = ground arith

  insert_newest-same :
      (row : DocumentWithRole) (rows : List DocumentWithRole)
      → All (λ next. row.document.updated_at ≢ next.document.updated_at) rows
      → insert_newest tie row rows ≡ insert_newest tie' row rows
  insert_newest-same row [] h = refl
  insert_newest-same row (next ∷ rows) (apart, h) =
      rw (goes_first-same row next apart, insert_newest-same row rows h) refl

  -- Rows that are distinct have one order.
  pub newest_first-same :
      (rows : List DocumentWithRole)
      → AreDistinct rows
      → newest_first tie rows ≡ newest_first tie' rows
  newest_first-same [] h = refl
  newest_first-same (row ∷ rows) (apart, h) =
      insert_newest-same row (newest_first tie rows) (
        All-newest_first tie (λ next. row.document.updated_at ≢ next.document.updated_at) rows
          apart)
      ∙ ap (insert_newest tie' row) (newest_first-same rows h)
