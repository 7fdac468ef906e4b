-- ===== src/Prelude/Sorting.antt =====
-- `orderBy(asc(…))`: a stable insertion sort by a numeric key, and how it meets `where`.
use Prim.Native.Nat.{ℕ, ◌≤◌, ◌<◌}
use mathlib.Core.Path.{◌≡◌, refl}
use mathlib.Core.Logic.{inl, inr}
use mathlib.Core.Bool.{Bool}
use mathlib.Core.List.{List, [], ◌∷◌, ◌++◌}
use native.Mathlib.Omega.{arith}
use meridian_backend.Prelude.Tests.{leb, ltb, Bool-cases, if◌then◌else◌}
use meridian_backend.Prelude.Lists.{All, All-imp}
use meridian_backend.Prelude.Tables.{select_where}

module _ {ℓ} {A : Type ℓ} (key : A → ℕ) where
  abbrev pub insert_by : A → List A → List A
  insert_by x [] = x ∷ []
  insert_by x (y ∷ ys) = if leb (key x) (key y) then x ∷ y ∷ ys else y ∷ insert_by x ys

  abbrev pub order_by : List A → List A
  order_by [] = []
  order_by (x ∷ xs) = insert_by x (order_by xs)

  -- Every key is at most the ones after it.
  abbrev pub IsSorted : List A → Type 0
  IsSorted [] = Unit
  IsSorted (x ∷ xs) = All (λ y. key x ≤ key y) xs × IsSorted xs

  All-insert_by {κ} :
      (P : A → Type κ) (x : A) (ys : List A) → P x → All P ys → All P (insert_by x ys)
  All-insert_by P x [] p h = (p, tt)
  All-insert_by P x (y ∷ ys) p (q, h) = elim (Bool-cases (leb (key x) (key y))) [
    | inl before ↦ rw before (p, (q, h))
    | inr after ↦ rw after (q, All-insert_by P x ys p h)
  ]

  insert_by-IsSorted : (x : A) (ys : List A) → IsSorted ys → IsSorted (insert_by x ys)
  insert_by-IsSorted x [] h = (tt, tt)
  insert_by-IsSorted x (y ∷ ys) (first, h) = elim (Bool-cases (leb (key x) (key y))) [
    | inl before ↦ rw before (
      (
        ground arith,
        All-imp (λ z. key y ≤ key z) (λ z. key x ≤ key z) (λ z le. ground arith) ys first,
      ),
      (first, h),
    )
    | inr after ↦
        rw after
          (All-insert_by (λ z. key y ≤ key z) x ys (ground arith) first, insert_by-IsSorted x ys h)
  ]

  pub order_by-IsSorted : (xs : List A) → IsSorted (order_by xs)
  order_by-IsSorted [] = tt
  order_by-IsSorted (x ∷ xs) = insert_by-IsSorted x (order_by xs) (order_by-IsSorted xs)

  pub All-order_by {κ} : (P : A → Type κ) (xs : List A) → All P xs → All P (order_by xs)
  All-order_by P [] h = tt
  All-order_by P (x ∷ xs) (p, h) = All-insert_by P x (order_by xs) p (All-order_by P xs h)

  -- A row before all the others goes first.
  insert_by-first : (x : A) (ys : List A) → All (λ y. key x ≤ key y) ys → insert_by x ys ≡ x ∷ ys
  insert_by-first x [] h = refl
  insert_by-first x (y ∷ ys) (le, h) = ground arith

  module _ (p : A → Bool) where
    All-select_where {κ} : (P : A → Type κ) (xs : List A) → All P xs → All P (select_where p xs)
    All-select_where P [] h = tt
    All-select_where P (x ∷ xs) (q, h) = elim (Bool-cases (p x)) [
      | inl hit ↦ rw hit (q, All-select_where P xs h)
      | inr miss ↦ rw miss (All-select_where P xs h)
    ]

    select_where-insert_by :
        (x : A) (ys : List A)
        → IsSorted ys
        → select_where p (insert_by x ys)
          ≡ (if p x then insert_by x (select_where p ys) else select_where p ys)
    select_where-insert_by x [] h = refl
    select_where-insert_by x (y ∷ ys) (first, h) = elim (Bool-cases (leb (key x) (key y))) [
      | inl before ↦ ground (
        arith,
        insert_by-first x (select_where p ys) (
            All-select_where (λ z. key x ≤ key z) ys
              (All-imp (λ z. key y ≤ key z) (λ z. key x ≤ key z) (λ z le. ground arith) ys first)),
      )
      | inr after ↦ ground (arith, select_where-insert_by x ys h)
    ]

    -- Sorting and selecting commute.
    pub select_where-order_by :
        (xs : List A) → select_where p (order_by xs) ≡ order_by (select_where p xs)
    select_where-order_by [] = refl
    select_where-order_by (x ∷ xs) = ground (
      arith,
      select_where-insert_by x (order_by xs) (order_by-IsSorted xs),
      select_where-order_by xs,
    )

  drops_above :
      (k : ℕ) (xs : List A) → All (λ y. k < key y) xs → select_where (λ y. leb (key y) k) xs ≡ []
  drops_above k [] h = refl
  drops_above k (x ∷ xs) (lt, h) = ground (arith, drops_above k xs h)

  keeps_above :
      (k : ℕ) (xs : List A) → All (λ y. k < key y) xs → select_where (λ y. ltb k (key y)) xs ≡ xs
  keeps_above k [] h = refl
  keeps_above k (x ∷ xs) (lt, h) = ground (arith, keeps_above k xs h)

  -- A sorted list is its rows up to a key followed by those after it.
  pub split_at_key :
      (k : ℕ) (xs : List A)
      → IsSorted xs
      → select_where (λ y. leb (key y) k) xs ++ select_where (λ y. ltb k (key y)) xs ≡ xs
  split_at_key k [] h = refl
  split_at_key k (x ∷ xs) (first, h) = elim (Bool-cases (leb (key x) k)) [
    | inl low ↦ ground (arith, split_at_key k xs h)
    | inr high ↦
        let above : All (λ y. k < key y) xs =
          All-imp (λ y. key x ≤ key y) (λ y. k < key y) (λ y le. ground arith) xs first in
        ground (arith, drops_above k xs above, keeps_above k xs above)
  ]
