-- ===== src/Prelude/Tables.antt =====
-- A table is the list of its rows, oldest first. What the queries of the source use: `where`,
-- `update … set … where`, `delete … where`, and their laws.
use Prim.Native.Nat.{◌≤◌}
use mathlib.Core.Path.{◌≡◌, refl, subst}
use mathlib.Core.Logic.{inl, inr}
use mathlib.Core.Bool.{Bool, true, false}
use mathlib.Core.List.{List, [], ◌∷◌, ◌++◌}
use mathlib.Core.Option.{Option, none, some}
use native.Mathlib.Omega.{arith}
use meridian_backend.Prelude.Tests.{Bool-cases, is_some, Option-cases, if◌then◌else◌}
use meridian_backend.Prelude.Lists.{All, length, head?, any}

module _ {ℓ} {A : Type ℓ} where
  -- `select … where`
  abbrev pub select_where : (A → Bool) → List A → List A
  select_where p [] = []
  select_where p (x ∷ xs) = if p x then x ∷ select_where p xs else select_where p xs

  -- `const [row] = await select … where`
  abbrev pub find_where : (A → Bool) → List A → Option A
  find_where p [] = none
  find_where p (x ∷ xs) = if p x then some x else find_where p xs

  abbrev pub update_where : (A → Bool) → (A → A) → List A → List A
  update_where p f [] = []
  update_where p f (x ∷ xs) = (if p x then f x else x) ∷ update_where p f xs

  abbrev pub delete_where : (A → Bool) → List A → List A
  delete_where p [] = []
  delete_where p (x ∷ xs) = if p x then delete_where p xs else x ∷ delete_where p xs

  pub head?-select_where :
      (p : A → Bool) (xs : List A) → head? (select_where p xs) ≡ find_where p xs
  head?-select_where p [] = refl
  head?-select_where p (x ∷ xs) = ground (arith, head?-select_where p xs)

  -- A row that a query returns satisfies its condition.
  pub find_where_sound :
      (p : A → Bool) (xs : List A) (a : A) → find_where p xs ≡ some a → p a ≡ true
  find_where_sound p [] a h = cc
  find_where_sound p (x ∷ xs) a h = ground (arith, find_where_sound p xs a)

  pub find_where-some :
      (p : A → Bool) (xs : List A)
      → is_some (find_where p xs) ≡ true
      → (a : A) × (find_where p xs ≡ some a)
  find_where-some p xs h = elim (Option-cases (find_where p xs)) [
    | inl missing ↦ cc (rw missing at h)
    | inr found ↦ found
  ]

  pub any-find_where : (p : A → Bool) (xs : List A) → find_where p xs ≡ none → any p xs ≡ false
  any-find_where p [] h = refl
  any-find_where p (x ∷ xs) h = ground (arith, any-find_where p xs)

  pub find_where-any : (p : A → Bool) (xs : List A) → any p xs ≡ false → find_where p xs ≡ none
  find_where-any p [] h = refl
  find_where-any p (x ∷ xs) h = ground (arith, find_where-any p xs)

  pub find_where-append :
      (p : A → Bool) (xs ys : List A)
      → find_where p xs ≡ none
      → find_where p (xs ++ ys) ≡ find_where p ys
  find_where-append p [] ys h = refl
  find_where-append p (x ∷ xs) ys h = ground (arith, find_where-append p xs ys)

  pub find_where-append-some :
      (p : A → Bool) (xs ys : List A) (a : A)
      → find_where p xs ≡ some a
      → find_where p (xs ++ ys) ≡ some a
  find_where-append-some p [] ys a h = cc
  find_where-append-some p (x ∷ xs) ys a h = ground (arith, find_where-append-some p xs ys a)

  -- Where the update keeps a row's answer to the condition, the query finds the updated row.
  pub find_where-update_where :
      (p q : A → Bool) (f : A → A)
      → ((a : A) → p (f a) ≡ p a)
      → (xs : List A) (a : A) → find_where p xs ≡ some a
      → find_where p (update_where q f xs) ≡ some (if q a then f a else a)
  find_where-update_where p q f keep [] a h = cc
  find_where-update_where p q f keep (x ∷ xs) a h =
      ground (arith, keep x, find_where-update_where p q f keep xs a)

  pub find_where-update_where-none :
      (p q : A → Bool) (f : A → A)
      → ((a : A) → p (f a) ≡ p a)
      → (xs : List A) → find_where p xs ≡ none
      → find_where p (update_where q f xs) ≡ none
  find_where-update_where-none p q f keep [] h = refl
  find_where-update_where-none p q f keep (x ∷ xs) h =
      ground (arith, keep x, find_where-update_where-none p q f keep xs)

  -- An update whose condition no row meets changes nothing.
  pub update_where-none :
      (p : A → Bool) (f : A → A) (xs : List A) → find_where p xs ≡ none → update_where p f xs ≡ xs
  update_where-none p f [] h = refl
  update_where-none p f (x ∷ xs) h = ground (arith, update_where-none p f xs)

  -- After an update that falsifies its own condition no row meets it.
  pub find_where-update_where_self :
      (p : A → Bool) (f : A → A)
      → ((a : A) → p (f a) ≡ false)
      → (xs : List A) → find_where p (update_where p f xs) ≡ none
  find_where-update_where_self p f off [] = refl
  find_where-update_where_self p f off (x ∷ xs) =
      ground (arith, off x, find_where-update_where_self p f off xs)

  -- A weaker condition finds a row too.
  pub find_where_weaken :
      (p q : A → Bool)
      → ((a : A) → q a ≡ true → p a ≡ true)
      → (xs : List A) (a : A) → find_where q xs ≡ some a
      → is_some (find_where p xs) ≡ true
  find_where_weaken p q imp [] a h = cc
  find_where_weaken p q imp (x ∷ xs) a h = ground (arith, imp x, find_where_weaken p q imp xs a)

  pub find_where-delete_where :
      (p : A → Bool) (xs : List A) → find_where p (delete_where p xs) ≡ none
  find_where-delete_where p [] = refl
  find_where-delete_where p (x ∷ xs) = ground (arith, find_where-delete_where p xs)

  -- Rows of another key are found as before.
  pub find_where-delete_where_ne :
      (p q : A → Bool)
      → ((a : A) → p a ≡ true → q a ≡ false)
      → (xs : List A) → find_where p (delete_where q xs) ≡ find_where p xs
  find_where-delete_where_ne p q apart [] = refl
  find_where-delete_where_ne p q apart (x ∷ xs) =
      ground (arith, apart x, find_where-delete_where_ne p q apart xs)

  pub find_where-update_where_ne :
      (p q : A → Bool) (f : A → A)
      → ((a : A) → p (f a) ≡ p a)
      → ((a : A) → p a ≡ true → q a ≡ false)
      → (xs : List A) → find_where p (update_where q f xs) ≡ find_where p xs
  find_where-update_where_ne p q f keep apart [] = refl
  find_where-update_where_ne p q f keep apart (x ∷ xs) =
      ground (arith, keep x, apart x, find_where-update_where_ne p q f keep apart xs)

  pub length-update_where :
      (q : A → Bool) (f : A → A) (xs : List A) → length (update_where q f xs) ≡ length xs
  length-update_where q f [] = refl
  length-update_where q f (x ∷ xs) = omega (arith, length-update_where q f xs)

  pub length-select_where : (p : A → Bool) (xs : List A) → length (select_where p xs) ≤ length xs
  length-select_where p [] = omega arith
  length-select_where p (x ∷ xs) = ground (arith, length-select_where p xs)

  pub select_where-append :
      (p : A → Bool) (xs ys : List A)
      → select_where p (xs ++ ys) ≡ select_where p xs ++ select_where p ys
  select_where-append p [] ys = refl
  select_where-append p (x ∷ xs) ys = ground (arith, select_where-append p xs ys)

  -- No two rows have the same key; `same` compares the columns of the constraint.
  abbrev pub IsUnique : (A → A → Bool) → List A → Type 0
  IsUnique same [] = Unit
  IsUnique same (x ∷ xs) = (any (same x) xs ≡ false) × IsUnique same xs

module _ {ℓ} {A : Type ℓ} (same : A → A → Bool) where
  pub any-update_where :
      (p q : A → Bool) (f : A → A)
      → ((a : A) → p (f a) ≡ p a)
      → (xs : List A) → any p (update_where q f xs) ≡ any p xs
  any-update_where p q f keep [] = refl
  any-update_where p q f keep (x ∷ xs) = ground (arith, keep x, any-update_where p q f keep xs)

  pub any-delete_where :
      (p q : A → Bool) (xs : List A) → any p xs ≡ false → any p (delete_where q xs) ≡ false
  any-delete_where p q [] h = refl
  any-delete_where p q (x ∷ xs) h = ground (arith, any-delete_where p q xs)

  pub IsUnique-delete_where :
      (q : A → Bool) (xs : List A) → IsUnique same xs → IsUnique same (delete_where q xs)
  IsUnique-delete_where q [] h = tt
  IsUnique-delete_where q (x ∷ xs) (new, h) =
      ground (arith, any-delete_where (same x) q xs, IsUnique-delete_where q xs h)

module _ {ℓ κ} {A : Type ℓ} (P : A → Type κ) where
  pub All-update_where :
      (p : A → Bool) (f : A → A)
      → ((a : A) → P a → P (f a))
      → (xs : List A) → All P xs
      → All P (update_where p f xs)
  All-update_where p f keep [] h = tt
  All-update_where p f keep (x ∷ xs) (h, hs) = elim (Bool-cases (p x)) [
    | inl hit ↦ rw hit (keep x h, All-update_where p f keep xs hs)
    | inr miss ↦ rw miss (h, All-update_where p f keep xs hs)
  ]

  -- What holds of every row holds of the one that a query finds.
  pub All-find_where :
      (p : A → Bool) (xs : List A) (a : A) → All P xs → find_where p xs ≡ some a → P a
  All-find_where p [] a h e = cc
  All-find_where p (x ∷ xs) a (h, hs) e = elim (Bool-cases (p x)) [
    | inl hit ↦ subst P (ground arith) h
    | inr miss ↦ All-find_where p xs a hs (ground arith)
  ]
