-- ===== src/Ai/Levenshtein/Scripts.antt =====
-- The table against the recursive distance, and the distance against scripts of edits.
use meridian_backend.Prelude.{
  ℕ, suc, ◌+◌, ◌≤◌, min, List, [], ◌∷◌, ◌≡◌, ◌∙◌, ap, refl, sym, arith, length, subst, leb, ◌==◌,
  ==_iff, Bool-cases, inl, inr,
}
use meridian_backend.Schema.{Bytes}
use meridian_backend.Ai.Levenshtein.{cell, fill_row, fill_rows, first_row, last_cell, levenshtein}

-- The distance of two texts that are read from their ends.
abbrev pub distance : Bytes → Bytes → ℕ
distance [] ys = length ys
distance (x ∷ xs) [] = length xs + 1
distance (x ∷ xs) (y ∷ ys) =
    let above = distance xs (y ∷ ys) in
    let left = distance (x ∷ xs) ys in let diagonal = distance xs ys in cell x y left above diagonal

-- The row of a prefix, with the prefixes of the other text from one on.
abbrev row_of : Bytes → Bytes → Bytes → List ℕ
row_of xs ys [] = distance xs ys ∷ []
row_of xs ys (y ∷ rest) = distance xs ys ∷ row_of xs (y ∷ ys) rest

fill_row-row_of :
    (x : ℕ) (xs ys rest : Bytes)
    → distance (x ∷ xs) ys ∷ fill_row x (distance (x ∷ xs) ys) (row_of xs ys rest) rest
      ≡ row_of (x ∷ xs) ys rest
fill_row-row_of x xs ys [] = refl
fill_row-row_of x xs ys (y ∷ []) = refl
fill_row-row_of x xs ys (y ∷ z ∷ rest) =
    ap (λ r. distance (x ∷ xs) ys ∷ r) (fill_row-row_of x xs (y ∷ ys) (z ∷ rest))

first_row-row_of : (ys rest : Bytes) → first_row (length ys) rest ≡ row_of [] ys rest
first_row-row_of ys [] = refl
first_row-row_of ys (y ∷ rest) =
    ap (λ j. length ys ∷ first_row j rest) one_more
    ∙ ap (λ r. length ys ∷ r) (first_row-row_of (y ∷ ys) rest)
  where
    one_more : length ys + 1 ≡ suc (length ys)
    one_more = omega arith

-- A text read from its end, in front of another one.
abbrev pub reversed_onto : Bytes → Bytes → Bytes
reversed_onto [] ys = ys
reversed_onto (x ∷ xs) ys = reversed_onto xs (x ∷ ys)

last_cell-row_of :
    (xs ys rest : Bytes) → last_cell (row_of xs ys rest) ≡ distance xs (reversed_onto rest ys)
last_cell-row_of xs ys [] = refl
last_cell-row_of xs ys (y ∷ []) = refl
last_cell-row_of xs ys (y ∷ z ∷ rest) = last_cell-row_of xs (y ∷ ys) (z ∷ rest)

distance-[] : (xs : Bytes) → distance xs [] ≡ length xs
distance-[] [] = refl
distance-[] (x ∷ xs) = omega arith

fill_rows-row_of :
    (xs a b : Bytes)
    → fill_rows (length xs + 1) (row_of xs [] b) a b ≡ row_of (reversed_onto a xs) [] b
fill_rows-row_of xs [] b = refl
fill_rows-row_of xs (x ∷ a) b =
    ap (λ row. fill_rows (length xs + 1 + 1) row a b) (fill_row-row_of x xs [] b)
    ∙ ap (λ i. fill_rows (i + 1) (row_of (x ∷ xs) [] b) a b) one_more
    ∙ fill_rows-row_of (x ∷ xs) a b
  where
    one_more : length xs + 1 ≡ suc (length xs)
    one_more = omega arith

-- The table computes the recursive distance.
pub levenshtein-distance :
    (a b : Bytes) → levenshtein a b ≡ distance (reversed_onto a []) (reversed_onto b [])
unfolding levenshtein
levenshtein-distance a b =
    ap (λ row. last_cell (fill_rows 1 row a b)) (first_row-row_of [] b)
    ∙ ap last_cell (fill_rows-row_of [] a b)
    ∙ last_cell-row_of (reversed_onto a []) [] b

-- Edits that make the second text of the first one, from the end on.
pub data Script : Bytes → Bytes → Type 0 where
  done : Script [] []
  remove : {x : ℕ} {xs ys : Bytes} → Script xs ys → Script (x ∷ xs) ys
  insert : {y : ℕ} {xs ys : Bytes} → Script xs ys → Script xs (y ∷ ys)
  keep : {x y : ℕ} {xs ys : Bytes} → x ≡ y → Script xs ys → Script (x ∷ xs) (y ∷ ys)
  replace : {x y : ℕ} {xs ys : Bytes} → Script xs ys → Script (x ∷ xs) (y ∷ ys)

-- How many of them change something.
pub price : {xs ys : Bytes} → Script xs ys → ℕ
price done = 0
price (remove s) = price s + 1
price (insert s) = price s + 1
price (keep e s) = price s
price (replace s) = price s + 1

cell_close :
    (x y left above diagonal : ℕ)
    → diagonal ≤ above + 1
    → above ≤ diagonal + 1
    → diagonal ≤ left + 1
    → left ≤ diagonal + 1
    → (above ≤ cell x y left above diagonal + 1)
      × (cell x y left above diagonal ≤ above + 1)
      × (left ≤ cell x y left above diagonal + 1)
      × (cell x y left above diagonal ≤ left + 1)
cell_close x y left above diagonal a b c d = ground arith

-- One character more or less changes the distance by at most one.
abbrev IsClose : ℕ → ℕ → Type 0
IsClose d e = (d ≤ e + 1) × (e ≤ d + 1)

distance-IsClose :
    (xs ys : Bytes) (c : ℕ)
    → IsClose (distance xs ys) (distance (c ∷ xs) ys)
      × IsClose (distance xs ys) (distance xs (c ∷ ys))
distance-IsClose [] [] c = ((omega arith, omega arith), (omega arith, omega arith))
distance-IsClose [] (y ∷ ys) c =
    let near = distance-IsClose [] ys in
    let h =
      cell_close c y (distance (c ∷ []) ys) (length (y ∷ ys)) (length ys) (omega arith)
        (omega arith) (near c).0.0 (near c).0.1 in
    ((h.0, h.1), (omega arith, omega arith))
distance-IsClose (x ∷ xs) [] c =
    let near = distance-IsClose xs [] in
    let h =
      cell_close x c (distance (x ∷ xs) []) (distance xs (c ∷ [])) (distance xs []) (near c).1.0
        (near c).1.1 (near x).0.0 (near x).0.1 in
    ((omega arith, omega arith), (h.2, h.3))
distance-IsClose (x ∷ xs) (y ∷ ys) c =
    let here = distance-IsClose (x ∷ xs) ys in
    let there = distance-IsClose xs (y ∷ ys) in
    let h =
      cell_close c y (distance (c ∷ x ∷ xs) ys) (distance (x ∷ xs) (y ∷ ys)) (distance (x ∷ xs) ys)
        (here y).1.0 (here y).1.1 (here c).0.0 (here c).0.1 in
    let k =
      cell_close x c (distance (x ∷ xs) (y ∷ ys)) (distance xs (c ∷ y ∷ ys)) (distance xs (y ∷ ys))
        (there c).1.0 (there c).1.1 (there x).0.0 (there x).0.1 in
    ((h.0, h.1), (k.2, k.3))

-- No script is cheaper than the distance.
distance-price : {xs ys : Bytes} (s : Script xs ys) → distance xs ys ≤ price s
unfolding price
distance-price done = omega arith
distance-price (remove {x} {xs} {ys} s) =
    omega (arith, distance-price s, (distance-IsClose xs ys x).0.1)
distance-price (insert {y} {xs} {ys} s) =
    omega (arith, distance-price s, (distance-IsClose xs ys y).1.1)
distance-price (keep {x} {y} {xs} {ys} e s) = ground (arith, e, distance-price s)
distance-price (replace {x} {y} {xs} {ys} s) = ground (arith, distance-price s)

-- Some script costs the distance.
abbrev IsPriced : Bytes → Bytes → ℕ → Type 0
IsPriced xs ys c = (s : Script xs ys) × (price s ≡ c)

IsPriced-min :
    (xs ys : Bytes) (c d : ℕ) → IsPriced xs ys c → IsPriced xs ys d → IsPriced xs ys (min c d)
IsPriced-min xs ys c d (s, e) (t, f) = elim (Bool-cases (leb c d)) [
  | inl le ↦ (s, ground (arith, le, e))
  | inr gt ↦ (t, ground (arith, gt, f))
]

cheapest : (xs ys : Bytes) → IsPriced xs ys (distance xs ys)
unfolding price
cheapest [] [] = (done, refl)
cheapest [] (y ∷ ys) = let (s, e) = cheapest [] ys in (insert s, omega (arith, e))
cheapest (x ∷ xs) [] = let (s, e) = cheapest xs [] in (remove s, omega (arith, e, distance-[] xs))
cheapest (x ∷ xs) (y ∷ ys) =
    let (r, er) = cheapest xs (y ∷ ys) in
    let (s, es) = cheapest (x ∷ xs) ys in
    let (t, et) = cheapest xs ys in
    let above : IsPriced (x ∷ xs) (y ∷ ys) (distance xs (y ∷ ys) + 1) =
      (remove r, ap (λ n. n + 1) er) in
    let left : IsPriced (x ∷ xs) (y ∷ ys) (distance (x ∷ xs) ys + 1) =
      (insert s, ap (λ n. n + 1) es) in
    let diagonal : IsPriced (x ∷ xs) (y ∷ ys) (distance xs ys + 1) =
      (replace t, ap (λ n. n + 1) et) in
    elim (Bool-cases (x == y)) [
      | inl same ↦
          subst (IsPriced (x ∷ xs) (y ∷ ys)) (ground (arith, same))
            (keep ((==_iff x y).0 same) t, et)
      | inr other ↦ subst (IsPriced (x ∷ xs) (y ∷ ys)) (ground (arith, other)) (
          IsPriced-min (x ∷ xs) (y ∷ ys) _ _ (IsPriced-min (x ∷ xs) (y ∷ ys) _ _ above left)
            diagonal)
    ]

-- The table of `levenshtein` gives the least number of characters that are removed, inserted or
-- replaced in a script of edits between the two texts, read from their ends.
pub levenshtein-cheapest :
    (a b : Bytes)
    → ((s : Script (reversed_onto a []) (reversed_onto b [])) → levenshtein a b ≤ price s)
      × ((s : Script (reversed_onto a []) (reversed_onto b [])) × (price s ≡ levenshtein a b))
levenshtein-cheapest a b =
    let (s, e) = cheapest (reversed_onto a []) (reversed_onto b []) in
    (
      λ t. omega (arith, levenshtein-distance a b, distance-price t),
      (s, e ∙ sym (levenshtein-distance a b)),
    )
