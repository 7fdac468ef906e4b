-- ===== src/Ai/Levenshtein.antt =====
-- `levenshtein` of src/ai/ai.service.ts: the table of distances of prefixes, row by row.
pub mod Scripts
mod Tests
use meridian_backend.Prelude.{
  ℕ, ◌+◌, min, List, [], ◌∷◌, ◌≡◌, ◌∙◌, ap, refl, sym, arith, length, if◌then◌else◌, ◌==◌,
}
use meridian_backend.Schema.{Bytes}

-- A cell from the cells to its left, above it, and above to the left.
abbrev pub cell : (x y left above diagonal : ℕ) → ℕ
cell x y left above diagonal = if x == y then diagonal else 1 + min (min above left) diagonal

-- The rest of the row of the character `x`, behind the cell `left`; the row above is given from the
-- cell above `left` on.
abbrev pub fill_row : (x left : ℕ) → (above : List ℕ) → Bytes → List ℕ
fill_row x left (diagonal ∷ above ∷ rest) (y ∷ b) =
    let next = cell x y left above diagonal in next ∷ fill_row x next (above ∷ rest) b
fill_row x left _ _ = []

-- The rows of the characters of `a`, the first of which has the index `i`.
abbrev pub fill_rows : (i : ℕ) → (above : List ℕ) → (a b : Bytes) → List ℕ
fill_rows i above [] b = above
fill_rows i above (x ∷ a) b = fill_rows (i + 1) (i ∷ fill_row x i above b) a b

-- Row 0.
abbrev pub first_row : (j : ℕ) → Bytes → List ℕ
first_row j [] = j ∷ []
first_row j (y ∷ b) = j ∷ first_row (j + 1) b

abbrev pub last_cell : List ℕ → ℕ
last_cell [] = 0
last_cell (d ∷ []) = d
last_cell (d ∷ e ∷ row) = last_cell (e ∷ row)

unfoldable pub levenshtein : Bytes → Bytes → ℕ
levenshtein a b = last_cell (fill_rows 1 (first_row 0 b) a b)
