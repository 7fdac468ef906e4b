-- ===== src/Ai/Content.antt =====
-- `checkContentExistence` of src/ai/ai.service.ts: where each operation that the model proposes goes
-- in the current text. The similarity test against the threshold is a parameter, and so is the
-- search that ignores the kind of white space.
pub mod Placed
use meridian_backend.Prelude.{
  ℕ, zero, suc, ◌+◌, ◌-◌, Bool, true, false, Option, none, some, List, [], ◌∷◌, ◌++◌, length,
  if◌then◌else◌, ◌==◌, ◌&&◌, get_or,
}
use meridian_backend.Schema.{Bytes}

-- A range is deleted, or formatted with attributes (given as JSON text).
pub data RangeEdit : Type 0 where
  delete_range : RangeEdit
  format_range : (attributes : Bytes) → RangeEdit

pub data AnchorPosition : Type 0 where
  before after : AnchorPosition

pub data AiOp : Type 0 where
  insert_op : (position : ℕ) → (text : Bytes) → (anchor : Option (Bytes × AnchorPosition)) → AiOp
  range_op : RangeEdit → (start end_ : ℕ) → (expected_text : Bytes) → AiOp

pub data ContentCheck : Type 0 where
  all_exact : (valid : List AiOp) → ContentCheck
  fuzzy_match : (index : ℕ) → (expected actual : Bytes) → ContentCheck
  partial : (valid : List AiOp) → (rejected : List ℕ) → ContentCheck

abbrev pub take : ℕ → Bytes → Bytes
take zero text = []
take (suc n) [] = []
take (suc n) (c ∷ text) = c ∷ take n text

abbrev pub skip : ℕ → Bytes → Bytes
skip zero text = text
skip (suc n) [] = []
skip (suc n) (c ∷ text) = skip n text

-- `text.slice(start, end)`
abbrev pub slice : ℕ → ℕ → Bytes → Bytes
slice start end_ text = take (end_ - start) (skip start text)

abbrev pub same_text : Bytes → Bytes → Bool
same_text [] [] = true
same_text (c ∷ xs) (d ∷ ys) = c == d && same_text xs ys
same_text _ _ = false

-- `relocatedRanges`, the latest entry first.
abbrev pub relocated_to : ℕ → List (ℕ × ℕ) → Option ℕ
relocated_to key [] = none
relocated_to key ((k, v) ∷ entries) = if k == key then some v else relocated_to key entries

-- What the loop has gathered.
pub record Progress : Type 0 where
  pub valid : List AiOp
  pub rejected : List ℕ
  pub relocated : List (ℕ × ℕ)

abbrev pub accept : AiOp → Progress → Progress
accept op p = record p { valid = p.valid ++ op ∷ [] }

abbrev pub reject : ℕ → Progress → Progress
reject index p = record p { rejected = p.rejected ++ index ∷ [] }

abbrev pub relocate : ℕ → ℕ → Progress → Progress
relocate key start p = record p { relocated = (key, start) ∷ p.relocated }

-- `match.start` or `match.end`
abbrev pub at_anchor : AnchorPosition → ℕ × ℕ → ℕ
at_anchor before m = m.0
at_anchor after m = m.1

-- One round of the loop goes on, or stops at a fuzzy match.
pub data Round : Type 0 where
  go_on : Progress → Round
  stop : (expected actual : Bytes) → Round

-- The outcome at the end of the loop.
abbrev pub conclude : List AiOp → List ℕ → ContentCheck
conclude valid [] = all_exact valid
conclude valid (index ∷ more) = partial valid (index ∷ more)

abbrev pub after_round : (Progress → ContentCheck) → ℕ → Round → ContentCheck
after_round rest index (go_on p) = rest p
after_round rest index (stop expected actual) = fuzzy_match index expected actual

module _ (find : Bytes → ℕ → Option (ℕ × ℕ)) (similar : Bytes → Bytes → Bool) (text : Bytes) where
  abbrev pub place_anchored :
      ℕ → Bytes → Bytes → AnchorPosition → ℕ → Progress → Option (ℕ × ℕ) → Round
  place_anchored position inserted anchor side index p none = go_on (reject index p)
  place_anchored position inserted anchor side index p (some m) =
      go_on (accept (insert_op (at_anchor side m) inserted (some (anchor, side))) p)

  -- A range whose text is not the quoted one: the nearest occurrence, or a similar text.
  abbrev pub place_range : RangeEdit → ℕ → ℕ → Bytes → ℕ → Progress → Option (ℕ × ℕ) → Round
  place_range edit start end_ expected index p (some m) =
      go_on (relocate start m.0 (accept (range_op edit m.0 m.1 expected) p))
  place_range edit start end_ expected index p none =
      if similar expected (slice start end_ text)
      then stop expected (slice start end_ text)
      else go_on (reject index p)

  abbrev pub check_op : AiOp → ℕ → Progress → Round
  check_op (insert_op position inserted (some (anchor, side))) index p =
      place_anchored position inserted anchor side index p (find anchor position)
  check_op (insert_op position inserted none) index p =
      go_on
        (accept (insert_op (get_or (relocated_to position p.relocated) position) inserted none) p)
  check_op (range_op edit start end_ expected) index p =
      if same_text expected (slice start end_ text)
      then go_on (relocate start start (accept (range_op edit start end_ expected) p))
      else place_range edit start end_ expected index p (find expected start)

  abbrev pub check_rest : List AiOp → ℕ → Progress → ContentCheck
  check_rest [] index p = conclude p.valid p.rejected
  check_rest (op ∷ ops) index p =
      after_round (check_rest ops (index + 1)) index (check_op op index p)

  unfoldable pub check_content_existence : List AiOp → ContentCheck
  check_content_existence ops =
      check_rest ops 0 (record { valid = []; rejected = []; relocated = [] })
