-- ===== src/Ai/Validation/WellFormed.antt =====
-- The operations that may pass the validation.
use mathlib.Core.Bool.{true≢false}
use meridian_backend.Prelude.{
  Bool, true, false, Option, none, some, List, [], ◌∷◌, ◌≡◌, sym, refl, ◌&&◌, less,
}
use meridian_backend.Schema.{Bytes}
use meridian_backend.Ai.Content.{AnchorPosition}
use meridian_backend.Ai.Validation.{ProposedOp, insertion, edit}

abbrev pub is_filled : Bytes → Bool
is_filled [] = false
is_filled (c ∷ rest) = true

abbrev pub is_anchored : Option (Bytes × AnchorPosition) → Bool
is_anchored none = true
is_anchored (some (text, side)) = is_filled text

-- Texts are not empty, and a range is not either.
abbrev pub is_well_formed : ProposedOp → Bool
is_well_formed (insertion position text anchor) = is_filled text && is_anchored anchor
is_well_formed (edit e start end_ expected) = less start end_ && is_filled expected

abbrev pub all_well_formed : List ProposedOp → Bool
all_well_formed [] = true
all_well_formed (op ∷ ops) = is_well_formed op && all_well_formed ops

pub both_true : (a b : Bool) → (a && b) ≡ true → (a ≡ true) × (b ≡ true)
both_true true b h = (refl, h)
both_true false b h = absurd (true≢false (sym h))

pub pair_true : (a b : Bool) → a ≡ true → b ≡ true → (a && b) ≡ true
pair_true a b h k = rw h k
