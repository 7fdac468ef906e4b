-- ===== src/Ai/Validation/Described.antt =====
-- Operations and the items that describe them.
use mathlib.Core.Bool.{true≢false}
use meridian_backend.Prelude.{
  ℕ, ◌+◌, true, false, Option, none, some, List, [], ◌∷◌, ◌⊎◌, inr, ◌≡◌, ◌↔◌, ◌∙◌, ap, sym, refl,
  subst, map, ℤ, pos, less,
}
use meridian_backend.Schema.{Bytes}
use meridian_backend.Ai.Content.{RangeEdit, delete_range, format_range, AnchorPosition}
use meridian_backend.Ai.Validation.{
  number, text_value, object_value, Tag, insert_tag, delete_tag, format_tag, known_side, Fields,
  Item, object_item, ProposedOp, insertion, edit, Invalid, and_check, validate_item, at_index,
  validate_items, validate_operations,
}
use meridian_backend.Ai.Validation.WellFormed.{is_well_formed, all_well_formed, both_true}
use meridian_backend.Ai.Validation.Sound.{OnRight, AreWellFormed, validate_items-AreWellFormed}

abbrev no_fields : Tag → Fields
no_fields tag = record {
  tag = tag;
  position = none;
  text = none;
  anchor_text = none;
  anchor_position = none;
  start = none;
  end_ = none;
  attributes = none;
  expected_text = none;
}

-- The item that stands for an operation, in the format that the model is asked for.
abbrev pub with_anchor : Option (Bytes × AnchorPosition) → Fields → Fields
with_anchor none op = op
with_anchor (some (text, side)) op = record op {
  anchor_text = some (text_value text);
  anchor_position = some (known_side side);
}

abbrev pub with_edit : RangeEdit → Fields
with_edit delete_range = no_fields delete_tag
with_edit (format_range attributes) = record (no_fields format_tag) {
  attributes = some (object_value attributes);
}

abbrev pub describe : ProposedOp → Item
describe (insertion position text anchor) = object_item (
    with_anchor anchor (record (no_fields insert_tag) {
      position = some (number (pos position));
      text = some (text_value text);
    }))
describe (edit e start end_ expected) = object_item (record (with_edit e) {
  start = some (number start);
  end_ = some (number end_);
  expected_text = some (text_value expected);
})

-- A description is valid, and stands for the operation.
ordered_valid :
    (e : RangeEdit) (start end_ : ℤ) (c : ℕ) (expected : Bytes)
    → less start end_ ≡ true
    → validate_item (describe (edit e start end_ (c ∷ expected)))
      ≡ inr (edit e start end_ (c ∷ expected))
ordered_valid delete_range start end_ c expected h = rw h refl
ordered_valid (format_range attributes) start end_ c expected h = rw h refl

describe_valid : (op : ProposedOp) → is_well_formed op ≡ true → validate_item (describe op) ≡ inr op
describe_valid (insertion position (c ∷ text) none) h = refl
describe_valid (insertion position (c ∷ text) (some (a ∷ anchor, side))) h = refl
describe_valid (edit e start end_ (c ∷ expected)) h =
    ordered_valid e start end_ c expected (both_true (less start end_) true h).0
describe_valid (insertion position [] anchor) h = absurd (true≢false (sym h))
describe_valid (insertion position (c ∷ text) (some ([], side))) h = absurd (true≢false (sym h))
describe_valid (edit e start end_ []) h =
    absurd (true≢false (sym (both_true (less start end_) false h).1))

describe_all :
    (index : ℕ) (ops : List ProposedOp)
    → all_well_formed ops ≡ true
    → validate_items index (map describe ops) ≡ inr ops
describe_all index [] h = refl
describe_all index (op ∷ ops) h =
    let (first, others) = both_true (is_well_formed op) (all_well_formed ops) h in
    ap
      (λ r.
        and_check (at_index index r)
          λ o. and_check (validate_items (index + 1) (map describe ops)) λ os. inr (o ∷ os))
      (describe_valid op first)
    ∙ ap (λ r. and_check r λ os. inr (op ∷ os)) (describe_all (index + 1) ops others)

right :
    (ops : List ProposedOp) (r : Invalid ⊎ List ProposedOp)
    → OnRight AreWellFormed r
    → r ≡ inr ops
    → AreWellFormed ops
right ops r h e = subst (OnRight AreWellFormed) e h

-- The items that describe operations in the format that the model is asked for are validated to
-- these operations, where they are well-formed, and only there.
pub validate_operations-describe :
    (ops : List ProposedOp)
    → AreWellFormed ops ↔ (validate_operations (some (map describe ops)) ≡ inr ops)
unfolding validate_operations
validate_operations-describe ops = (
  describe_all 0 ops,
  right ops (validate_items 0 (map describe ops))
      (validate_items-AreWellFormed 0 (map describe ops)),
)
