-- ===== src/Ai/Validation.antt =====
-- `validateOperations` of src/ai/ai.service.ts: the operations that the parsed answer of the model
-- describes. Numbers are integers here, strings are their code units.
mod WellFormed
pub mod Sound
pub mod Described
pub mod Generation
mod Tests
use meridian_backend.Prelude.{
  ℕ, ◌+◌, Bool, true, false, Option, none, some, List, [], ◌∷◌, ◌⊎◌, inl, inr, ℤ, pos, negsuc, less,
  if◌then◌else◌,
}
use meridian_backend.Schema.{Bytes}
use meridian_backend.Ai.Content.{RangeEdit, delete_range, format_range, AnchorPosition, after}

-- A JSON value of a field; a nested object is its text.
pub data Value : Type 0 where
  number : ℤ → Value
  text_value : Bytes → Value
  object_value : Bytes → Value
  array_value null_value boolean_value : Value

-- The field `type`, and `anchor_position` where it is not missing.
pub data Tag : Type 0 where
  insert_tag delete_tag format_tag unknown_tag : Tag

pub data Side : Type 0 where
  known_side : AnchorPosition → Side
  unknown_side : Side

-- An object of the answer by the fields that are read; `none` for `undefined`, and for `null` in
-- `anchor_position`.
pub record Fields : Type 0 where
  pub tag : Tag
  pub position : Option Value
  pub text : Option Value
  pub anchor_text : Option Value
  pub anchor_position : Option Side
  pub start : Option Value
  pub end_ : Option Value
  pub attributes : Option Value
  pub expected_text : Option Value

pub data Item : Type 0 where
  object_item : Fields → Item
  not_object : Item

-- An operation that passes; the ends of a range are integers, below 0 too.
pub data ProposedOp : Type 0 where
  insertion : (position : ℕ) → Bytes → Option (Bytes × AnchorPosition) → ProposedOp
  edit : RangeEdit → (start end_ : ℤ) → Bytes → ProposedOp

-- The reasons of an AiValidationError.
pub data Problem : Type 0 where
  no_object no_position no_text no_anchor_text no_anchor_position no_numbers not_ordered
        no_attributes no_expected_text unknown_type :
      Problem

pub data Invalid : Type 0 where
  not_array : Invalid
  invalid_at : (index : ℕ) → Problem → Invalid

abbrev pub required {ℓ} : {A : Type ℓ} → Option A → Problem → Problem ⊎ A
required none problem = inl problem
required (some a) problem = inr a

abbrev pub and_check {ℓ κ λ'} :
    {A : Type ℓ} {E : Type κ} {B : Type λ'} → E ⊎ A → (A → E ⊎ B) → E ⊎ B
and_check (inl e) f = inl e
and_check (inr a) f = f a

-- A number that is not negative, and a string that is not empty.
abbrev pub as_position : Option Value → Option ℕ
as_position (some (number (pos n))) = some n
as_position _ = none

abbrev pub as_text : Option Value → Option Bytes
as_text (some (text_value (c ∷ rest))) = some (c ∷ rest)
as_text _ = none

abbrev pub as_number : Option Value → Option ℤ
as_number (some (number n)) = some n
as_number _ = none

abbrev pub as_object : Option Value → Option Bytes
as_object (some (object_value o)) = some o
as_object _ = none

abbrev pub as_side : Option Side → Option AnchorPosition
as_side none = some after
as_side (some (known_side side)) = some side
as_side (some unknown_side) = none

-- The anchor, none where its text is missing or empty.
abbrev pub validate_anchor : Option Value → Option Side → Problem ⊎ Option (Bytes × AnchorPosition)
validate_anchor none side = inr none
validate_anchor (some (text_value [])) side = inr none
validate_anchor (some (text_value (c ∷ rest))) side =
    and_check (required (as_side side) no_anchor_position) λ s. inr (some (c ∷ rest, s))
validate_anchor (some _) side = inl no_anchor_text

abbrev pub validate_insert : Fields → Problem ⊎ ProposedOp
validate_insert op = and_check (required (as_position op.position) no_position) λ position.
    and_check (required (as_text op.text) no_text) λ text.
      and_check (validate_anchor op.anchor_text op.anchor_position)
        λ anchor. inr (insertion position text anchor)

abbrev pub validate_range : Option Value → Option Value → Problem ⊎ (ℤ × ℤ)
validate_range start end_ = and_check (required (as_number start) no_numbers) λ s.
    and_check (required (as_number end_) no_numbers)
      λ e. if less s e then inr (s, e) else inl not_ordered

abbrev pub validate_delete : Fields → Problem ⊎ ProposedOp
validate_delete op = and_check (validate_range op.start op.end_) λ range.
    and_check (required (as_text op.expected_text) no_expected_text)
      λ expected. inr (edit delete_range range.0 range.1 expected)

abbrev pub validate_format : Fields → Problem ⊎ ProposedOp
validate_format op = and_check (validate_range op.start op.end_) λ range.
    and_check (required (as_object op.attributes) no_attributes) λ attributes.
      and_check (required (as_text op.expected_text) no_expected_text)
        λ expected. inr (edit (format_range attributes) range.0 range.1 expected)

abbrev pub validate_fields : Tag → Fields → Problem ⊎ ProposedOp
validate_fields insert_tag op = validate_insert op
validate_fields delete_tag op = validate_delete op
validate_fields format_tag op = validate_format op
validate_fields unknown_tag op = inl unknown_type

abbrev pub validate_item : Item → Problem ⊎ ProposedOp
validate_item not_object = inl no_object
validate_item (object_item op) = validate_fields op.tag op

abbrev pub at_index : ℕ → Problem ⊎ ProposedOp → Invalid ⊎ ProposedOp
at_index index (inl problem) = inl (invalid_at index problem)
at_index index (inr op) = inr op

-- `parsed.map`, which stops at the first item that throws.
abbrev pub validate_items : ℕ → List Item → Invalid ⊎ List ProposedOp
validate_items index [] = inr []
validate_items index (item ∷ items) =
    let rest = validate_items (index + 1) items in
    and_check (at_index index (validate_item item)) λ op. and_check rest λ ops. inr (op ∷ ops)

-- The parsed answer, none where it is no array.
unfoldable pub validate_operations : Option (List Item) → Invalid ⊎ List ProposedOp
validate_operations none = inl not_array
validate_operations (some items) = validate_items 0 items
