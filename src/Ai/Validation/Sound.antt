-- ===== src/Ai/Validation/Sound.antt =====
-- What passes the validation is well-formed.
use meridian_backend.Prelude.{
  ℕ, ◌+◌, Bool, true, false, Option, none, some, List, [], ◌∷◌, ◌⊎◌, inl, inr, ◌≡◌, refl, ℤ, less,
  if◌then◌else◌,
}
use meridian_backend.Schema.{Bytes}
use meridian_backend.Ai.Content.{RangeEdit, delete_range, format_range, AnchorPosition}
use meridian_backend.Ai.Validation.{
  Value, number, text_value, object_value, Tag, insert_tag, delete_tag, format_tag, Side, Fields,
  Item, object_item, ProposedOp, edit, and_check, required, validate_item, validate_fields,
  validate_insert, validate_delete, validate_format, validate_range, validate_anchor, as_text,
  as_side, as_number, as_position, as_object, Problem, no_numbers, not_ordered, no_anchor_position,
  no_position, no_text, no_expected_text, no_attributes, unknown_tag, not_object, array_value,
  null_value, boolean_value, at_index, validate_items, validate_operations,
}
use meridian_backend.Ai.Validation.WellFormed.{
  is_filled, is_anchored, is_well_formed, all_well_formed, pair_true,
}

-- What holds of a value that is there, and of a result that is one.
abbrev OnSome {ℓ} : {A : Type ℓ} → (A → Type 0) → Option A → Type 0
OnSome P none = Unit
OnSome P (some a) = P a

abbrev pub OnRight {ℓ κ} : {E : Type κ} {A : Type ℓ} → (A → Type 0) → E ⊎ A → Type 0
OnRight P (inl e) = Unit
OnRight P (inr a) = P a

checked :
    {E A B : Type 0} (Q : A → Type 0) (P : B → Type 0) (r : E ⊎ A) (f : A → E ⊎ B)
    → OnRight Q r
    → ((a : A) → Q a → OnRight P (f a))
    → OnRight P (and_check r f)
checked Q P (inl e) f h k = tt
checked Q P (inr a) f h k = k a h

required_lem :
    {A : Type 0} (Q : A → Type 0) (o : Option A) (problem : Problem)
    → OnSome Q o
    → OnRight Q (required o problem)
required_lem Q none problem h = tt
required_lem Q (some a) problem h = h

as_text-is_filled : (o : Option Value) → OnSome (λ t. is_filled t ≡ true) (as_text o)
as_text-is_filled none = tt
as_text-is_filled (some (text_value [])) = tt
as_text-is_filled (some (text_value (c ∷ rest))) = refl
as_text-is_filled (some (number n)) = tt
as_text-is_filled (some (object_value o)) = tt
as_text-is_filled (some array_value) = tt
as_text-is_filled (some null_value) = tt
as_text-is_filled (some boolean_value) = tt

side_anchored :
    (c : ℕ) (rest : Bytes) (r : Problem ⊎ AnchorPosition)
    → OnRight (λ a. is_anchored a ≡ true) (and_check r λ s. inr (some ((c ∷ rest), s)))
side_anchored c rest (inl problem) = tt
side_anchored c rest (inr s) = refl

validate_anchor-is_anchored :
    (o : Option Value) (side : Option Side)
    → OnRight (λ a. is_anchored a ≡ true) (validate_anchor o side)
validate_anchor-is_anchored none side = refl
validate_anchor-is_anchored (some (text_value [])) side = refl
validate_anchor-is_anchored (some (text_value (c ∷ rest))) side =
    side_anchored c rest (required (as_side side) no_anchor_position)
validate_anchor-is_anchored (some (number n)) side = tt
validate_anchor-is_anchored (some (object_value o)) side = tt
validate_anchor-is_anchored (some array_value) side = tt
validate_anchor-is_anchored (some null_value) side = tt
validate_anchor-is_anchored (some boolean_value) side = tt

abbrev IsOrdered : ℤ × ℤ → Type 0
IsOrdered r = less r.0 r.1 ≡ true

ordered :
    (b : Bool) (s e : ℤ)
    → less s e ≡ b
    → OnRight {E = Problem} IsOrdered (if b then inr (s, e) else inl not_ordered)
ordered true s e h = h
ordered false s e h = tt

validate_range-less : (start end_ : Option Value) → OnRight IsOrdered (validate_range start end_)
validate_range-less start end_ =
    go (required (as_number start) no_numbers) (required (as_number end_) no_numbers)
  where
    go :
        (a b : Problem ⊎ ℤ)
        → OnRight IsOrdered
            (and_check a λ s. and_check b λ e. if less s e then inr (s, e) else inl not_ordered)
    go (inl problem) b = tt
    go (inr s) (inl problem) = tt
    go (inr s) (inr e) = ordered (less s e) s e refl

unit_lem : {E A : Type 0} (r : E ⊎ A) → OnRight (λ (a : A). Unit) r
unit_lem (inl e) = tt
unit_lem (inr a) = tt

abbrev IsWellFormed : ProposedOp → Type 0
IsWellFormed op = is_well_formed op ≡ true

validate_insert-IsWellFormed : (op : Fields) → OnRight IsWellFormed (validate_insert op)
validate_insert-IsWellFormed op =
    checked (λ _. Unit) IsWellFormed (required (as_position op.position) no_position) _ (unit_lem _)
      λ position _.
        checked (λ t. is_filled t ≡ true) IsWellFormed (required (as_text op.text) no_text) _
          (required_lem (λ t. is_filled t ≡ true) (as_text op.text) no_text
            (as_text-is_filled op.text))
          λ text filled.
            checked (λ a. is_anchored a ≡ true) IsWellFormed
              (validate_anchor op.anchor_text op.anchor_position) _
              (validate_anchor-is_anchored op.anchor_text op.anchor_position)
              λ anchor anchored. pair_true (is_filled text) (is_anchored anchor) filled anchored

filled_edit :
    (e : Bytes → RangeEdit) (r : ℤ × ℤ) (text : Option Value)
    → IsOrdered r
    → OnRight IsWellFormed
        (and_check (required (as_text text) no_expected_text) λ t. inr (edit (e t) r.0 r.1 t))
filled_edit e r text h =
    checked (λ t. is_filled t ≡ true) IsWellFormed (required (as_text text) no_expected_text) _
      (required_lem (λ t. is_filled t ≡ true) (as_text text) no_expected_text
        (as_text-is_filled text))
      λ t filled. pair_true (less r.0 r.1) (is_filled t) h filled

validate_delete-IsWellFormed : (op : Fields) → OnRight IsWellFormed (validate_delete op)
validate_delete-IsWellFormed op =
    checked IsOrdered IsWellFormed (validate_range op.start op.end_) _
      (validate_range-less op.start op.end_)
      λ r h. filled_edit (λ t. delete_range) r op.expected_text h

validate_format-IsWellFormed : (op : Fields) → OnRight IsWellFormed (validate_format op)
validate_format-IsWellFormed op =
    checked IsOrdered IsWellFormed (validate_range op.start op.end_) _
      (validate_range-less op.start op.end_)
      λ r h.
        checked (λ _. Unit) IsWellFormed (required (as_object op.attributes) no_attributes) _
          (unit_lem _)
          λ attributes _. filled_edit (λ t. format_range attributes) r op.expected_text h

validate_item-IsWellFormed : (item : Item) → OnRight IsWellFormed (validate_item item)
validate_item-IsWellFormed not_object = tt
validate_item-IsWellFormed (object_item op) = by_tag op.tag
  where
    by_tag : (tag : Tag) → OnRight IsWellFormed (validate_fields tag op)
    by_tag insert_tag = validate_insert-IsWellFormed op
    by_tag delete_tag = validate_delete-IsWellFormed op
    by_tag format_tag = validate_format-IsWellFormed op
    by_tag unknown_tag = tt

at_index-IsWellFormed :
    (index : ℕ) (r : Problem ⊎ ProposedOp)
    → OnRight IsWellFormed r
    → OnRight IsWellFormed (at_index index r)
at_index-IsWellFormed index (inl problem) h = tt
at_index-IsWellFormed index (inr op) h = h

abbrev pub AreWellFormed : List ProposedOp → Type 0
AreWellFormed ops = all_well_formed ops ≡ true

pub validate_items-AreWellFormed :
    (index : ℕ) (items : List Item) → OnRight AreWellFormed (validate_items index items)
validate_items-AreWellFormed index [] = refl
validate_items-AreWellFormed index (item ∷ items) =
    checked IsWellFormed AreWellFormed (at_index index (validate_item item)) _
      (at_index-IsWellFormed index (validate_item item) (validate_item-IsWellFormed item))
      λ op well.
        checked AreWellFormed AreWellFormed (validate_items (index + 1) items) _
          (validate_items-AreWellFormed (index + 1) items)
          λ ops wells. pair_true (is_well_formed op) (all_well_formed ops) well wells

-- Whatever the model answers, operations that pass the validation are well-formed: texts and quotes
-- are not empty, and a range begins before its end.
pub validate_operations-AreWellFormed :
    (parsed : Option (List Item)) → OnRight AreWellFormed (validate_operations parsed)
unfolding validate_operations
validate_operations-AreWellFormed none = tt
validate_operations-AreWellFormed (some items) = validate_items-AreWellFormed 0 items
