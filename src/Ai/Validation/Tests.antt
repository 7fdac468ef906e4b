-- ===== src/Ai/Validation/Tests.antt =====
-- The validation and the generation of operations at concrete answers.
use meridian_backend.Prelude.{
  ℕ, zero, suc, none, some, List, [], ◌∷◌, ◌++◌, inl, inr, ◌≡◌, ◌↔◌, refl, map, pos, negsuc,
}
use meridian_backend.Ai.Content.{delete_range, after}
use meridian_backend.Ai.Validation.{
  not_object, ProposedOp, insertion, edit, invalid_at, no_object, validate_operations,
}
use meridian_backend.Ai.Validation.Sound.{OnRight, AreWellFormed, validate_operations-AreWellFormed}
use meridian_backend.Ai.Validation.Described.{describe, validate_operations-describe}
use meridian_backend.Ai.Validation.Generation.{
  Reply, replies, generated, max_retries, generate_validated_ops, IsRun,
  generate_validated_ops-IsRun,
}

abbrev ops : List ProposedOp
ops =
    insertion 4 (97 ∷ []) (some (98 ∷ [], after)) ∷ edit delete_range (pos 1) (pos 3) (99 ∷ []) ∷ []

-- A range that begins before the text is let through.
negative_start :
    validate_operations (some (describe (edit delete_range (negsuc 4) (pos 3) (99 ∷ [])) ∷ []))
    ≡ inr (edit delete_range (negsuc 4) (pos 3) (99 ∷ []) ∷ [])
unfolding validate_operations
negative_start = refl

second_is_no_object :
    validate_operations (some (map describe ops ++ not_object ∷ [])) ≡ inl (invalid_at 2 no_object)
unfolding validate_operations
second_is_no_object = refl

validate_operations-describe_example :
    AreWellFormed ops ↔ (validate_operations (some (map describe ops)) ≡ inr ops)
validate_operations-describe_example = validate_operations-describe ops

-- The first answer is no JSON, the second one is valid.
abbrev respond : ℕ → Reply
respond zero = replies none
respond (suc n) = replies (some (some (map describe ops)))

second_call : generate_validated_ops respond ≡ (generated ops, 2)
unfolding generate_validated_ops validate_operations
second_call = refl

generate_validated_ops-IsRun_example : IsRun respond max_retries 0 (generate_validated_ops respond)
generate_validated_ops-IsRun_example = generate_validated_ops-IsRun respond

validate_operations-AreWellFormed_example :
    OnRight AreWellFormed (validate_operations (some (map describe ops)))
validate_operations-AreWellFormed_example =
    validate_operations-AreWellFormed (some (map describe ops))
