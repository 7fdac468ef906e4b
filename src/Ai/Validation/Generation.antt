-- ===== src/Ai/Validation/Generation.antt =====
-- `generateValidatedOps` of src/ai/ai.service.ts: the model is asked again, with the strict prompt,
-- where its answer is no JSON or does not pass the validation. What it answers is a parameter.
use mathlib.Core.Bool.{true≢false}
use meridian_backend.Prelude.{
  ℕ, zero, suc, ◌+◌, ◌-◌, ◌≤◌, ◌<◌, Bool, true, false, Option, none, some, List, ◌⊎◌, inl, inr, ◌≡◌,
  refl, sym, ap, ◌∙◌, subst, Bool-cases, ==_iff, ◌==◌, arith, Exception,
}
use meridian_backend.Ai.Validation.{Item, ProposedOp, Invalid, validate_operations}

-- A call of the model fails, or its answer is parsed: none where it is no JSON.
pub data Reply : Type 0 where
  call_fails : Exception → Reply
  replies : Option (Option (List Item)) → Reply

pub data Outcome : Type 0 where
  generated : List ProposedOp → Outcome
  format_invalid : Outcome
  call_failed : Exception → Outcome

abbrev pub max_retries : ℕ
max_retries = 2

abbrev pub valid_ops : Invalid ⊎ List ProposedOp → Option (List ProposedOp)
valid_ops (inl e) = none
valid_ops (inr ops) = some ops

abbrev pub parsed_ops : Option (Option (List Item)) → Option (List ProposedOp)
parsed_ops none = none
parsed_ops (some parsed) = valid_ops (validate_operations parsed)

-- One round of the loop, with the number of calls made, and what follows a format failure.
abbrev pub after_parse : Outcome × ℕ → ℕ → Option (List ProposedOp) → Outcome × ℕ
after_parse retry attempt (some ops) = (generated ops, attempt + 1)
after_parse retry attempt none = retry

abbrev pub after_reply : Outcome × ℕ → ℕ → Reply → Outcome × ℕ
after_reply retry attempt (call_fails e) = (call_failed e, attempt + 1)
after_reply retry attempt (replies r) = after_parse retry attempt (parsed_ops r)

module _ (respond : (attempt : ℕ) → Reply) where
  -- The loop from an attempt on, with the retries that are left.
  abbrev pub generate_from : (retries attempt : ℕ) → Outcome × ℕ
  generate_from zero attempt = after_reply (format_invalid, attempt + 1) attempt (respond attempt)
  generate_from (suc retries) attempt =
      let retry = generate_from retries (attempt + 1) in after_reply retry attempt (respond attempt)

  unfoldable pub generate_validated_ops : Outcome × ℕ
  generate_validated_ops = generate_from max_retries 0

-- A reply that the loop does not stop at.
abbrev pub is_rejected_parse : Option (List ProposedOp) → Bool
is_rejected_parse none = true
is_rejected_parse (some ops) = false

abbrev pub is_rejected : Reply → Bool
is_rejected (call_fails e) = false
is_rejected (replies r) = is_rejected_parse (parsed_ops r)

-- What the last reply makes of the loop.
abbrev pub judged_parse : Option (List ProposedOp) → Outcome
judged_parse none = format_invalid
judged_parse (some ops) = generated ops

abbrev pub judged : Reply → Outcome
judged (call_fails e) = call_failed e
judged (replies r) = judged_parse (parsed_ops r)

stopped :
    (retry : Outcome × ℕ) (attempt : ℕ) (r : Reply)
    → is_rejected r ≡ false
    → after_reply retry attempt r ≡ (judged r, attempt + 1)
stopped retry attempt (call_fails e) h = refl
stopped retry attempt (replies r) h = parsed (parsed_ops r) h
  where
    parsed :
        (o : Option (List ProposedOp))
        → is_rejected_parse o ≡ false
        → after_parse retry attempt o ≡ (judged_parse o, attempt + 1)
    parsed none h = absurd (true≢false h)
    parsed (some ops) h = refl

retried :
    (retry : Outcome × ℕ) (attempt : ℕ) (r : Reply)
    → is_rejected r ≡ true
    → (after_reply retry attempt r ≡ retry) × (judged r ≡ format_invalid)
retried retry attempt (call_fails e) h = absurd (true≢false (sym h))
retried retry attempt (replies r) h = parsed (parsed_ops r) h
  where
    parsed :
        (o : Option (List ProposedOp))
        → is_rejected_parse o ≡ true
        → (after_parse retry attempt o ≡ retry) × (judged_parse o ≡ format_invalid)
    parsed none h = (refl, refl)
    parsed (some ops) h = absurd (true≢false (sym h))

module _ (respond : (attempt : ℕ) → Reply) where
  -- The loop from an attempt on has stopped after its last call: all before it were rejected, and
  -- after a last one that is rejected too no retry is left.
  abbrev pub IsRun : (retries attempt : ℕ) → Outcome × ℕ → Type 0
  IsRun retries attempt (outcome, calls) =
      (attempt < calls)
      × (calls ≤ attempt + retries + 1)
      × ((k : ℕ) → attempt ≤ k → k + 1 < calls → is_rejected (respond k) ≡ true)
      × (outcome ≡ judged (respond (calls - 1)))
      × (is_rejected (respond (calls - 1)) ≡ true → calls ≡ attempt + retries + 1)

  last_call : (attempt : ℕ) → respond (attempt + 1 - 1) ≡ respond attempt
  last_call attempt = ap respond (omega arith)

  first-IsRun :
      (retries attempt : ℕ) (outcome : Outcome)
      → outcome ≡ judged (respond attempt)
      → (is_rejected (respond attempt) ≡ true → retries ≡ 0)
      → IsRun retries attempt (outcome, attempt + 1)
  first-IsRun retries attempt outcome same no_retry = (
    omega arith,
    omega arith,
    λ k le lt. absurd (omega (arith, le, lt)),
    same ∙ sym (ap judged (last_call attempt)),
    λ h. omega (arith, no_retry (sym (ap is_rejected (last_call attempt)) ∙ h)),
  )

  later-IsRun :
      (retries attempt : ℕ) (r : Outcome × ℕ)
      → is_rejected (respond attempt) ≡ true
      → IsRun retries (attempt + 1) r
      → IsRun (suc retries) attempt r
  later-IsRun retries attempt (outcome, calls) rejected (after, within, before, result, full) = (
    omega (arith, after),
    omega (arith, within),
    λ k le lt. elim (Bool-cases (k == attempt)) [
      | inl same ↦ ap (λ i. is_rejected (respond i)) ((==_iff k attempt).0 same) ∙ rejected
      | inr other ↦ before k (ground (arith, le, other)) lt
    ],
    result,
    λ h. omega (arith, full h),
  )

  generate_from-IsRun :
      (retries attempt : ℕ) → IsRun retries attempt (generate_from respond retries attempt)
  generate_from-IsRun zero attempt = elim (Bool-cases (is_rejected (respond attempt))) [
    | inl rejected ↦
        subst (IsRun zero attempt)
          (sym (retried (format_invalid, attempt + 1) attempt (respond attempt) rejected).0)
          (first-IsRun zero attempt format_invalid
            (sym (retried (format_invalid, attempt + 1) attempt (respond attempt) rejected).1)
            (λ h. refl))
    | inr taken ↦
        subst (IsRun zero attempt)
          (sym (stopped (format_invalid, attempt + 1) attempt (respond attempt) taken))
          (first-IsRun zero attempt (judged (respond attempt)) refl (λ h. refl))
  ]
  generate_from-IsRun (suc retries) attempt = elim (Bool-cases (is_rejected (respond attempt))) [
    | inl rejected ↦
        subst (IsRun (suc retries) attempt)
          (sym
            (retried (generate_from respond retries (attempt + 1)) attempt (respond attempt)
              rejected).0)
          (later-IsRun retries attempt (generate_from respond retries (attempt + 1)) rejected
            (generate_from-IsRun retries (attempt + 1)))
    | inr taken ↦
        subst (IsRun (suc retries) attempt)
          (sym
            (stopped (generate_from respond retries (attempt + 1)) attempt (respond attempt) taken))
          (first-IsRun (suc retries) attempt (judged (respond attempt)) refl
            (λ h. absurd (true≢false (sym h ∙ taken))))
  ]

  -- The model is called at least once and at most three times, every answer before the last is
  -- rejected, the last one decides the outcome, and where it is rejected too it is the third.
  pub generate_validated_ops-IsRun : IsRun max_retries 0 (generate_validated_ops respond)
  unfolding generate_validated_ops
  generate_validated_ops-IsRun = generate_from-IsRun max_retries 0
