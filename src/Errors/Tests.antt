-- ===== src/Errors/Tests.antt =====
-- The filter at concrete errors.
use meridian_backend.Prelude.{some, [], ◌∷◌, ◌≡◌, true, refl}
use meridian_backend.Errors.{Thrown, http, attached, coded, classify, is_logged, other}
use meridian_backend.Errors.Responses.{IsAnswer, classify-IsAnswer}

unique_violation : (classify (coded "23505")).status_code ≡ 409
unfolding classify
unique_violation = refl

unknown_is_logged : is_logged (classify other) ≡ true
unfolding classify
unknown_is_logged = refl

-- A refusal of a guard.
abbrev refusal : Thrown
refusal =
    http 403 (attached (some ("Insufficient permissions" ∷ [])) (some "Forbidden") []) "Forbidden"

classify-IsAnswer_example : IsAnswer refusal (classify refusal)
classify-IsAnswer_example = classify-IsAnswer refusal
