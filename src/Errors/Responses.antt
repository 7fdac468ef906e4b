-- ===== src/Errors/Responses.antt =====
-- What a response gives away.
use meridian_backend.Prelude.{
  ◌<◌, ◌≤◌, String, [], ◌∷◌, ◌≡◌, ◌⊎◌, inl, inr, refl, arith, str_eq, starts_with, if_both,
}
use meridian_backend.Errors.{
  Thrown, plain, attached, http, content_existence, reconfirm, proposal_gone, scope, validation,
  coded, other, ErrorBody, internal_error_body, classify_pg_error, classify, reason_phrase,
}

-- Its status is that of an error of the caller, or the body is the one that says nothing; the error
-- is the phrase of the status.
abbrev pub IsDiscreet : ErrorBody → Type 0
IsDiscreet body =
    (body.error ≡ reason_phrase body.status_code)
    × (((400 ≤ body.status_code) × (body.status_code < 500)) ⊎ (body ≡ internal_error_body))

-- What the response must be: an exception of NestJS keeps its status and its further fields, any
-- other error gets a discreet one.
abbrev pub IsAnswer : Thrown → ErrorBody → Type 0
IsAnswer (http status (plain response) message) body =
    (body.status_code ≡ status) × (body.message ≡ response ∷ [])
IsAnswer (http status (attached given error details) message) body =
    (body.status_code ≡ status) × (body.details ≡ details)
IsAnswer _ body = IsDiscreet body

classify_pg_error-IsDiscreet : (code : String) → IsDiscreet (classify_pg_error code)
classify_pg_error-IsDiscreet code =
    if_both IsDiscreet (str_eq code "23505") _ _ (refl, inl (omega arith, omega arith))
      (if_both IsDiscreet (str_eq code "23503") _ _ (refl, inl (omega arith, omega arith))
        (if_both IsDiscreet (str_eq code "23502") _ _ (refl, inl (omega arith, omega arith))
          (refl, inl (omega arith, omega arith))))

-- An HttpException keeps its status, and with it its message where it carries a string, or its
-- further fields where it carries an object. The response to anything else has a status between 400
-- and 499, or is the internal error that says nothing of its cause; its error is the phrase of its
-- status.
pub classify-IsAnswer : (e : Thrown) → IsAnswer e (classify e)
unfolding classify
classify-IsAnswer (http status (plain response) message) = (refl, refl)
classify-IsAnswer (http status (attached m er ds) message) = (refl, refl)
classify-IsAnswer (content_existence index expected actual) = (refl, inl (omega arith, omega arith))
classify-IsAnswer (reconfirm before after index expected actual) =
    (refl, inl (omega arith, omega arith))
classify-IsAnswer proposal_gone = (refl, inl (omega arith, omega arith))
classify-IsAnswer (scope reason) = (refl, inl (omega arith, omega arith))
classify-IsAnswer (validation reason) = (refl, inl (omega arith, omega arith))
classify-IsAnswer (coded code) =
    if_both IsDiscreet (starts_with code "23") (classify_pg_error code) internal_error_body
      (classify_pg_error-IsDiscreet code) (refl, inr refl)
classify-IsAnswer other = (refl, inr refl)
