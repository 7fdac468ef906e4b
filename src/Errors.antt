-- ===== src/Errors.antt =====
-- src/common/filters/global-exception.filter.ts: the response to what a request throws, the errors
-- of src/ai/errors included.
mod Responses
mod Tests
use meridian_backend.Prelude.{
  ℕ, String, Bool, true, false, Option, none, some, List, [], ◌∷◌, ◌++◌, get_or, leb, if◌then◌else◌,
  ◌==◌, str_eq, starts_with,
}

-- A field of a response besides its message and status.
pub data Detail : Type 0 where
  text_detail : String → Detail
  number_detail : ℕ → Detail
  flag_detail : Bool → Detail
  diff_detail : (before after : String) → Detail

-- What an HttpException carries: a string, or an object with a message, an error and other fields.
pub data HttpResponse : Type 0 where
  plain : String → HttpResponse
  attached :
      (message : Option (List String))
      → (error : Option String) → List (String × Detail)
      → HttpResponse

-- What a request throws: an HttpException, an error of the AI pipeline, an object with a code, or
-- anything else.
pub data Thrown : Type 0 where
  http : (status : ℕ) → HttpResponse → (message : String) → Thrown
  content_existence : (index : ℕ) → (expected actual : String) → Thrown
  reconfirm : (before after : String) → (index : ℕ) → (expected actual : String) → Thrown
  proposal_gone : Thrown
  scope : (reason : String) → Thrown
  validation : (reason : String) → Thrown
  coded : (code : String) → Thrown
  other : Thrown

-- A message is a list of one or more strings.
pub record ErrorBody : Type 0 where
  pub status_code : ℕ
  pub message : List String
  pub error : String
  pub details : List (String × Detail)

abbrev pub reason_phrase : ℕ → String
reason_phrase status =
    if status == 400
    then "Bad Request"
    else if status == 401
    then "Unauthorized"
    else if status == 403
    then "Forbidden"
    else if status == 404
    then "Not Found"
    else if status == 409
    then "Conflict"
    else if status == 410
    then "Gone"
    else if status == 422
    then "Unprocessable Entity"
    else if status == 429
    then "Too Many Requests"
    else if status == 500
    then "Internal Server Error"
    else "Error"

abbrev pub bare : ℕ → String → ErrorBody
bare status message = record {
  status_code = status;
  message = message ∷ [];
  error = reason_phrase status;
  details = [];
}

abbrev pub detailed : ℕ → String → List (String × Detail) → ErrorBody
detailed status message details = record (bare status message) { details = details }

abbrev pub internal_error_body : ErrorBody
internal_error_body = record {
  status_code = 500;
  message = "Internal server error" ∷ [];
  error = "Internal Server Error";
  details = [];
}

abbrev pub pg_body : ℕ → String → String → ErrorBody
pg_body status message error = record {
  status_code = status;
  message = message ∷ [];
  error = error;
  details = [];
}

abbrev pub classify_pg_error : String → ErrorBody
classify_pg_error code =
    if str_eq code "23505"
    then pg_body 409 "Resource already exists" "Conflict"
    else if str_eq code "23503"
    then pg_body 400 "Referenced resource does not exist" "Bad Request"
    else if str_eq code "23502"
    then pg_body 400 "A required field is missing" "Bad Request"
    else pg_body 400 "Database constraint violation" "Bad Request"

abbrev pub classify_http : ℕ → String → HttpResponse → ErrorBody
classify_http status message (plain response) = bare status response
classify_http status message (attached given error details) = record {
  status_code = status;
  message = get_or given (message ∷ []);
  error = get_or error (reason_phrase status);
  details = details;
}

-- `isPgConstraintError` is a test of the prefix of the code.
unfoldable pub classify : Thrown → ErrorBody
classify (http status response message) = classify_http status message response
classify (content_existence index expected actual) =
    detailed 409 "Referenced text has changed; author confirmation required" (
      ("check", text_detail "content_existence")
      ∷ ("operation_index", number_detail index)
      ∷ ("expected_text", text_detail expected)
      ∷ ("actual_text", text_detail actual)
      ∷ [])
classify (reconfirm before after index expected actual) =
    detailed 409 "Document has changed since this proposal was generated" (
      ("check", text_detail "content_existence")
      ∷ ("requires_confirmation", flag_detail true)
      ∷ ("diff", diff_detail before after)
      ∷ ("operation_index", number_detail index)
      ∷ ("expected_text", text_detail expected)
      ∷ ("actual_text", text_detail actual)
      ∷ [])
classify proposal_gone = bare 410 "This proposal no longer exists; ask the AI again"
classify (scope reason) =
    detailed 422 reason (("check", text_detail "scope") ∷ ("reason", text_detail reason) ∷ [])
classify (validation reason) = detailed 400 reason (("reason", text_detail reason) ∷ [])
classify (coded code) =
    if starts_with code "23" then classify_pg_error code else internal_error_body
classify other = internal_error_body

-- `catch`: the failures that are logged.
abbrev pub is_logged : ErrorBody → Bool
is_logged body = leb 500 body.status_code
