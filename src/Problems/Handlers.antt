-- ===== src/Problems/Handlers.antt =====
-- The handlers of api/problems/handlers.py and their registration. The framework's lookup of the
-- handler is an argument; the log record of `_internal_error_handler` is left out.
use bff.Prelude.{ℕ, Bool, if◌then◌else◌, Option, none, some, List, [], ◌∷◌, map, filter, any}
use bff.Result.{Error, Result, ok, err, ◌>>=◌}
use bff.Text.{Text, codes, text_eq}
use bff.Problems.Codes.{
  ProblemCode, ValidationIssueCode, auth_invalid_credentials, request_validation_failed,
  request_rejected, required, invalid_json, invalid_value,
}
use bff.Problems.Pointer.{Part, validation_pointer}
use bff.Problems.Specs.{problem_specs}
use bff.Problems.Registry.{spec_of}
use bff.Problems.Responses.{
  Headers, RequestContext, ValidationIssue, Response, plain, problem_response,
}

-- A part of `loc` of an error that pydantic reports
pub data RawPart : Type 0 where
  part : Part → RawPart
  other_part : RawPart

-- An item of `exc.errors()`
pub record RequestError : Type 0 where
  pub loc : List RawPart
  pub error_type : Text

-- An exception that reaches the framework: `ProblemException`, one of the domain's or another one,
-- `RequestValidationError`, and `HTTPException`, whose headers are `none` if they are no dict.
pub data Raised : Type 0 where
  problem : ProblemCode → Headers → Raised
  domain : Error → Raised
  invalid_request : List RequestError → Raised
  http : ℕ → Option Headers → Raised

module _ (casefold : Text → Text) where
  abbrev pub is_allowed : Text → Bool
  is_allowed name =
      any (text_eq (casefold name))
        (codes "allow" ∷ codes "retry-after" ∷ codes "www-authenticate" ∷ [])

  unfoldable pub safe_framework_headers : Raised → Headers
  safe_framework_headers (problem code headers) = filter (λ h. is_allowed h.0) headers
  safe_framework_headers (http status (some headers)) = filter (λ h. is_allowed h.0) headers
  safe_framework_headers _ = []

abbrev pub validation_issue_code : Text → ValidationIssueCode
validation_issue_code error_type =
    if text_eq error_type (codes "missing")
    then required
    else if text_eq error_type (codes "json_invalid")
    then invalid_json
    else invalid_value

abbrev pub validation_issue_detail : ValidationIssueCode → Text
validation_issue_detail required = codes "Field is required."
validation_issue_detail invalid_json = codes "Request body is not valid JSON."
validation_issue_detail invalid_value = codes "Value is invalid."

-- `typed_location`
abbrev pub typed_location : List RawPart → List Part
typed_location [] = []
typed_location (part p ∷ loc) = p ∷ typed_location loc
typed_location (other_part ∷ loc) = typed_location loc

unfoldable pub issue : RequestError → ValidationIssue
issue error =
    let issue_code = validation_issue_code error.error_type in
    record {
      pointer = validation_pointer (typed_location error.loc);
      code = issue_code;
      detail = validation_issue_detail issue_code;
    }

abbrev pub Handler : Type 0
Handler = Option RequestContext → Raised → Result Response

abbrev pub problem_exception_handler : Handler
problem_exception_handler request (problem code headers) =
    problem_response request code (record plain { headers = headers })
problem_exception_handler request _ = err Error.type_error

abbrev pub invalid_authentication_handler : Handler
invalid_authentication_handler request exc =
    problem_response request auth_invalid_credentials
      (record plain { headers = (codes "WWW-Authenticate", codes "Bearer") ∷ [] })

-- A handler that answers with one code, whatever the exception
abbrev pub code_handler : ProblemCode → Handler
code_handler code request exc = problem_response request code plain

abbrev pub validation_handler : Handler
validation_handler request (invalid_request errors) =
    problem_response request request_validation_failed
      (record plain { errors = some (map issue errors) })
validation_handler request _ = err Error.type_error

-- `casefold` is that of `str`, and `phrase` the table of `HTTPStatus`.
module _ (casefold : Text → Text) where
  abbrev pub framework_handler : ProblemCode → Handler
  framework_handler code request exc =
      problem_response request code (record plain { headers = safe_framework_headers casefold exc })

-- The phrase of a status, or else the title of the problem
unfoldable pub title_of : Option Text → Result Text
title_of (some title) = ok title
title_of none = do spec ← spec_of problem_specs request_rejected; ok spec.title

module _ (casefold : Text → Text) (phrase : ℕ → Option Text) where
  unfoldable pub http_exception_handler : Handler
  http_exception_handler request (http status headers) = do
    title ← title_of (phrase status)
    problem_response request request_rejected (record {
      errors = none;
      headers = safe_framework_headers casefold (http status headers);
      status_override = some status;
      title_override = some title;
    })
  http_exception_handler request _ = err Error.type_error
