-- ===== src/Problems/Responses.antt =====
-- `_problem_response` of api/problems/handlers.py, api/problems/schemas.py and api/context.py. A
-- context that the middleware has not set is `none`.
use bff.Prelude.{
  ℕ, pos, Bool, ◌||◌, ltb, ◌==◌, if◌then◌else◌, Option, none, some, List, [], ◌∷◌, ◌++◌, map,
}
use bff.Result.{Error, Result, ok, err, ◌>>=◌}
use bff.Text.{Text, codes, text_eq}
use bff.Ids.{uuid_str}
use bff.Json.{Json, bool, int, str, arr, obj, JsonObject, Fields, end, field, items}
use bff.Problems.Codes.{ProblemCode, ValidationIssueCode, problem_code_value, issue_code_value}
use bff.Problems.Specs.{ProblemSpec, problem_specs}
use bff.Problems.Registry.{spec_of}

abbrev pub Headers : Type 0
Headers = List (Text × Text)

-- `headers[name] = value`: a name keeps its place.
unfoldable pub set_header : Text → Text → Headers → Headers
set_header name value [] = (name, value) ∷ []
set_header name value (h ∷ headers) =
    if text_eq h.0 name then (name, value) ∷ headers else h ∷ set_header name value headers

-- `RequestContext`
pub record RequestContext : Type 0 where
  pub request_id : ℕ
  pub trace_id : Option Text
  pub started_at : ℕ

abbrev pub require_request_context : Option RequestContext → Result RequestContext
require_request_context none = err Error.runtime_error
require_request_context (some context) = ok context

pub record ValidationIssue : Type 0 where
  pub pointer : Text
  pub code : ValidationIssueCode
  pub detail : Text

-- `ProblemDetail`, whose status pydantic validates.
pub record ProblemDetail : Type 0 where
  pub type_uri : Text
  pub title : Text
  pub status : ℕ
  pub detail : Text
  pub instance_uri : Text
  pub code : ProblemCode
  pub request_id : Text
  pub retryable : Option Bool
  pub errors : Option (List ValidationIssue)

abbrev pub validated : ProblemDetail → Result ProblemDetail
validated p = if ltb p.status 100 || ltb 599 p.status then err Error.value_error else ok p

-- `problem.model_dump(mode="json", exclude_none=True)`
abbrev pub dump_issue : ValidationIssue → Json
dump_issue i = obj (
    field (codes "pointer") (str i.pointer) (
      field (codes "code") (str (issue_code_value i.code))
        (field (codes "detail") (str i.detail) end)))

abbrev pub dump_errors : Option (List ValidationIssue) → Fields
dump_errors none = end
dump_errors (some errors) = field (codes "errors") (arr (items (map dump_issue errors))) end

abbrev pub dump_retryable : Option Bool → Fields → Fields
dump_retryable none rest = rest
dump_retryable (some b) rest = field (codes "retryable") (bool b) rest

unfoldable pub model_dump : ProblemDetail → JsonObject
model_dump p = field (codes "type") (str p.type_uri) (
    field (codes "title") (str p.title) (
      field (codes "status") (int (pos p.status)) (
        field (codes "detail") (str p.detail) (
          field (codes "instance") (str p.instance_uri) (
            field (codes "code") (str (problem_code_value p.code)) (
              field (codes "request_id") (str p.request_id)
                (dump_retryable p.retryable (dump_errors p.errors))))))))

-- `JSONResponse`
pub record Response : Type 0 where
  pub status_code : ℕ
  pub content : JsonObject
  pub headers : Headers
  pub media_type : Text

-- The arguments of `_problem_response` that have defaults
pub record Extras : Type 0 where
  pub errors : Option (List ValidationIssue)
  pub headers : Headers
  pub status_override : Option ℕ
  pub title_override : Option Text

abbrev pub plain : Extras
plain = record { errors = none; headers = []; status_override = none; title_override = none }

-- `status_override or spec.status`, where 0 is false
abbrev pub or_status : Option ℕ → ℕ → ℕ
or_status none status = status
or_status (some override) status = if override == 0 then status else override

-- `title_override or spec.title`
abbrev pub or_title : Option Text → Text → Text
or_title none title = title
or_title (some []) title = title
or_title (some (c ∷ s)) title = c ∷ s

abbrev pub request_id_header : Text
request_id_header = codes "X-Request-ID"

abbrev pub detail_of : RequestContext → ProblemSpec → ProblemCode → Extras → ProblemDetail
detail_of context spec code extras = record {
  type_uri = spec.type_uri;
  title = or_title extras.title_override spec.title;
  status = or_status extras.status_override spec.status;
  detail = spec.detail;
  instance_uri = codes "urn:uuid:" ++ uuid_str context.request_id;
  code = code;
  request_id = uuid_str context.request_id;
  retryable = spec.retryable;
  errors = extras.errors;
}

unfoldable pub problem_response : Option RequestContext → ProblemCode → Extras → Result Response
problem_response request code extras = do
  context ← require_request_context request
  spec ← spec_of problem_specs code
  problem ← validated (detail_of context spec code extras)
  ok (record {
    status_code = or_status extras.status_override spec.status;
    content = model_dump problem;
    headers = set_header request_id_header (uuid_str context.request_id) extras.headers;
    media_type = codes "application/problem+json";
  })
