-- ===== src/Problems/Refusals.antt =====
-- The answers to the exceptions of the application, and not of the framework.
use bff.Prelude.{ℕ, ◌≤◌, Option, none, some, List, map, ◌≡◌, sym, [], ◌∙◌, arith, All}
use mathlib.Core.Path.{subst}
use bff.Result.{Error, Result, ok, ok-injective}
use bff.Text.{Text}
use bff.Problems.Codes.{ProblemCode, request_validation_failed}
use bff.Problems.Specs.{ProblemSpec, problem_specs}
use bff.Problems.Registry.{spec_of-All, is_listed}
use bff.Problems.Responses.{
  RequestContext, Response, Extras, ValidationIssue, Headers, plain, problem_response,
}
use bff.Problems.Answers.{answer, problem_response-answers}
use bff.Problems.Handlers.{Raised, problem, domain, invalid_request, http, issue}
use bff.Problems.Dispatch.{Find, ByKeys, respond, first_registered, registered}
use bff.Problems.Statuses.{public_status, first_response, respond-first_response, respond-HasStatus}

-- An exception of the application, and not of the framework
abbrev pub IsOurs : Raised → Type 0
IsOurs (http status headers) = ⊥
IsOurs _ = Unit

-- A status that tells an error
abbrev pub IsErrorStatus : ℕ → Type 0
IsErrorStatus s = (400 ≤ s) × (s ≤ 599)

problem_specs-IsErrorStatus : All (λ s. IsErrorStatus s.1.status) problem_specs
unfolding problem_specs
problem_specs-IsErrorStatus = omega arith

public_status-IsErrorStatus : (e : Error) → IsErrorStatus (public_status e)
public_status-IsErrorStatus e = ground arith

-- A result that is a response with such a status
abbrev pub Refuses : Result Response → Type 0
Refuses result = (r : Response) × ((result ≡ ok r) × IsErrorStatus r.status_code)

problem_response-Refuses :
    (context : RequestContext) (code : ProblemCode) (errors : Option (List ValidationIssue))
    (headers : Headers)
    → Refuses
        (problem_response (some context) code (record plain { errors = errors; headers = headers }))
unfolding answer
problem_response-Refuses context code errors headers =
    let extras : Extras = record plain { errors = errors; headers = headers } in
    let (spec, (found, (answers, _))) = problem_response-answers context code extras tt in
    let (s, (_, (same, h))) =
      spec_of-All (λ s. IsErrorStatus s.1.status) problem_specs code problem_specs-IsErrorStatus
        (is_listed code) in
    let equal : s.1 ≡ spec = ok-injective (sym same ∙ found) in
    (
      answer context code extras spec,
      (answers, subst (λ (x : ProblemSpec). IsErrorStatus x.status) equal h),
    )

module _ (find : Find) (by_keys : ByKeys find) (casefold : Text → Text) (phrase : ℕ → Option Text)
    (context : RequestContext) where
  found-Refuses :
      (exc : Raised)
      → Refuses (first_response casefold phrase context exc)
      → Refuses (respond find casefold phrase (some context) exc)
  found-Refuses exc (r, (h, status)) =
      (r, (respond-first_response find by_keys casefold phrase context exc ∙ h, status))

  -- Whatever the application raises is answered with a status from 400 to 599.
  pub respond-Refuses :
      (exc : Raised) → IsOurs exc → Refuses (respond find casefold phrase (some context) exc)
  unfolding first_registered registered
  respond-Refuses (problem code headers) ours =
      found-Refuses (problem code headers) (problem_response-Refuses context code none headers)
  respond-Refuses (domain e) ours =
      let (r, (h, same)) = respond-HasStatus find by_keys casefold phrase context e in
      (r, (h, rw same (public_status-IsErrorStatus e)))
  respond-Refuses (invalid_request errors) ours =
      found-Refuses (invalid_request errors)
        (problem_response-Refuses context request_validation_failed (some (map issue errors)) [])
  respond-Refuses (http status headers) ours = elim ours [ ]
