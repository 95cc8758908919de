-- ===== src/Problems/Http.antt =====
-- What the handlers of `HTTPException` answer.
use bff.Prelude.{
  ==_iff, Option-cases, ◌==◌, All-imp, filter-In, Bool-cases, true, ℕ, Option, none, some, [], ◌∷◌,
  ◌≡◌, refl, ◌∙◌, ◌⊎◌, inl, inr, In, All, arith,
}
use bff.Result.{Result, ok, err}
use bff.Text.{Text, text_eq}
use bff.Ids.{uuid_str}
use bff.Problems.Codes.{
  ProblemCode, request_not_found, request_method_not_allowed, request_rejected,
}
use bff.Problems.Specs.{ProblemSpec, problem_specs}
use bff.Problems.Registry.{spec_of}
use bff.Problems.Responses.{
  RequestContext, Response, Headers, Extras, set_header, request_id_header, or_status,
  problem_response,
}
use bff.Problems.Answers.{InRange, Admits, answer, problem_response-answers}
use bff.Problems.Handlers.{
  title_of, is_allowed, safe_framework_headers, http, http_exception_handler,
}
use bff.Problems.Dispatch.{Find, ByKeys, respond, first_registered, registered}
use bff.Problems.Statuses.{first_response, respond-first_response}

module _ (casefold : Text → Text) (raised : Headers) where
  -- The header with the request's id, or one of the exception's that may be shown
  abbrev pub Shown : Text × Text → Type 0
  Shown h = (h.0 ≡ request_id_header) ⊎ (In h raised × (is_allowed casefold h.0 ≡ true))

  set_header-Shown :
      (value : Text) (headers : Headers)
      → All (λ h. (is_allowed casefold h.0 ≡ true) × In h raised) headers
      → All Shown (set_header request_id_header value headers)
  unfolding set_header
  set_header-Shown value [] h = (inl refl, tt)
  set_header-Shown value (x ∷ headers) h = elim (Bool-cases (text_eq x.0 request_id_header)) [
    | inl e ↦ rw e (inl refl, All-imp _ _ headers (λ y p. inr (p.1, p.0)) h.1)
    | inr e ↦ rw e (inr (h.0.1, h.0.0), set_header-Shown value headers h.1)
  ]

abbrev pub headers_of : Option Headers → Headers
headers_of none = []
headers_of (some headers) = headers

safe_framework_headers-All :
    (casefold : Text → Text) (status : ℕ) (headers : Option Headers)
    → All
        (λ h. (is_allowed casefold h.0 ≡ true) × In h (headers_of headers))
        (safe_framework_headers casefold (http status headers))
unfolding safe_framework_headers
safe_framework_headers-All casefold status none = tt
safe_framework_headers-All casefold status (some headers) =
    filter-In (λ h. is_allowed casefold h.0) headers

abbrev status_of : Result ProblemSpec → ℕ
status_of (err e) = 0
status_of (ok spec) = spec.status

module _ (casefold : Text → Text) (phrase : ℕ → Option Text) (context : RequestContext) (status : ℕ)
    (headers : Option Headers) where
  abbrev pub IsShown : Result Response → Type 0
  IsShown result =
      (r : Response) × ((result ≡ ok r)
        × ((r.status_code ≡ status) × All (Shown casefold (headers_of headers)) r.headers))

  safe_response-IsShown :
      (code : ProblemCode) (override : Option ℕ) (title : Option Text)
      → Admits override
      → or_status override (status_of (spec_of problem_specs code)) ≡ status
      → IsShown (
          problem_response (some context) code (record {
            errors = none;
            headers = safe_framework_headers casefold (http status headers);
            status_override = override;
            title_override = title;
          }))
  unfolding answer
  safe_response-IsShown code override title admits same =
      let extras : Extras = record {
        errors = none;
        headers = safe_framework_headers casefold (http status headers);
        status_override = override;
        title_override = title;
      } in
      let (spec, (found, (answers, _))) = problem_response-answers context code extras admits in
      (
        answer context code extras spec,
        (
          answers,
          (
            rw found at same,
            set_header-Shown casefold (headers_of headers) (uuid_str context.request_id)
                (safe_framework_headers casefold (http status headers))
                (safe_framework_headers-All casefold status headers),
          ),
        ),
      )

  http_exception_handler-IsShown :
      InRange status
      → IsShown (http_exception_handler casefold phrase (some context) (http status headers))
  unfolding http_exception_handler title_of problem_specs spec_of text_eq
  http_exception_handler-IsShown range = elim (Option-cases (phrase status)) [
    | inl e ↦
        rw e (safe_response-IsShown request_rejected (some status) _ (inr range) (ground arith))
    | inr (t, e) ↦
        rw e
          (safe_response-IsShown request_rejected (some status) (some t) (inr range) (ground arith))
  ]

  first_response-IsShown :
      InRange status → IsShown (first_response casefold phrase context (http status headers))
  unfolding first_registered registered problem_specs spec_of text_eq
  first_response-IsShown range = elim (Bool-cases (status == 404)) [
    | inl e ↦ rw e (
        safe_response-IsShown request_not_found none none tt
          (omega (arith, (==_iff status 404).0 e)))
    | inr e ↦ elim (Bool-cases (status == 405)) [
      | inl q ↦
          rw (e, q)
            (safe_response-IsShown request_method_not_allowed none none tt
              (omega (arith, (==_iff status 405).0 q)))
      | inr q ↦ rw (e, q) (http_exception_handler-IsShown range)
    ]
  ]

-- An `HTTPException` whose status is from 100 to 599 is answered with that status, and with no
-- header but the request's id and those of the exception's that are allowed, given the request's
-- context and a framework that looks handlers up in its documented order.
pub respond-Shown :
    (find : Find)
    → ByKeys find
    → (casefold : Text → Text) (phrase : ℕ → Option Text) (context : RequestContext) (status : ℕ)
      (headers : Option Headers)
    → InRange status
    → (r : Response) × ((respond find casefold phrase (some context) (http status headers) ≡ ok r)
        × ((r.status_code ≡ status) × All (Shown casefold (headers_of headers)) r.headers))
respond-Shown find by_keys casefold phrase context status headers range =
    let (r, (h, shown)) = first_response-IsShown casefold phrase context status headers range in
    (
      r,
      (
        respond-first_response find by_keys casefold phrase context (http status headers) ∙ h,
        shown,
      ),
    )
