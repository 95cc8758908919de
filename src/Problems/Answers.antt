-- ===== src/Problems/Answers.antt =====
-- What `_problem_response` answers for every code.
use bff.Prelude.{
  false, ◌∙◌, ◌||◌, true, ℕ, pos, ◌≤◌, ◌⊎◌, inl, inr, Option, none, some, [], ◌∷◌, ◌≡◌, ◌↔◌, refl,
  sym, arith, ltb, All, if◌then◌else◌, Bool-cases,
}
use bff.Text.{Text, codes, text_eq, text_eq_iff}
use bff.Ids.{uuid_str}
use bff.Json.{member, int, str}
use bff.Result.{guard_ok, value_error, Error, Result, ok, err}
use bff.Problems.Codes.{ProblemCode, problem_code_value}
use bff.Problems.Specs.{ProblemSpec, problem_specs}
use bff.Problems.Registry.{spec_of, spec_of-All, is_listed}
use bff.Problems.Responses.{
  Headers, RequestContext, Response, Extras, or_status, set_header, request_id_header,
  problem_response, detail_of, model_dump,
}

-- The statuses that the schema of a problem admits
abbrev pub InRange : ℕ → Type 0
InRange s = (100 ≤ s) × (s ≤ 599)

-- An override that is in range, or that `or` passes over
abbrev pub Admits : Option ℕ → Type 0
Admits none = Unit {0}
Admits (some s) = (s ≡ 0) ⊎ InRange s

abbrev pub get_header : Text → Headers → Option Text
get_header name [] = none
get_header name (h ∷ headers) = if text_eq h.0 name then some h.1 else get_header name headers

-- The response agrees with its document, and names the request.
pub record Reports (context : RequestContext) (code : ProblemCode) (r : Response) : Type 0 where
  pub in_range : InRange r.status_code
  pub status : member (codes "status") r.content ≡ some (int (pos r.status_code))
  pub code_value : member (codes "code") r.content ≡ some (str (problem_code_value code))
  pub request_id : member (codes "request_id") r.content ≡ some (str (uuid_str context.request_id))
  pub header : get_header request_id_header r.headers ≡ some (uuid_str context.request_id)

problem_specs-InRange : All (λ s. InRange s.1.status) problem_specs
unfolding problem_specs
problem_specs-InRange = omega arith

text_eq_refl : (s : Text) → text_eq s s ≡ true
text_eq_refl s = (text_eq_iff s s).1 refl

set_header-get_header :
    (name value : Text) (headers : Headers)
    → get_header name (set_header name value headers) ≡ some value
unfolding set_header
set_header-get_header name value [] = rw (text_eq_refl name) refl
set_header-get_header name value (h ∷ headers) = elim (Bool-cases (text_eq h.0 name)) [
  | inl e ↦ rw (e, text_eq_refl name) refl
  | inr e ↦ rw (e, e) (set_header-get_header name value headers)
]

or_status-InRange : (o : Option ℕ) (s : ℕ) → InRange s → Admits o ↔ InRange (or_status o s)
or_status-InRange none s h = (λ _. h, λ _. tt)
or_status-InRange (some t) s h = ground arith

module _ (s : ℕ) (a r : Response) where
  abbrev guarded : Result Response
  guarded = if ltb s 100 || ltb 599 s then err Error.value_error else ok a

  InRange-ok : InRange s → guarded ≡ ok a
  InRange-ok h = let test : (ltb s 100 || ltb 599 s) ≡ false = ground arith in rw test refl

  ok-InRange : guarded ≡ ok r → InRange s
  ok-InRange h =
      let (test, _) = guard_ok (ltb s 100 || ltb 599 s) Error.value_error (ok a) r h in ground arith

module _ (context : RequestContext) (code : ProblemCode) (extras : Extras)
    (spec : ProblemSpec) where
  unfoldable pub answer : Response
  answer = record {
    status_code = or_status extras.status_override spec.status;
    content = model_dump (detail_of context spec code extras);
    headers = set_header request_id_header (uuid_str context.request_id) extras.headers;
    media_type = codes "application/problem+json";
  }

  problem_response-answer :
      spec_of problem_specs code ≡ ok spec
      → problem_response (some context) code extras ≡ (
          if ltb (or_status extras.status_override spec.status) 100
            || ltb 599 (or_status extras.status_override spec.status)
          then err value_error
          else ok answer)
  unfolding problem_response answer
  problem_response-answer h =
      rw h
        (elim (Bool-cases (
          ltb (or_status extras.status_override spec.status) 100
          || ltb 599 (or_status extras.status_override spec.status))) [
            | inl e ↦ rw e refl
            | inr e ↦ rw e refl
          ])

  answer-Reports :
      InRange (or_status extras.status_override spec.status) → Reports context code answer
  unfolding answer model_dump text_eq
  answer-Reports h = record {
    in_range = h;
    status = refl;
    code_value = refl;
    request_id = refl;
    header = set_header-get_header _ _ extras.headers;
  }

-- What is answered when the status is admitted
pub problem_response-answers :
    (context : RequestContext) (code : ProblemCode) (extras : Extras)
    → Admits extras.status_override
    → (spec : ProblemSpec) × ((spec_of problem_specs code ≡ ok spec)
        × ((problem_response (some context) code extras ≡ ok (answer context code extras spec))
            × Reports context code (answer context code extras spec)))
problem_response-answers context code extras admits =
    let (s, (_, (found, h))) =
      spec_of-All (λ s. InRange s.1.status) problem_specs code problem_specs-InRange
        (is_listed code) in
    let status = or_status extras.status_override s.1.status in
    let range = (or_status-InRange extras.status_override s.1.status h).0 admits in
    let whole = answer context code extras s.1 in
    (
      s.1,
      (
        found,
        (
          problem_response-answer context code extras s.1 found
              ∙ InRange-ok status whole whole range,
          answer-Reports context code extras s.1 range,
        ),
      ),
    )

-- With the context of the request, `_problem_response` answers for every code, whose document then
-- has the status of the response, the code and the request, exactly when the status that overrides
-- the registry's is absent, 0 or from 100 to 599.
pub problem_response_iff :
    (context : RequestContext) (code : ProblemCode) (extras : Extras)
    → Admits extras.status_override ↔ (
        (r : Response) × ((problem_response (some context) code extras ≡ ok r)
          × Reports context code r))
problem_response_iff context code extras =
    let (s, (_, (found, h))) =
      spec_of-All (λ s. InRange s.1.status) problem_specs code problem_specs-InRange
        (is_listed code) in
    let status = or_status extras.status_override s.1.status in
    let range = or_status-InRange extras.status_override s.1.status h in
    let step = problem_response-answer context code extras s.1 found in
    (
      λ admits.
          (let (spec, (_, h)) = problem_response-answers context code extras admits in
            (answer context code extras spec, h)),
      λ r. range.1 (ok-InRange status (answer context code extras s.1) r.0 (sym step ∙ r.1.0)),
    )
