-- ===== src/Tests/Problems.antt =====
-- The theorems on problem documents, at concrete requests.
use bff.Prelude.{ℕ, Option, none, some, [], ◌∷◌, ◌≡◌, refl, ◌↔◌, arith, pos, map, DistinctBy, All}
use bff.Result.{Error, ok}
use bff.Text.{Text, codes, text_eq}
use bff.Problems.Codes.{problem_code_value, request_validation_failed}
use bff.Problems.Pointer.{
  replace, escape_part, join, name, index, validation_pointer, parse_pointer, part_text,
  parse_pointer-validation_pointer,
}
use bff.Problems.Specs.{problem_specs}
use bff.Problems.Registry.{set_of, validate_problem_registry}
use bff.Problems.Responses.{RequestContext, Response, Extras, plain, problem_response, Headers}
use bff.Problems.Answers.{Reports, Admits, problem_response_iff}
use bff.Problems.Dispatch.{Find, first_registered, keys, respond}
use bff.Problems.Handlers.{domain, http}
use bff.Problems.Statuses.{respond-HasStatus}
use bff.Problems.Http.{Shown, respond-Shown}
use bff.Problems.Validity.{SameMembers, validate_problem_registry_iff}

pointer_example :
    parse_pointer
      (validation_pointer (name (codes "body") ∷ name (codes "a/~b") ∷ index (pos 3) ∷ []))
    ≡ some (map part_text (name (codes "body") ∷ name (codes "a/~b") ∷ index (pos 3) ∷ []))
pointer_example =
    parse_pointer-validation_pointer (name (codes "body"))
      (name (codes "a/~b") ∷ index (pos 3) ∷ [])

pointer_test : validation_pointer (name (codes "a/~b") ∷ index (pos 3) ∷ []) ≡ codes "#/a~1~0b/3"
unfolding validation_pointer join escape_part replace part_text
pointer_test = refl

abbrev context : RequestContext
context = record { request_id = 7; trace_id = none; started_at = 0 }

abbrev teapot : Extras
teapot = record plain { status_override = some 418 }

response_example : Admits (some 418) ↔ (
    (r : Response) × ((problem_response (some context) request_validation_failed teapot ≡ ok r)
      × Reports context request_validation_failed r))
response_example = problem_response_iff context request_validation_failed teapot

abbrev find : Find
find = λ table exc. first_registered table (keys exc)

abbrev same_text : Text → Text
same_text = λ s. s

abbrev no_phrase : ℕ → Option Text
no_phrase = λ status. none

not_found_example :
    (r : Response) × ((respond find same_text no_phrase
          (some context)
          (domain Error.project_not_found)
        ≡ ok r)
      × (r.status_code ≡ 404))
not_found_example =
    respond-HasStatus find (λ table exc. refl) same_text no_phrase context Error.project_not_found

abbrev sent : Headers
sent = (codes "allow", codes "GET") ∷ (codes "x-secret", codes "s") ∷ []

headers_example :
    (r : Response) × ((respond find same_text no_phrase (some context) (http 405 (some sent))
        ≡ ok r)
      × ((r.status_code ≡ 405) × All (Shown same_text sent) r.headers))
headers_example =
    respond-Shown find (λ table exc. refl) same_text no_phrase context 405 (some sent) (omega arith)

registry_example : (validate_problem_registry problem_specs ≡ ok tt) ↔ (
    SameMembers
      (map (λ s. problem_code_value s.1.code) problem_specs)
      (map (λ s. problem_code_value s.0) problem_specs)
    × DistinctBy text_eq (map (λ s. s.1.type_uri) problem_specs))
registry_example = validate_problem_registry_iff problem_specs

registry_test : validate_problem_registry problem_specs ≡ ok tt
unfolding problem_specs validate_problem_registry text_eq set_of
registry_test = refl
