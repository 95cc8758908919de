-- ===== src/Problems/Registry.antt =====
-- The lookup of a spec and `validate_problem_registry` of api/problems/registry.py.
use bff.Prelude.{
  inr, inl, ◌==◌, Bool-cases, All, ◌&&◌, Bool, true, List, [], ◌∷◌, map, any, all, not, length,
  if◌then◌else◌, ◌≡◌, refl,
}
use bff.Result.{runtime_error, key_error, Result, ok, err}
use bff.Text.{Text, text_eq}
use bff.Problems.Specs.{ProblemSpec, problem_specs}
use bff.Problems.Codes.{
  ProblemCode, auth_invalid_credentials, auth_email_verification_required,
  auth_account_link_required, auth_provider_unavailable, workspace_not_found,
  workspace_permission_denied, workspace_not_active, project_not_found, connection_not_found,
  connection_state_conflict, request_validation_failed, request_not_found,
  request_method_not_allowed, request_rejected, internal_error, problem_code_value, same_code,
}

-- `specs[code]`
unfoldable pub spec_of : List (ProblemCode × ProblemSpec) → ProblemCode → Result ProblemSpec
spec_of [] code = err key_error
spec_of (s ∷ specs) code = if same_code s.0 code then ok s.1 else spec_of specs code

-- The items of `set(xs)`, each once
unfoldable pub set_of : List Text → List Text
set_of [] = []
set_of (x ∷ xs) = if any (text_eq x) xs then set_of xs else x ∷ set_of xs

abbrev pub subset : List Text → List Text → Bool
subset xs ys = all (λ x. any (text_eq x) ys) xs

unfoldable pub validate_problem_registry : List (ProblemCode × ProblemSpec) → Result (Unit {0})
validate_problem_registry specs =
    let keys = map (λ s. problem_code_value s.0) specs in
    let spec_codes = map (λ s. problem_code_value s.1.code) specs in
    let type_uris = set_of (map (λ s. s.1.type_uri) specs) in
    if not (subset spec_codes keys && subset keys spec_codes)
    then err runtime_error
    else if not (length type_uris == length specs)
    then err runtime_error
    else ok tt

-- What holds of every spec of a registry holds of the spec that is found.
pub spec_of-All :
    (P : ProblemCode × ProblemSpec → Type 0) (specs : List (ProblemCode × ProblemSpec))
    (c : ProblemCode)
    → All P specs
    → any (λ s. same_code s.0 c) specs ≡ true
    → (s : ProblemCode × ProblemSpec) × ((same_code s.0 c ≡ true)
        × ((spec_of specs c ≡ ok s.1) × P s))
unfolding spec_of
spec_of-All P [] c h listed = cc
spec_of-All P (s ∷ specs) c h listed = elim (Bool-cases (same_code s.0 c)) [
  | inl e ↦ (s, (e, (rw e refl, h.0)))
  | inr e ↦ rw e (spec_of-All P specs c h.1 (rw e at listed))
]

-- Every code is a key.
pub is_listed : (c : ProblemCode) → any (λ s. same_code s.0 c) problem_specs ≡ true
unfolding problem_specs text_eq
is_listed auth_invalid_credentials = refl
is_listed auth_email_verification_required = refl
is_listed auth_account_link_required = refl
is_listed auth_provider_unavailable = refl
is_listed workspace_not_found = refl
is_listed workspace_permission_denied = refl
is_listed workspace_not_active = refl
is_listed project_not_found = refl
is_listed connection_not_found = refl
is_listed connection_state_conflict = refl
is_listed request_validation_failed = refl
is_listed request_not_found = refl
is_listed request_method_not_allowed = refl
is_listed request_rejected = refl
is_listed internal_error = refl
