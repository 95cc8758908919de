-- ===== src/Problems/Statuses.antt =====
-- The status that an error of the domains ends in, and what a response tells of an exception.
use bff.Prelude.{ℕ, Option, some, ◌≡◌, refl, ap, ◌∙◌}
use bff.Result.{Error, Result, ok}
use bff.Text.{Text}
use bff.Problems.Responses.{problem_response, RequestContext, Response}
use bff.Problems.Handlers.{Raised, domain}
use bff.Problems.Specs.{problem_specs}
use bff.Problems.Registry.{spec_of}
use bff.Text.{text_eq}
use bff.Problems.Responses.{problem_response, set_header}
use bff.Problems.Dispatch.{Find, ByKeys, keys, first_registered, registered, run, respond}

-- Unauthenticated, not permitted, not found, in conflict with the state, invalid or unavailable
abbrev pub public_status : Error → ℕ
public_status Error.principal_authentication = 401
public_status Error.session_provisioning_authentication = 401
public_status Error.email_verification_required = 403
public_status Error.connection_permission_denied = 403
public_status Error.project_permission_denied = 403
public_status Error.workspace_not_found = 404
public_status Error.project_workspace_not_found = 404
public_status Error.project_not_found = 404
public_status Error.connection_workspace_not_found = 404
public_status Error.connection_not_found = 404
public_status Error.connection_project_not_found = 404
public_status Error.account_link_required = 409
public_status Error.connection_workspace_not_active = 409
public_status Error.connection_state_conflict = 409
public_status Error.project_workspace_not_active = 409
public_status Error.connection_configuration_invalid = 422
public_status Error.external_user_profile_unavailable = 503
public_status _ = 500

module _ (casefold : Text → Text) (phrase : ℕ → Option Text) (context : RequestContext) where
  abbrev HasStatus : Result Response → ℕ → Type 0
  HasStatus result status = (r : Response) × ((result ≡ ok r) × (r.status_code ≡ status))

  abbrev pub first_response : Raised → Result Response
  first_response exc =
      run (first_registered (registered casefold phrase) (keys exc)) (some context) exc

  first_response-HasStatus : (e : Error) → HasStatus (first_response (domain e)) (public_status e)
  unfolding first_registered registered problem_response problem_specs spec_of text_eq set_header
  first_response-HasStatus Error.connection_workspace_not_found = (_, (refl, refl))
  first_response-HasStatus Error.connection_not_found = (_, (refl, refl))
  first_response-HasStatus Error.connection_project_not_found = (_, (refl, refl))
  first_response-HasStatus Error.connection_permission_denied = (_, (refl, refl))
  first_response-HasStatus Error.connection_workspace_not_active = (_, (refl, refl))
  first_response-HasStatus Error.connection_state_conflict = (_, (refl, refl))
  first_response-HasStatus Error.connection_configuration_invalid = (_, (refl, refl))
  first_response-HasStatus Error.project_workspace_not_found = (_, (refl, refl))
  first_response-HasStatus Error.project_not_found = (_, (refl, refl))
  first_response-HasStatus Error.project_permission_denied = (_, (refl, refl))
  first_response-HasStatus Error.project_workspace_not_active = (_, (refl, refl))
  first_response-HasStatus Error.workspace_not_found = (_, (refl, refl))
  first_response-HasStatus Error.principal_authentication = (_, (refl, refl))
  first_response-HasStatus Error.access_token_verification = (_, (refl, refl))
  first_response-HasStatus Error.session_provisioning_authentication = (_, (refl, refl))
  first_response-HasStatus Error.email_verification_required = (_, (refl, refl))
  first_response-HasStatus Error.account_link_required = (_, (refl, refl))
  first_response-HasStatus Error.external_user_profile_not_found = (_, (refl, refl))
  first_response-HasStatus Error.external_user_profile_unavailable = (_, (refl, refl))
  first_response-HasStatus Error.provider_configuration = (_, (refl, refl))
  first_response-HasStatus Error.value_error = (_, (refl, refl))
  first_response-HasStatus Error.type_error = (_, (refl, refl))
  first_response-HasStatus Error.overflow_error = (_, (refl, refl))
  first_response-HasStatus Error.runtime_error = (_, (refl, refl))
  first_response-HasStatus Error.key_error = (_, (refl, refl))
  first_response-HasStatus Error.identity_race = (_, (refl, refl))
  first_response-HasStatus Error.os_error = (_, (refl, refl))
  first_response-HasStatus Error.jwt_error = (_, (refl, refl))
  first_response-HasStatus Error.jwk_client_error = (_, (refl, refl))
  first_response-HasStatus Error.http_error = (_, (refl, refl))
  first_response-HasStatus Error.integrity_error = (_, (refl, refl))
  first_response-HasStatus Error.multiple_results = (_, (refl, refl))
  first_response-HasStatus Error.no_result = (_, (refl, refl))

module _ (find : Find) (by_keys : ByKeys find) (casefold : Text → Text)
    (phrase : ℕ → Option Text) where
  pub respond-first_response :
      (context : RequestContext) (exc : Raised)
      → respond find casefold phrase (some context) exc ≡ first_response casefold phrase context exc
  unfolding respond
  respond-first_response context exc =
      ap (λ handler. run handler (some context) exc) (by_keys (registered casefold phrase) exc)

  -- Every exception of the domains is answered, given the request's context and a framework that
  -- looks handlers up in its documented order: with 401 if the caller is not authenticated, 403 if
  -- it lacks a permission or a verified email, 404 if the resource or what it stands in is not
  -- found, 409 if the state conflicts, 422 if a configuration is invalid, 503 if the provider is
  -- unavailable, and 500 for every other one.
  pub respond-HasStatus :
      (context : RequestContext) (e : Error)
      → (r : Response) × ((respond find casefold phrase (some context) (domain e) ≡ ok r)
          × (r.status_code ≡ public_status e))
  respond-HasStatus context e =
      let (r, (h, same)) = first_response-HasStatus casefold phrase context e in
      (r, (respond-first_response context (domain e) ∙ h, same))
