-- ===== src/Problems/Dispatch.antt =====
-- `register_problem_handlers` of api/problems/handlers.py.
use bff.Prelude.{ℕ, ◌==◌, if◌then◌else◌, Option, none, some, List, [], ◌∷◌, ◌≡◌}
use bff.Result.{
  Error, Result, err, principal_authentication, session_provisioning_authentication,
  email_verification_required, account_link_required, external_user_profile_unavailable,
  workspace_not_found, project_workspace_not_found, project_not_found,
  connection_workspace_not_found, connection_not_found, connection_project_not_found,
  connection_permission_denied, connection_workspace_not_active, connection_state_conflict,
  connection_configuration_invalid, project_permission_denied, project_workspace_not_active,
  provider_configuration, value_error, runtime_error,
}
use bff.Text.{Text}
use bff.Problems.Codes.{
  auth_email_verification_required, auth_account_link_required, auth_provider_unavailable,
  workspace_permission_denied, workspace_not_active, request_validation_failed, request_not_found,
  request_method_not_allowed, internal_error,
}
use bff.Problems.Codes.{ProblemCode}
use bff.Problems.Responses.{RequestContext, Response}
use bff.Problems.Handlers.{
  Raised, problem, domain, invalid_request, http, Handler, problem_exception_handler,
  invalid_authentication_handler, code_handler, validation_handler, framework_handler,
  http_exception_handler,
}

-- What `app.add_exception_handler` takes: a status or a class of exceptions
pub data HandlerKey : Type 0 where
  status : ℕ → HandlerKey
  problem_exception request_validation_error http_exception exception : HandlerKey
  domain_error : Error → HandlerKey

-- The table of handlers, by their keys
abbrev pub Table : Type 0
Table = HandlerKey → Option Handler

module _ (casefold : Text → Text) (phrase : ℕ → Option Text) where
  -- `register_problem_handlers`
  unfoldable pub registered : Table
  registered problem_exception = some problem_exception_handler
  registered (domain_error principal_authentication) = some invalid_authentication_handler
  registered (domain_error session_provisioning_authentication) =
      some invalid_authentication_handler
  registered (domain_error email_verification_required) =
      some (code_handler auth_email_verification_required)
  registered (domain_error account_link_required) = some (code_handler auth_account_link_required)
  registered (domain_error external_user_profile_unavailable) =
      some (code_handler auth_provider_unavailable)
  registered (domain_error workspace_not_found) =
      some (code_handler ProblemCode.workspace_not_found)
  registered (domain_error project_workspace_not_found) =
      some (code_handler ProblemCode.workspace_not_found)
  registered (domain_error project_not_found) = some (code_handler ProblemCode.project_not_found)
  registered (domain_error connection_workspace_not_found) =
      some (code_handler ProblemCode.workspace_not_found)
  registered (domain_error connection_not_found) =
      some (code_handler ProblemCode.connection_not_found)
  registered (domain_error connection_project_not_found) =
      some (code_handler ProblemCode.project_not_found)
  registered (domain_error connection_permission_denied) =
      some (code_handler workspace_permission_denied)
  registered (domain_error connection_workspace_not_active) =
      some (code_handler workspace_not_active)
  registered (domain_error connection_state_conflict) =
      some (code_handler ProblemCode.connection_state_conflict)
  registered (domain_error connection_configuration_invalid) =
      some (code_handler request_validation_failed)
  registered (domain_error project_permission_denied) =
      some (code_handler workspace_permission_denied)
  registered (domain_error project_workspace_not_active) = some (code_handler workspace_not_active)
  registered (domain_error e) = none
  registered request_validation_error = some validation_handler
  registered (status s) =
      if s == 404
      then some (framework_handler casefold request_not_found)
      else if s == 405
      then some (framework_handler casefold request_method_not_allowed)
      else none
  registered http_exception = some (http_exception_handler casefold phrase)
  registered exception = some (code_handler internal_error)

-- The framework's lookup of the handler of an exception
abbrev pub Find : Type 0
Find = Table → Raised → Option Handler

-- An exception that no handler takes is raised to the server.
abbrev pub run : Option Handler → Handler
run none request exc = err runtime_error
run (some handler) request exc = handler request exc

module _ (find : Find) (casefold : Text → Text) (phrase : ℕ → Option Text) where
  unfoldable pub respond : Option RequestContext → Raised → Result Response
  respond request exc = run (find (registered casefold phrase) exc) request exc

-- The classes of an exception, from its own to its last base class; the status of an
-- `HTTPException` comes before them.
abbrev pub keys : Raised → List HandlerKey
keys (problem code headers) = problem_exception ∷ exception ∷ []
keys (domain provider_configuration) =
    domain_error provider_configuration ∷ domain_error value_error ∷ exception ∷ []
keys (domain e) = domain_error e ∷ exception ∷ []
keys (invalid_request errors) = request_validation_error ∷ exception ∷ []
keys (http s headers) = status s ∷ http_exception ∷ exception ∷ []

abbrev pub or_else : Option Handler → Option Handler → Option Handler
or_else none other = other
or_else (some handler) other = some handler

unfoldable pub first_registered : Table → List HandlerKey → Option Handler
first_registered table [] = none
first_registered table (k ∷ rest) = or_else (table k) (first_registered table rest)

-- The documented order of the lookup: the first key with a handler decides.
abbrev pub ByKeys : Find → Type 0
ByKeys find = (table : Table) (exc : Raised) → find table exc ≡ first_registered table (keys exc)
