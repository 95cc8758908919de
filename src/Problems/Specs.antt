-- ===== src/Problems/Specs.antt =====
-- `ProblemSpec` and `PROBLEM_SPECS` of api/problems/registry.py.
use bff.Prelude.{ℕ, Bool, true, false, Option, none, some, List, [], ◌∷◌}
use bff.Text.{Text, codes}
use bff.Problems.Codes.{
  ProblemCode, auth_invalid_credentials, auth_email_verification_required,
  auth_account_link_required, auth_provider_unavailable, workspace_not_found,
  workspace_permission_denied, workspace_not_active, project_not_found, connection_not_found,
  connection_state_conflict, request_validation_failed, request_not_found,
  request_method_not_allowed, request_rejected, internal_error,
}

pub record ProblemSpec : Type 0 where
  pub code : ProblemCode
  pub type_uri : Text
  pub title : Text
  pub status : ℕ
  pub detail : Text
  pub retryable : Option Bool

-- `PROBLEM_SPECS`
unfoldable pub problem_specs : List (ProblemCode × ProblemSpec)
problem_specs =
    (
      auth_invalid_credentials,
      record {
        code = auth_invalid_credentials;
        type_uri = codes "urn:uuid:60277549-1ffa-560c-b5f1-80b82f0ce19f";
        title = codes "Invalid authentication credentials";
        status = 401;
        detail = codes "Authentication could not be completed.";
        retryable = none;
      },
    )
    ∷ (
      auth_email_verification_required,
      record {
        code = auth_email_verification_required;
        type_uri = codes "urn:uuid:d3468a7d-6ab3-5040-9f14-89c811f0b0a1";
        title = codes "Email verification required";
        status = 403;
        detail = codes "Verify the authentication provider email before continuing.";
        retryable = some false;
      },
    )
    ∷ (
      auth_account_link_required,
      record {
        code = auth_account_link_required;
        type_uri = codes "urn:uuid:a90a34d0-9660-51f4-9732-5f134b23b3a1";
        title = codes "Account linking required";
        status = 409;
        detail = codes "An existing BFF account must be linked explicitly before continuing.";
        retryable = some false;
      },
    )
    ∷ (
      auth_provider_unavailable,
      record {
        code = auth_provider_unavailable;
        type_uri = codes "urn:uuid:4b7e9b99-220d-5b6f-b051-56c00818c362";
        title = codes "Authentication service unavailable";
        status = 503;
        detail = codes "Authentication is temporarily unavailable.";
        retryable = some true;
      },
    )
    ∷ (
      workspace_not_found,
      record {
        code = workspace_not_found;
        type_uri = codes "urn:uuid:14e7c170-79a8-550d-a696-9cbe4d8a089f";
        title = codes "Workspace not found";
        status = 404;
        detail = codes "The requested Workspace was not found.";
        retryable = some false;
      },
    )
    ∷ (
      workspace_permission_denied,
      record {
        code = workspace_permission_denied;
        type_uri = codes "urn:uuid:9a590bea-29bf-571e-a9ac-802214c8d53e";
        title = codes "Workspace permission denied";
        status = 403;
        detail = codes "The active Workspace role does not permit this operation.";
        retryable = some false;
      },
    )
    ∷ (
      workspace_not_active,
      record {
        code = workspace_not_active;
        type_uri = codes "urn:uuid:dc40c9d8-61fc-5425-97bb-46ca0d799d69";
        title = codes "Workspace is not active";
        status = 409;
        detail = codes "The Workspace lifecycle does not permit this operation.";
        retryable = some false;
      },
    )
    ∷ (
      project_not_found,
      record {
        code = project_not_found;
        type_uri = codes "urn:uuid:11f1e95b-3a4c-512e-b2cf-a962f52b5db2";
        title = codes "Project not found";
        status = 404;
        detail = codes "The requested Project was not found.";
        retryable = some false;
      },
    )
    ∷ (
      connection_not_found,
      record {
        code = connection_not_found;
        type_uri = codes "urn:uuid:7c131d55-c5eb-594c-b431-88a69b45ad9e";
        title = codes "Connection not found";
        status = 404;
        detail = codes "The requested Connection was not found.";
        retryable = some false;
      },
    )
    ∷ (
      connection_state_conflict,
      record {
        code = connection_state_conflict;
        type_uri = codes "urn:uuid:4ca5a5c5-128c-53b8-820d-ea94dd6d400e";
        title = codes "Connection state conflict";
        status = 409;
        detail = codes "The Connection lifecycle does not permit this operation.";
        retryable = some false;
      },
    )
    ∷ (
      request_validation_failed,
      record {
        code = request_validation_failed;
        type_uri = codes "urn:uuid:542c876a-0825-5cc6-a84b-f55bccc0087a";
        title = codes "Request validation failed";
        status = 422;
        detail = codes "One or more request fields are invalid.";
        retryable = some false;
      },
    )
    ∷ (
      request_not_found,
      record {
        code = request_not_found;
        type_uri = codes "urn:uuid:bc67b9ce-02f7-540e-b0c1-5015c66635e3";
        title = codes "Not found";
        status = 404;
        detail = codes "The requested endpoint was not found.";
        retryable = some false;
      },
    )
    ∷ (
      request_method_not_allowed,
      record {
        code = request_method_not_allowed;
        type_uri = codes "urn:uuid:0aeb43e6-7822-5a7c-bf4c-9e789b15bccd";
        title = codes "Method not allowed";
        status = 405;
        detail = codes "The requested method is not supported for this endpoint.";
        retryable = some false;
      },
    )
    ∷ (
      request_rejected,
      record {
        code = request_rejected;
        type_uri = codes "urn:uuid:d72f20c6-a0d5-5e45-8c3f-08b1150fec95";
        title = codes "Request rejected";
        status = 400;
        detail = codes "The request could not be accepted.";
        retryable = none;
      },
    )
    ∷ (
      internal_error,
      record {
        code = internal_error;
        type_uri = codes "urn:uuid:c10c4a56-f258-50ec-a667-000c307d32b3";
        title = codes "Internal server error";
        status = 500;
        detail = codes "The request could not be completed.";
        retryable = none;
      },
    )
    ∷ []
