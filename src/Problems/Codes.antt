-- ===== src/Problems/Codes.antt =====
-- `ProblemCode` and `ValidationIssueCode` of api/problems/schemas.py.
use bff.Prelude.{Bool}
use bff.Text.{Text, codes, text_eq}

pub data ProblemCode : Type 0 where
  auth_invalid_credentials : ProblemCode
  auth_email_verification_required : ProblemCode
  auth_account_link_required : ProblemCode
  auth_provider_unavailable : ProblemCode
  workspace_not_found : ProblemCode
  workspace_permission_denied : ProblemCode
  workspace_not_active : ProblemCode
  project_not_found : ProblemCode
  connection_not_found : ProblemCode
  connection_state_conflict : ProblemCode
  request_validation_failed : ProblemCode
  request_not_found : ProblemCode
  request_method_not_allowed : ProblemCode
  request_rejected : ProblemCode
  internal_error : ProblemCode

abbrev pub problem_code_value : ProblemCode → Text
problem_code_value auth_invalid_credentials = codes "AUTH_INVALID_CREDENTIALS"
problem_code_value auth_email_verification_required = codes "AUTH_EMAIL_VERIFICATION_REQUIRED"
problem_code_value auth_account_link_required = codes "AUTH_ACCOUNT_LINK_REQUIRED"
problem_code_value auth_provider_unavailable = codes "AUTH_PROVIDER_UNAVAILABLE"
problem_code_value workspace_not_found = codes "WORKSPACE_NOT_FOUND"
problem_code_value workspace_permission_denied = codes "WORKSPACE_PERMISSION_DENIED"
problem_code_value workspace_not_active = codes "WORKSPACE_NOT_ACTIVE"
problem_code_value project_not_found = codes "PROJECT_NOT_FOUND"
problem_code_value connection_not_found = codes "CONNECTION_NOT_FOUND"
problem_code_value connection_state_conflict = codes "CONNECTION_STATE_CONFLICT"
problem_code_value request_validation_failed = codes "REQUEST_VALIDATION_FAILED"
problem_code_value request_not_found = codes "REQUEST_NOT_FOUND"
problem_code_value request_method_not_allowed = codes "REQUEST_METHOD_NOT_ALLOWED"
problem_code_value request_rejected = codes "REQUEST_REJECTED"
problem_code_value internal_error = codes "INTERNAL_ERROR"

-- The values of `StrEnum` members decide their equality.
abbrev pub same_code : ProblemCode → ProblemCode → Bool
same_code c d = text_eq (problem_code_value c) (problem_code_value d)

pub data ValidationIssueCode : Type 0 where
  required invalid_json invalid_value : ValidationIssueCode

abbrev pub issue_code_value : ValidationIssueCode → Text
issue_code_value required = codes "REQUIRED"
issue_code_value invalid_json = codes "INVALID_JSON"
issue_code_value invalid_value = codes "INVALID_VALUE"
