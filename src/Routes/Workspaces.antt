-- ===== src/Routes/Workspaces.antt =====
-- api/routes/v1/workspaces.py. The values that `uuid7` draws are arguments of a handler that writes.
use bff.Prelude.{ℕ, Option, List, map, ◌++◌}
use bff.Text.{Text, codes}
use bff.Ids.{Draw, uuid_str}
use bff.Authentication.Models.{AuthenticatedPrincipal}
use bff.Problems.Responses.{RequestContext, require_request_context}
use bff.Routes.Handling.{
  Outcome, Handler, outcome, service, fail, checked, checked_text, ◌>>=◌, Reply, reply, created,
}
use bff.Workspaces.Models.{
  WorkspaceAccess, WorkspaceStatus, WorkspaceRole, normalize_workspace_name,
  max_workspace_name_length,
}
use bff.Workspaces.Service

-- `WorkspaceResponse`
pub record WorkspaceResponse : Type 0 where
  pub id : ℕ
  pub name : Text
  pub status : WorkspaceStatus
  pub role : WorkspaceRole
  pub created_at : ℕ
  pub updated_at : ℕ

abbrev pub workspace_response : WorkspaceAccess → WorkspaceResponse
workspace_response access = record {
  id = access.workspace_id;
  name = access.name;
  status = access.status;
  role = access.role;
  created_at = access.created_at;
  updated_at = access.updated_at;
}

unfoldable pub create_workspace :
    Draw
    → Draw
    → Draw
    → Text
    → Option RequestContext
    → AuthenticatedPrincipal
    → Handler (Reply WorkspaceResponse)
create_workspace draw membership_draw audit_draw payload_name request principal = do
  name ← fail (
      checked (
        checked_text (codes "name") max_workspace_name_length normalize_workspace_name
          payload_name))
  context ← fail (outcome (require_request_context request))
  access ← service (
      Service.create_workspace draw membership_draw audit_draw principal.user_id
        principal.auth_session_id name context.request_id context.trace_id)
  fail (
      Outcome.returned (
        created (codes "/v1/workspaces/" ++ uuid_str access.workspace_id)
          (workspace_response access)))

unfoldable pub list_workspaces : AuthenticatedPrincipal → Handler (Reply (List WorkspaceResponse))
list_workspaces principal = do
  accesses ← service (Service.list_workspaces principal.user_id)
  fail (Outcome.returned (reply (map workspace_response accesses)))

unfoldable pub get_workspace : ℕ → AuthenticatedPrincipal → Handler (Reply WorkspaceResponse)
get_workspace workspace_id principal = do
  access ← service (Service.get_workspace principal.user_id workspace_id)
  fail (Outcome.returned (reply (workspace_response access)))
