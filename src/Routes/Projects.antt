-- ===== src/Routes/Projects.antt =====
-- api/routes/v1/projects.py, but for the list and its cursors.
use bff.Prelude.{ℕ, Option, ◌++◌}
use bff.Text.{Text, codes}
use bff.Ids.{Draw, uuid_str}
use bff.Authentication.Models.{AuthenticatedPrincipal}
use bff.Problems.Responses.{RequestContext, require_request_context}
use bff.Routes.Handling.{
  Outcome, Handler, outcome, service, fail, checked, checked_text, ◌>>=◌, Reply, reply, created,
}
use bff.Connections.Repository.Commands.{Caller}
use bff.Projects.Models.{Project, ProjectStatus}
use bff.Projects.Policies.{normalize_project_name, max_project_name_length}
use bff.Projects.Service

pub record ProjectResponse : Type 0 where
  pub id : ℕ
  pub workspace_id : ℕ
  pub name : Text
  pub status : ProjectStatus
  pub created_at : ℕ
  pub updated_at : ℕ
  pub archived_at : Option ℕ

abbrev pub project_response : Project → ProjectResponse
project_response project = record {
  id = project.project_id;
  workspace_id = project.workspace_id;
  name = project.name;
  status = project.status;
  created_at = project.created_at;
  updated_at = project.updated_at;
  archived_at = project.archived_at;
}

-- The arguments that the service takes of the principal and the context
abbrev pub caller : AuthenticatedPrincipal → RequestContext → ℕ → Caller
caller principal context workspace_id = record {
  user_id = principal.user_id;
  auth_session_id = principal.auth_session_id;
  workspace_id = workspace_id;
  request_id = context.request_id;
  trace_id = context.trace_id;
}

unfoldable pub create_project :
    Draw
    → Draw
    → ℕ
    → Text
    → Option RequestContext
    → AuthenticatedPrincipal
    → Handler (Reply ProjectResponse)
create_project draw audit_draw workspace_id payload_name request principal = do
  name ← fail (
      checked
        (checked_text (codes "name") max_project_name_length normalize_project_name payload_name))
  context ← fail (outcome (require_request_context request))
  project ←
      service (Service.create_project (caller principal context workspace_id) draw audit_draw name)
  fail (
      Outcome.returned (
        created
          (codes "/v1/workspaces/"
            ++ (uuid_str workspace_id ++ (codes "/projects/" ++ uuid_str project.project_id)))
          (project_response project)))

unfoldable pub get_project : ℕ → ℕ → AuthenticatedPrincipal → Handler (Reply ProjectResponse)
get_project workspace_id project_id principal = do
  project ← service (Service.get_project principal.user_id workspace_id project_id)
  fail (Outcome.returned (reply (project_response project)))
