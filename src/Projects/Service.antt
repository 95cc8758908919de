-- ===== src/Projects/Service.antt =====
-- domains/projects/service.py: `ProjectService` over the SQLAlchemy repository.
use bff.Prelude.{ℕ, ℤ, not, Option, none, some, if◌then◌else◌}
use bff.Result.{
  Result, ok, err, project_workspace_not_found, project_not_found, project_permission_denied,
  project_workspace_not_active,
}
use bff.Text.{Text}
use bff.Ids.{Draw}
use bff.Db.{Tx, lift, query, pure, ◌>>=◌, ◌>>◌}
use bff.Connections.Repository.Commands.{Caller}
use bff.Projects.Models.{Project, ProjectPage, ProjectPageCursor, ProjectWorkspaceContext}
use bff.Projects.Policies.{
  normalize_project_name, validate_project_page_limit, can_read_projects, can_create_project,
  workspace_allows_project_creation,
}
use bff.Projects.Reads
use bff.Projects.Repository

-- `_authorize_read`
unfoldable pub authorize_read : Option ProjectWorkspaceContext → Result (Unit {0})
authorize_read none = err project_workspace_not_found
authorize_read (some context) =
    if not (can_read_projects context.role) then err project_workspace_not_found else ok tt

-- `_authorize_creation`
unfoldable pub authorize_creation : ProjectWorkspaceContext → Result (Unit {0})
authorize_creation context =
    if not (can_create_project context.role)
    then err project_permission_denied
    else if not (workspace_allows_project_creation context.status)
    then err project_workspace_not_active
    else ok tt

unfoldable pub create_project : Caller → Draw → Draw → Text → Tx Project
create_project k draw audit_draw name = do
  normalized_name ← lift (normalize_project_name name)
  Repository.create_project k draw audit_draw normalized_name authorize_creation

unfoldable pub list_projects : ℕ → ℕ → Option ProjectPageCursor → ℤ → Tx ProjectPage
list_projects user_id workspace_id cursor limit = do
  valid ← lift (validate_project_page_limit limit)
  lookup ← query (Reads.list_for_user user_id workspace_id cursor valid)
  lift (authorize_read lookup.context)
  pure lookup.page

abbrev pub found : Option Project → Tx Project
found none = lift (err project_not_found)
found (some p) = pure p

unfoldable pub get_project : ℕ → ℕ → ℕ → Tx Project
get_project user_id workspace_id project_id = do
  lookup ← query (Reads.get_for_user user_id workspace_id project_id)
  lift (authorize_read lookup.context)
  found lookup.project
