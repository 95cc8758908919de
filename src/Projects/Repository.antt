-- ===== src/Projects/Repository.antt =====
-- `create_project` of infrastructure/db/project_repository.py. Its _LOCK_PROJECT_CREATION_CONTEXT reads the
-- same rows as the Connection repository's Workspace context.
use bff.Prelude.{ℕ, not, ◌||◌, none, some, [], ◌∷◌, ◌++◌, ◌==◌, if◌then◌else◌, any}
use bff.Projects.Reads.{context_from_row, project_from_row}
use bff.Result.{Result, ok, err, integrity_error, project_workspace_not_found}
use bff.Text.{Text, codes}
use bff.Ids.{Draw, uuid7, uuid_str}
use bff.Json.{end}
use bff.Db.{
  has_event, Db, Tx, ProjectRow, AuditRow, transaction, query, lift, execute, pure, ◌>>=◌, ◌>>◌,
}
use bff.Connections.Repository.Queries.{one_or_none, or_raise, select_workspace_context}
use bff.Connections.Repository.Statements.{has_workspace, has_project}
use bff.Connections.Repository.Commands.{Caller, text_field}
use bff.Projects.Models.{
  Project, ProjectStatus, ProjectWorkspaceContext, project_status_value, project_role_value,
}

-- The row that _INSERT_PROJECT makes, with the defaults of its columns.
abbrev pub new_project : Db → ℕ → ℕ → Text → ProjectRow
new_project db project_id workspace_id name = record {
  id = project_id;
  workspace_id = workspace_id;
  name = name;
  status = "ACTIVE";
  created_at = db.now;
  updated_at = db.now;
  archived_at = none;
}

-- _INSERT_PROJECT
unfoldable pub insert_project : ℕ → ℕ → Text → Db → Result (ProjectRow × Db)
insert_project project_id workspace_id name db =
    if any (λ p. p.id == project_id) db.projects || not (has_workspace workspace_id db)
    then err integrity_error
    else ok (
      new_project db project_id workspace_id name,
      record db { projects = db.projects ++ new_project db project_id workspace_id name ∷ [] },
    )

-- The row that _INSERT_PROJECT_AUDIT inserts; a column that it leaves out is null.
abbrev pub project_event : Caller → ℕ → ℕ → ProjectWorkspaceContext → Text → AuditRow
project_event k audit_id project_id context name = record {
  id = audit_id;
  workspace_id = k.workspace_id;
  project_id = some project_id;
  actor_user_id = k.user_id;
  actor_role_snapshot = project_role_value context.role;
  action = "PROJECT_CREATED";
  resource_type = "PROJECT";
  resource_id = project_id;
  resource_display_snapshot = name;
  before_json = none;
  after_json = some (
      text_field "name" name
        (text_field "status" (codes (project_status_value ProjectStatus.active)) end));
  change_json = none;
  request_id = uuid_str k.request_id;
  trace_id = k.trace_id;
  session_id = uuid_str k.auth_session_id;
}

-- _INSERT_PROJECT_AUDIT; `project_id` refers to a Project of the Workspace
unfoldable pub insert_project_audit : ℕ → AuditRow → Db → Result (Unit {0} × Db)
insert_project_audit project_id a db =
    if has_event a.id db
      || (not (has_workspace a.workspace_id db) || not (has_project a.workspace_id project_id db))
    then err integrity_error
    else ok (tt, record db { audit = db.audit ++ a ∷ [] })

-- `create_project`; the row is decoded after the commit
unfoldable pub create_project :
    Caller → Draw → Draw → Text → (ProjectWorkspaceContext → Result (Unit {0})) → Tx Project
create_project k draw audit_draw name authorize = do
  project_id ← lift (uuid7 draw)
  row ← transaction (do
    found ← query (λ db. one_or_none (select_workspace_context k.user_id k.workspace_id db))
    context_row ← lift (or_raise project_workspace_not_found found)
    context ← lift (context_from_row context_row)
    lift (authorize context)
    project_row ← execute (insert_project project_id k.workspace_id name)
    audit_id ← lift (uuid7 audit_draw)
    execute (insert_project_audit project_id (project_event k audit_id project_id context name))
    pure project_row)
  lift (project_from_row row)
