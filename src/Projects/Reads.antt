-- ===== src/Projects/Reads.antt =====
-- The decoders and the queries of infrastructure/db/project_repository.py. The `access` part of its two
-- queries reads the same rows as the Connection repository's Workspace context.
use bff.Prelude.{ℕ, ◌+◌, Option, none, some, List, [], ◌∷◌, ◌==◌, ◌&&◌, filter, sort_by}
use bff.Result.{Result, ok, ◌>>=◌}
use bff.Db.{Db, WorkspaceRow, MembershipRow, ProjectRow}
use bff.Paging.{Key, keyset, page}
use bff.Paging.Join.{lateral, nulls_last, present}
use bff.Connections.Repository.Queries.{one_or_none, select_workspace_context}
use bff.Projects.Models.{
  Project, ProjectWorkspaceContext, ProjectPageCursor, ProjectPageLookup, ProjectLookup,
  project_status_of, project_role_of, project_workspace_status_of,
}
use mathlib.Core.Option

-- `_context_from_row`
unfoldable pub context_from_row : WorkspaceRow × MembershipRow → Result ProjectWorkspaceContext
context_from_row (w, m) = do
  status ← project_workspace_status_of w.status
  role ← project_role_of m.role
  ok (record { workspace_id = w.id; status = status; role = role })

-- `_project_from_insert_row` and `_project_from_list_row`, which differ in the names of columns
unfoldable pub project_from_row : ProjectRow → Result Project
project_from_row r = do
  status ← project_status_of r.status
  ok (record {
    project_id = r.id;
    workspace_id = r.workspace_id;
    name = r.name;
    status = status;
    created_at = r.created_at;
    updated_at = r.updated_at;
    archived_at = r.archived_at;
  })

abbrev pub Access : Type 0
Access = WorkspaceRow × MembershipRow

abbrev pub row_key : ProjectRow → Key
row_key r = record { created_at = r.created_at; id = r.id }

abbrev pub project_key : Project → Key
project_key p = record { created_at = p.created_at; id = p.project_id }

abbrev pub cursor_key : ProjectPageCursor → Key
cursor_key c = record { created_at = c.created_at; id = c.project_id }

abbrev pub key_cursor : Key → ProjectPageCursor
key_cursor k = record { created_at = k.created_at; project_id = k.id }

-- The Projects of a Workspace.
abbrev pub projects_of : ℕ → Db → List ProjectRow
projects_of workspace_id db = filter (λ p. p.workspace_id == workspace_id) db.projects

-- _LIST_FOR_USER
abbrev pub select_projects : ℕ → ℕ → Option Key → ℕ → Db → List (Access × Option ProjectRow)
select_projects user_id workspace_id cursor fetch_limit db = sort_by (nulls_last row_key) (
    lateral (λ a. keyset row_key cursor fetch_limit (projects_of a.0.id db))
      (select_workspace_context user_id workspace_id db))

-- The Projects of the rows, decoded.
unfoldable pub projects_from_rows : List ProjectRow → Result (List Project)
projects_from_rows [] = ok []
projects_from_rows (r ∷ rows) = do
  project ← project_from_row r
  projects ← projects_from_rows rows
  ok (project ∷ projects)

abbrev pub page_from_rows : ℕ → List (Access × Option ProjectRow) → Result ProjectPageLookup
page_from_rows limit [] =
    ok (record { context = none; page = record { items = []; next_cursor = none } })
page_from_rows limit (r ∷ rows) = do
  context ← context_from_row r.0
  projects ← projects_from_rows (present (r ∷ rows))
  let (visible, next) = page project_key limit projects
  ok (record {
    context = some context;
    page = record { items = visible; next_cursor = Option.map key_cursor next };
  })

unfoldable pub list_for_user : ℕ → ℕ → Option ProjectPageCursor → ℕ → Db → Result ProjectPageLookup
list_for_user user_id workspace_id cursor limit db =
    page_from_rows limit
      (select_projects user_id workspace_id (Option.map cursor_key cursor) (limit + 1) db)

-- _GET_FOR_USER
abbrev pub select_project : ℕ → ℕ → ℕ → Db → List (Access × Option ProjectRow)
select_project user_id workspace_id project_id db =
    lateral (λ a. filter (λ p. p.workspace_id == a.0.id && p.id == project_id) db.projects)
      (select_workspace_context user_id workspace_id db)

abbrev lookup_from_row : Option (Access × Option ProjectRow) → Result ProjectLookup
lookup_from_row none = ok (record { context = none; project = none })
lookup_from_row (some (a, none)) = do
  context ← context_from_row a
  ok (record { context = some context; project = none })
lookup_from_row (some (a, some r)) = do
  project ← project_from_row r
  context ← context_from_row a
  ok (record { context = some context; project = some project })

unfoldable pub get_for_user : ℕ → ℕ → ℕ → Db → Result ProjectLookup
get_for_user user_id workspace_id project_id db = do
  row ← one_or_none (select_project user_id workspace_id project_id db)
  lookup_from_row row
