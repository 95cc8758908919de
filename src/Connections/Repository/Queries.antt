-- ===== src/Connections/Repository/Queries.antt =====
-- The SELECTs of connection_repository.py and the private helpers that read through them.
use bff.Prelude.{
  ℕ, ◌+◌, ◌/◌, ◌%◌, Bool, true, false, not, ◌&&◌, Option, none, some, List, [], ◌∷◌, ◌++◌, map, ltb,
  leb, ◌==◌, if◌then◌else◌, filter, all, mem, is_none, sort_by,
}
use bff.Result.{
  Error, Result, ok, err, ◌>>=◌, connection_workspace_not_found, connection_not_found,
  connection_project_not_found, type_error, multiple_results,
}
use bff.Text.{Text}
use bff.Db.{
  Db, WorkspaceRow, MembershipRow, ProjectRow, ConnectionRow, AccessRow, DraftRow, RevisionRow,
}
use bff.Ids.{hex}
use bff.Connections.Models.{
  Connection, ConnectionAccessMode, workspace, ConnectionDraft, ConnectionMutationContext,
  ConnectionRevision, ConnectionRevisionMetadata, ConnectionWorkspaceContext,
}
use bff.Connections.Values.{status_of, mode_of, role_of, workspace_status_of}

-- `result.mappings().one_or_none()`
abbrev pub one_or_none : {A : Type 0} → List A → Result (Option A)
one_or_none [] = ok none
one_or_none (x ∷ []) = ok (some x)
one_or_none (x ∷ y ∷ xs) = err multiple_results

-- The row of a query that must return one, or the exception that its caller raises.
abbrev pub or_raise : {A : Type 0} → Error → Option A → Result A
or_raise e none = err e
or_raise e (some a) = ok a

-- An inner join on `workspaces.id = memberships.workspace_id`.
unfoldable pub join_workspaces :
    List WorkspaceRow → List MembershipRow → List (WorkspaceRow × MembershipRow)
join_workspaces ws [] = []
join_workspaces ws (m ∷ ms) =
    map (λ w. (w, m)) (filter (λ w. w.id == m.workspace_id) ws) ++ join_workspaces ws ms

abbrev pub is_active_member : ℕ → ℕ → MembershipRow → Bool
is_active_member user_id workspace_id m =
    m.user_id == user_id && (m.workspace_id == workspace_id && is_none m.ended_at)

-- _LOCK_WORKSPACE_CONTEXT and _READ_WORKSPACE_CONTEXT, which differ in the lock alone
unfoldable pub select_workspace_context : ℕ → ℕ → Db → List (WorkspaceRow × MembershipRow)
unfolding join_workspaces
select_workspace_context user_id workspace_id db =
    join_workspaces db.workspaces (filter (is_active_member user_id workspace_id) db.memberships)

-- `_workspace_context_from_row`
unfoldable pub workspace_context_from_row :
    WorkspaceRow × MembershipRow → Result ConnectionWorkspaceContext
workspace_context_from_row (w, m) = do
  status ← workspace_status_of w.status
  role ← role_of m.role
  ok (record { workspace_id = w.id; status = status; role = role })

-- `_workspace_context`
unfoldable pub workspace_context : ℕ → ℕ → Db → Result ConnectionWorkspaceContext
workspace_context user_id workspace_id db = do
  found ← one_or_none (select_workspace_context user_id workspace_id db)
  row ← or_raise connection_workspace_not_found found
  workspace_context_from_row row

-- WHERE workspace_id = :workspace_id AND id = :connection_id
abbrev pub is_connection : ℕ → ℕ → ConnectionRow → Bool
is_connection workspace_id connection_id c = c.workspace_id == workspace_id && c.id == connection_id

-- _LOCK_CONNECTION and _READ_CONNECTION_CONTEXT
abbrev pub select_connection : ℕ → ℕ → Db → List ConnectionRow
select_connection workspace_id connection_id db =
    filter (is_connection workspace_id connection_id) db.connections

-- The last step of `_mutation_context`.
unfoldable pub mutation_context_from_row :
    ConnectionWorkspaceContext → ConnectionRow → Result ConnectionMutationContext
mutation_context_from_row context c = do
  mode ← mode_of c.access_mode
  status ← status_of c.status
  ok (record {
    workspace = context;
    connection_id = c.id;
    provider_key = c.provider_key;
    access_mode = mode;
    status = status;
  })

-- `_mutation_context`
unfoldable pub mutation_context : ℕ → ℕ → ℕ → Db → Result ConnectionMutationContext
mutation_context user_id workspace_id connection_id db = do
  context ← workspace_context user_id workspace_id db
  found ← one_or_none (select_connection workspace_id connection_id db)
  row ← or_raise connection_not_found found
  mutation_context_from_row context row

-- ARRAY(SELECT project_id ... WHERE connection_id = connections.id ORDER BY project_id); PostgreSQL
-- orders uuid values by their bytes, so by number.
unfoldable pub project_ids_of : ℕ → List AccessRow → List ℕ
project_ids_of connection_id rows =
    sort_by leb (map (λ a. a.project_id) (filter (λ a. a.connection_id == connection_id) rows))

abbrev pub has_selected : ConnectionAccessMode → List ℕ → Bool
has_selected workspace (p ∷ ps) = true
has_selected _ _ = false

-- `_connection_from_row`
unfoldable pub connection_from_row : List ℕ → ConnectionRow → Result Connection
connection_from_row project_values c = do
  mode ← mode_of c.access_mode
  status ← if has_selected mode project_values then err type_error else status_of c.status
  ok (record {
    connection_id = c.id;
    workspace_id = c.workspace_id;
    name = c.name;
    provider_key = c.provider_key;
    access_policy = record { mode = mode; project_ids = project_values };
    status = status;
    created_at = c.created_at;
    updated_at = c.updated_at;
    archived_at = c.archived_at;
  })

-- `_fetch_connection`, with _SELECT_CONNECTION
unfoldable pub fetch_connection : ℕ → ℕ → Db → Result Connection
fetch_connection workspace_id connection_id db = do
  found ← one_or_none (select_connection workspace_id connection_id db)
  row ← or_raise connection_not_found found
  connection_from_row (project_ids_of row.id db.access) row

-- _LOCK_SELECTED_PROJECTS
abbrev pub select_selected_projects : ℕ → List ℕ → Db → List ProjectRow
select_selected_projects workspace_id ids db =
    filter (λ p. p.workspace_id == workspace_id && mem p.id ids) db.projects

-- `a == b` on sets
abbrev pub same_set : List ℕ → List ℕ → Bool
same_set xs ys = all (λ x. mem x ys) xs && all (λ y. mem y xs) ys

-- `_validate_projects`; for no ids both sets are empty
unfoldable pub validate_projects : ℕ → List ℕ → Db → Result (Unit {0})
validate_projects workspace_id [] db = ok tt
validate_projects workspace_id (p ∷ ps) db =
    let found = map (λ r. r.id) (select_selected_projects workspace_id (p ∷ ps) db) in
    if not (same_set found (p ∷ ps)) then err connection_project_not_found else ok tt

-- _SELECT_DRAFT and _LOCK_DRAFT
abbrev pub select_draft : ℕ → ℕ → Db → List DraftRow
select_draft workspace_id connection_id db =
    filter (λ d. d.workspace_id == workspace_id && d.connection_id == connection_id) db.drafts

-- `_draft_from_row`
abbrev pub draft_from_row : DraftRow → ConnectionDraft
draft_from_row d = record {
  connection_id = d.connection_id;
  workspace_id = d.workspace_id;
  configuration = d.draft_json;
  updated_by_user_id = d.updated_by_user_id;
  updated_at = d.updated_at;
}

-- encode(config_hash, 'hex'), and `bytes.hex`
abbrev pub bytes_hex : List ℕ → Text
bytes_hex [] = []
bytes_hex (b ∷ bs) = hex (b / 16) ∷ hex (b % 16) ∷ bytes_hex bs

-- `_revision_metadata_from_row`
abbrev pub revision_metadata_from_row : RevisionRow → ConnectionRevisionMetadata
revision_metadata_from_row r = record {
  revision_id = r.id;
  connection_id = r.connection_id;
  workspace_id = r.workspace_id;
  revision_number = r.revision_number;
  definition_schema_version = r.definition_schema_version;
  config_hash_hex = bytes_hex r.config_hash;
  created_by_user_id = r.created_by_user_id;
  created_at = r.created_at;
}

-- `_revision_from_row`
abbrev pub revision_from_row : RevisionRow → ConnectionRevision
revision_from_row r = record {
  metadata = revision_metadata_from_row r;
  configuration = r.config_json;
}

-- SELECT COALESCE(MAX(revision_number), 0) + 1
abbrev pub max_number : ℕ → List RevisionRow → ℕ
max_number connection_id [] = 0
max_number connection_id (r ∷ rs) =
    let rest = max_number connection_id rs in
    if r.connection_id == connection_id && ltb rest r.revision_number
    then r.revision_number
    else rest

unfoldable pub next_revision_number : ℕ → Db → ℕ
next_revision_number connection_id db = max_number connection_id db.revisions + 1
