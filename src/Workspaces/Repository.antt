-- ===== src/Workspaces/Repository.antt =====
-- `create_owned_workspace` of infrastructure/db/workspace_repository.py, with the keys of its tables.
use bff.Prelude.{ℕ, not, ◌||◌, Option, none, some, [], ◌∷◌, ◌++◌, ◌==◌, if◌then◌else◌, any}
use bff.Result.{Result, ok, err, integrity_error}
use bff.Text.{Text, codes}
use bff.Ids.{Draw, uuid7, uuid_str}
use bff.Json.{end}
use bff.Db.{
  Db, Tx, WorkspaceRow, MembershipRow, AuditRow, transaction, lift, execute, pure, ◌>>=◌, ◌>>◌,
}
use bff.Connections.Repository.Queries.{is_active_member}
use bff.Connections.Repository.Statements.{has_workspace, insert_audit}
use bff.Connections.Repository.Commands.{text_field}
use bff.Workspaces.Models.{WorkspaceAccess, WorkspaceRole, status_of}

-- The row that _INSERT_WORKSPACE makes, with the defaults of its columns.
abbrev pub new_workspace : Db → ℕ → Text → WorkspaceRow
new_workspace db workspace_id name = record {
  id = workspace_id;
  name = name;
  status = "ACTIVE";
  created_at = db.now;
  updated_at = db.now;
}

-- _INSERT_WORKSPACE
unfoldable pub insert_workspace : ℕ → Text → Db → Result (WorkspaceRow × Db)
insert_workspace workspace_id name db =
    if has_workspace workspace_id db
    then err integrity_error
    else ok (
      new_workspace db workspace_id name,
      record db { workspaces = db.workspaces ++ new_workspace db workspace_id name ∷ [] },
    )

abbrev pub owner_membership : ℕ → ℕ → ℕ → MembershipRow
owner_membership membership_id workspace_id user_id = record {
  id = membership_id;
  workspace_id = workspace_id;
  user_id = user_id;
  role = "OWNER";
  ended_at = none;
}

-- _INSERT_OWNER_MEMBERSHIP; a user has one current membership in a Workspace
unfoldable pub insert_owner_membership : ℕ → ℕ → ℕ → Db → Result (Unit {0} × Db)
insert_owner_membership membership_id workspace_id user_id db =
    if any (λ m. m.id == membership_id) db.memberships
      || (any (is_active_member user_id workspace_id) db.memberships
          || not (has_workspace workspace_id db))
    then err integrity_error
    else ok (
      tt,
      record db {
        memberships = db.memberships ++ owner_membership membership_id workspace_id user_id ∷ [];
      },
    )

-- The row that _INSERT_WORKSPACE_AUDIT inserts; a column that it leaves out is null.
abbrev pub workspace_event : ℕ → ℕ → ℕ → ℕ → Text → ℕ → Option Text → AuditRow
workspace_event audit_id user_id auth_session_id workspace_id name request_id trace_id = record {
  id = audit_id;
  workspace_id = workspace_id;
  project_id = none;
  actor_user_id = user_id;
  actor_role_snapshot = "OWNER";
  action = "WORKSPACE_CREATED";
  resource_type = "WORKSPACE";
  resource_id = workspace_id;
  resource_display_snapshot = name;
  before_json = none;
  after_json = some (
      text_field "name" name
        (text_field "role" (codes "OWNER") (text_field "status" (codes "ACTIVE") end)));
  change_json = none;
  request_id = uuid_str request_id;
  trace_id = trace_id;
  session_id = uuid_str auth_session_id;
}

-- The answer, whose status is decoded after the commit.
unfoldable pub answer : WorkspaceRow → Result WorkspaceAccess
answer r = elim (status_of r.status) [
  | err e ↦ err e
  | ok status ↦ ok (record {
    workspace_id = r.id;
    name = r.name;
    status = status;
    role = WorkspaceRole.owner;
    created_at = r.created_at;
    updated_at = r.updated_at;
  })
]

unfoldable pub create_owned_workspace :
    Draw → Draw → Draw → ℕ → ℕ → Text → ℕ → Option Text → Tx WorkspaceAccess
create_owned_workspace draw membership_draw audit_draw user_id auth_session_id name request_id
      trace_id =
    do
      workspace_id ← lift (uuid7 draw)
      membership_id ← lift (uuid7 membership_draw)
      row ← transaction (do
        row ← execute (insert_workspace workspace_id name)
        execute (insert_owner_membership membership_id workspace_id user_id)
        audit_id ← lift (uuid7 audit_draw)
        execute (
            insert_audit (
              workspace_event audit_id user_id auth_session_id workspace_id name request_id
                trace_id))
        pure row)
      lift (answer row)
