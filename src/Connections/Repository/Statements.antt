-- ===== src/Connections/Repository/Statements.antt =====
-- The INSERTs, UPDATEs and DELETEs of connection_repository.py, with the keys and checks that
-- apps/control-api/migrations/sql declares for the tables they write. Foreign keys to `users` are
-- left out: the user of every call is a member of a Workspace, or the call fails before it writes.
use bff.Prelude.{
  ℕ, String, Bool, not, ◌&&◌, ◌||◌, none, some, List, [], ◌∷◌, ◌++◌, map, ltb, ◌==◌, str_eq,
  if◌then◌else◌, filter, any,
}
use bff.Result.{Result, ok, err, integrity_error}
use bff.Text.{Text}
use bff.Json.{JsonObject}
use bff.Db.{has_event, Db, ConnectionRow, AccessRow, DraftRow, RevisionRow, AuditRow}
use bff.Connections.Repository.Queries.{is_connection}

abbrev pub has_workspace : ℕ → Db → Bool
has_workspace workspace_id db = any (λ w. w.id == workspace_id) db.workspaces

-- The target of REFERENCES connections(workspace_id, id).
abbrev pub has_connection : ℕ → ℕ → Db → Bool
has_connection workspace_id connection_id db =
    any (is_connection workspace_id connection_id) db.connections

-- The target of REFERENCES projects(workspace_id, id).
abbrev pub has_project : ℕ → ℕ → Db → Bool
has_project workspace_id project_id db =
    any (λ p. p.workspace_id == workspace_id && p.id == project_id) db.projects

-- _INSERT_CONNECTION
unfoldable pub insert_connection : ℕ → ℕ → Text → Text → String → Db → Result (Unit {0} × Db)
insert_connection connection_id workspace_id name provider_key access_mode db =
    if any (λ c. c.id == connection_id) db.connections || not (has_workspace workspace_id db)
    then err integrity_error
    else ok (
      tt,
      record db {
        connections =
            db.connections
            ++ record {
              id = connection_id;
              workspace_id = workspace_id;
              name = name;
              provider_key = provider_key;
              access_mode = access_mode;
              status = "DRAFT";
              created_at = db.now;
              updated_at = db.now;
              archived_at = none;
            }
              ∷ [];
      },
    )

abbrev pub access_row : ℕ → ℕ → ℕ → ℕ → ℕ → AccessRow
access_row now workspace_id connection_id user_id project_id = record {
  workspace_id = workspace_id;
  connection_id = connection_id;
  project_id = project_id;
  granted_at = now;
  granted_by_user_id = some user_id;
}

-- _INSERT_PROJECT_ACCESS, for each of the project ids (`_insert_project_access`)
unfoldable pub insert_project_access : ℕ → ℕ → ℕ → List ℕ → Db → Result (Unit {0} × Db)
insert_project_access workspace_id connection_id user_id [] db = ok (tt, db)
insert_project_access workspace_id connection_id user_id (p ∷ ps) db =
    let rest = insert_project_access workspace_id connection_id user_id ps (record db {
      access = db.access ++ access_row db.now workspace_id connection_id user_id p ∷ [];
    }) in
    if any (λ a. a.connection_id == connection_id && a.project_id == p) db.access
      || (not (has_connection workspace_id connection_id db) || not (has_project workspace_id p db))
    then err integrity_error
    else rest

-- UPDATE app.connections ... WHERE workspace_id = :workspace_id AND id = :connection_id
abbrev pub update_connection : ℕ → ℕ → (ConnectionRow → ConnectionRow) → Db → Db
update_connection workspace_id connection_id f db = record db {
  connections =
      map (λ c. if is_connection workspace_id connection_id c then f c else c) db.connections;
}

-- _RENAME_CONNECTION
unfoldable pub rename_statement : ℕ → ℕ → Text → Db → Result (Unit {0} × Db)
rename_statement workspace_id connection_id name db = ok (
  tt,
  update_connection workspace_id connection_id (λ c. record c { name = name; updated_at = db.now })
      db,
)

-- The row that ON CONFLICT (connection_id) updates, and the others.
abbrev pub upsert : DraftRow → List DraftRow → List DraftRow
upsert d [] = d ∷ []
upsert d (e ∷ es) =
    if e.connection_id == d.connection_id
    then record e {
      draft_json = d.draft_json;
      updated_by_user_id = d.updated_by_user_id;
      updated_at = d.updated_at;
    }
      ∷ es
    else e ∷ upsert d es

-- What RETURNING shows of it.
abbrev pub upserted : DraftRow → List DraftRow → DraftRow
upserted d [] = d
upserted d (e ∷ es) =
    if e.connection_id == d.connection_id
    then record d { workspace_id = e.workspace_id }
    else upserted d es

-- _UPSERT_DRAFT
unfoldable pub upsert_draft : ℕ → ℕ → JsonObject → ℕ → Db → Result (DraftRow × Db)
upsert_draft connection_id workspace_id draft_json user_id db =
    let d : DraftRow = record {
      connection_id = connection_id;
      workspace_id = workspace_id;
      draft_json = draft_json;
      updated_by_user_id = some user_id;
      updated_at = db.now;
    } in
    if not (has_connection workspace_id connection_id db)
    then err integrity_error
    else ok (upserted d db.drafts, record db { drafts = upsert d db.drafts })

-- _INSERT_REVISION
unfoldable pub insert_revision :
    ℕ → ℕ → ℕ → ℕ → ℕ → JsonObject → List ℕ → ℕ → Db → Result (RevisionRow × Db)
insert_revision revision_id workspace_id connection_id revision_number definition_schema_version
      config_json config_hash user_id db =
    let r : RevisionRow = record {
      id = revision_id;
      workspace_id = workspace_id;
      connection_id = connection_id;
      revision_number = revision_number;
      definition_schema_version = definition_schema_version;
      config_json = config_json;
      config_hash = config_hash;
      created_by_user_id = some user_id;
      created_at = db.now;
    } in
    if any
        (λ q.
          q.id == revision_id
          || (q.connection_id == connection_id && q.revision_number == revision_number))
        db.revisions
      || (not (ltb 0 revision_number)
          || (not (ltb 0 definition_schema_version)
              || not (has_connection workspace_id connection_id db)))
    then err integrity_error
    else ok (r, record db { revisions = db.revisions ++ r ∷ [] })

-- _ACTIVATE_DRAFT_CONNECTION
unfoldable pub activate_draft_connection : ℕ → ℕ → Db → Result (Unit {0} × Db)
activate_draft_connection workspace_id connection_id db = ok (
  tt,
  update_connection workspace_id connection_id
      (λ c.
        if str_eq c.status "DRAFT" then record c { status = "ACTIVE"; updated_at = db.now } else c)
      db,
)

-- _DELETE_PROJECT_ACCESS
unfoldable pub delete_project_access : ℕ → Db → Result (Unit {0} × Db)
delete_project_access connection_id db =
    ok (tt, record db { access = filter (λ a. not (a.connection_id == connection_id)) db.access })

-- _UPDATE_ACCESS_MODE
unfoldable pub update_access_mode : ℕ → ℕ → String → Db → Result (Unit {0} × Db)
update_access_mode workspace_id connection_id access_mode db = ok (
  tt,
  update_connection workspace_id connection_id
      (λ c. record c { access_mode = access_mode; updated_at = db.now }) db,
)

-- _UPDATE_LIFECYCLE
unfoldable pub update_lifecycle : ℕ → ℕ → String → Db → Result (Unit {0} × Db)
update_lifecycle workspace_id connection_id status db = ok (
  tt,
  update_connection workspace_id connection_id
      (λ c. record c {
        status = status;
        archived_at = if str_eq status "ARCHIVED" then some db.now else c.archived_at;
        updated_at = db.now;
      })
      db,
)

-- _INSERT_AUDIT, which the constants of the statement are part of
unfoldable pub insert_audit : AuditRow → Db → Result (Unit {0} × Db)
insert_audit a db =
    if has_event a.id db || not (has_workspace a.workspace_id db)
    then err integrity_error
    else ok (tt, record db { audit = db.audit ++ a ∷ [] })
