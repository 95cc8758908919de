-- ===== src/Connections/Repository/Commands.antt =====
-- The methods of `SqlAlchemyConnectionRepository` that write.
use bff.Prelude.{some, ℕ, String, Option, none, List, map}
use bff.Result.{Result, ok, connection_state_conflict}
use bff.Text.{Text, codes}
use bff.Ids.{Draw, uuid7, uuid_str}
use bff.Json.{Json, str, int, arr, items, JsonObject, field, end}
use bff.Prelude.{pos}
use bff.Db.{AuditRow, Tx, lift, query, execute, pure, ◌>>=◌, ◌>>◌, transaction}
use bff.Connections.Models.{
  Connection, ConnectionAccessPolicy, ConnectionDraft, ConnectionLifecycleAction, disable, enable,
  archive, ConnectionMutationContext, ConnectionRevision, ConnectionStatus,
  ConnectionWorkspaceContext, PublishedConnectionConfiguration,
}
use bff.Connections.Values.{status_value, mode_value, role_value}
use bff.Connections.Repository.Queries.{
  workspace_context, mutation_context, fetch_connection, validate_projects, one_or_none, or_raise,
  select_draft, draft_from_row, next_revision_number, revision_from_row, bytes_hex,
}
use bff.Connections.Repository.Statements.{
  insert_connection, insert_project_access, rename_statement, upsert_draft, insert_revision,
  activate_draft_connection, delete_project_access, update_access_mode, update_lifecycle,
  insert_audit,
}

-- The keyword arguments that every audited method takes.
pub record Caller : Type 0 where
  pub user_id : ℕ
  pub auth_session_id : ℕ
  pub workspace_id : ℕ
  pub request_id : ℕ
  pub trace_id : Option Text

abbrev pub text_field : String → Text → JsonObject → JsonObject
text_field k v rest = field (codes k) (str v) rest

abbrev pub ids_json : List ℕ → Json
ids_json ids = arr (items (map (λ i. str (uuid_str i)) ids))

-- `_access_json`
abbrev pub access_json : ConnectionAccessPolicy → JsonObject
access_json policy =
    text_field "access_mode" (codes (mode_value policy.mode))
      (field (codes "project_ids") (ids_json policy.project_ids) end)

-- The row that `_audit` inserts; `change` is `{}`, since no caller gives it.
abbrev pub audit_event :
    Caller → ℕ → ConnectionWorkspaceContext → ℕ → Text → String → JsonObject → JsonObject → AuditRow
audit_event k audit_id context connection_id name action before after = record {
  id = audit_id;
  workspace_id = context.workspace_id;
  project_id = none;
  actor_user_id = k.user_id;
  actor_role_snapshot = role_value context.role;
  action = action;
  resource_type = "CONNECTION";
  resource_id = connection_id;
  resource_display_snapshot = name;
  before_json = some before;
  after_json = some after;
  change_json = some end;
  request_id = uuid_str k.request_id;
  trace_id = k.trace_id;
  session_id = uuid_str k.auth_session_id;
}

-- `_audit`
unfoldable pub audit :
    Caller
    → Draw
    → ConnectionWorkspaceContext
    → ℕ
    → Text
    → String
    → JsonObject
    → JsonObject
    → Tx (Unit {0})
audit k draw context connection_id name action before after = do
  audit_id ← lift (uuid7 draw)
  execute (insert_audit (audit_event k audit_id context connection_id name action before after))

-- What each audit event records.
abbrev pub created_json : Text → Text → ConnectionAccessPolicy → JsonObject
created_json name provider_key policy = text_field "access_mode" (codes (mode_value policy.mode)) (
    text_field "name" name (
      field (codes "project_ids") (ids_json policy.project_ids) (
        text_field "provider_key" provider_key
          (text_field "status" (codes (status_value ConnectionStatus.draft)) end))))

abbrev pub published_json : PublishedConnectionConfiguration → ℕ → ℕ → ConnectionStatus → JsonObject
published_json compiled revision_id revision_number status =
    text_field "config_hash" (bytes_hex compiled.config_hash) (
      field (codes "definition_schema_version") (int (pos compiled.definition_schema_version)) (
        text_field "revision_id" (uuid_str revision_id) (
          field (codes "revision_number") (int (pos revision_number))
            (text_field "status" (codes (status_value status)) end))))

-- `targets[action]`
abbrev pub target : ConnectionLifecycleAction → ConnectionStatus
target disable = ConnectionStatus.disabled
target enable = ConnectionStatus.active
target archive = ConnectionStatus.archived

abbrev pub lifecycle_name : ConnectionLifecycleAction → String
lifecycle_name disable = "CONNECTION_DISABLED"
lifecycle_name enable = "CONNECTION_ENABLED"
lifecycle_name archive = "CONNECTION_ARCHIVED"

module _ (k : Caller) where
  -- `create_connection`; the two draws are the two calls of `uuid7`
  unfoldable pub create_connection :
      Draw
      → Draw
      → Text
      → Text
      → ConnectionAccessPolicy
      → (ConnectionWorkspaceContext → Result (Unit {0}))
      → Tx Connection
  create_connection draw audit_draw name provider_key policy authorize = do
    connection_id ← lift (uuid7 draw)
    transaction (do
      context ← query (workspace_context k.user_id k.workspace_id)
      lift (authorize context)
      query (validate_projects k.workspace_id policy.project_ids)
      execute (
          insert_connection connection_id k.workspace_id name provider_key (mode_value policy.mode))
      execute (insert_project_access k.workspace_id connection_id k.user_id policy.project_ids)
      audit k audit_draw context connection_id name "CONNECTION_CREATED" end
          (created_json name provider_key policy)
      query (fetch_connection k.workspace_id connection_id))

module _ (k : Caller) (connection_id : ℕ) (audit_draw : Draw)
    (authorize : ConnectionMutationContext → Result (Unit {0})) where
  unfoldable pub rename_connection : Text → Tx Connection
  rename_connection name = transaction (do
    context ← query (mutation_context k.user_id k.workspace_id connection_id)
    lift (authorize context)
    before ← query (fetch_connection k.workspace_id connection_id)
    execute (rename_statement k.workspace_id connection_id name)
    audit k audit_draw context.workspace connection_id name "CONNECTION_RENAMED"
        (text_field "name" before.name end) (text_field "name" name end)
    query (fetch_connection k.workspace_id connection_id))

  unfoldable pub publish_revision :
      Draw
      → (ConnectionMutationContext → JsonObject → Result PublishedConnectionConfiguration)
      → Tx ConnectionRevision
  publish_revision draw compile_configuration = do
    revision_id ← lift (uuid7 draw)
    transaction (do
      context ← query (mutation_context k.user_id k.workspace_id connection_id)
      lift (authorize context)
      found ← query (λ db. one_or_none (select_draft k.workspace_id connection_id db))
      draft_row ← lift (or_raise connection_state_conflict found)
      compiled ← lift (compile_configuration context draft_row.draft_json)
      revision_number ← query (λ db. ok (next_revision_number connection_id db))
      row ← execute (
          insert_revision revision_id k.workspace_id connection_id revision_number
            compiled.definition_schema_version compiled.configuration compiled.config_hash
            k.user_id)
      execute (activate_draft_connection k.workspace_id connection_id)
      connection ← query (fetch_connection k.workspace_id connection_id)
      audit k audit_draw context.workspace connection_id connection.name
          "CONNECTION_REVISION_PUBLISHED" end
          (published_json compiled revision_id revision_number connection.status)
      pure (revision_from_row row))

  unfoldable pub replace_access : ConnectionAccessPolicy → Tx Connection
  replace_access policy = transaction (do
    context ← query (mutation_context k.user_id k.workspace_id connection_id)
    lift (authorize context)
    before ← query (fetch_connection k.workspace_id connection_id)
    query (validate_projects k.workspace_id policy.project_ids)
    execute (delete_project_access connection_id)
    execute (insert_project_access k.workspace_id connection_id k.user_id policy.project_ids)
    execute (update_access_mode k.workspace_id connection_id (mode_value policy.mode))
    updated ← query (fetch_connection k.workspace_id connection_id)
    audit k audit_draw context.workspace connection_id updated.name "CONNECTION_ACCESS_UPDATED"
        (access_json before.access_policy) (access_json updated.access_policy)
    pure updated)

  unfoldable pub transition_lifecycle : ConnectionLifecycleAction → Tx Connection
  transition_lifecycle action = transaction (do
    context ← query (mutation_context k.user_id k.workspace_id connection_id)
    lift (authorize context)
    execute (update_lifecycle k.workspace_id connection_id (status_value (target action)))
    updated ← query (fetch_connection k.workspace_id connection_id)
    audit k audit_draw context.workspace connection_id updated.name (lifecycle_name action)
        (text_field "status" (codes (status_value context.status)) end)
        (text_field "status" (codes (status_value (target action))) end)
    pure updated)

-- `put_draft`, which writes no audit event
unfoldable pub put_draft :
    ℕ
    → ℕ
    → ℕ
    → JsonObject
    → (ConnectionMutationContext → Result (Unit {0}))
    → (ConnectionMutationContext → JsonObject → Result JsonObject)
    → Tx ConnectionDraft
put_draft user_id workspace_id connection_id configuration authorize compile_configuration =
    transaction (do
      context ← query (mutation_context user_id workspace_id connection_id)
      lift (authorize context)
      compiled ← lift (compile_configuration context configuration)
      row ← execute (upsert_draft connection_id workspace_id compiled user_id)
      pure (draft_from_row row))
