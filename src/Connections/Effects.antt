-- ===== src/Connections/Effects.antt =====
-- What each writing method of the Connection repository has done when it succeeds: the context it
-- read, the guards it passed and the tables it leaves. One child for each method.
pub mod Statements
pub mod Create
pub mod Rename
pub mod Lifecycle
pub mod Access
pub mod Publish
pub mod Draft
use bff.Prelude.{
  ℕ, zero, suc, ◌+◌, String, ◌≡◌, refl, sym, ap, ◌∙◌, Bool, true, false, Option, none, some, List,
  [], ◌∷◌, ◌++◌, map, any, ◌==◌, filter, not, if◌then◌else◌, str_eq,
}
use bff.Result.{Result, ok, err, connection_state_conflict}
use bff.Text.{Text, codes}
use bff.Ids.{Draw, uuid7}
use bff.Json.{JsonObject, end}
use bff.Db.{
  Db, Tx, ConnectionRow, DraftRow, RevisionRow, transaction, query, lift, execute, pure, ◌>>=◌,
  ◌>>◌,
}
use bff.Db.Rules.{
  Post, query_rule, lift_rule, execute_rule, query_last, transaction_rule, pure_rule, write_rule,
}
use bff.Connections.Models.{
  Connection, ConnectionAccessPolicy, ConnectionDraft, ConnectionLifecycleAction,
  ConnectionMutationContext, ConnectionRevision, ConnectionStatus, ConnectionWorkspaceContext,
  PublishedConnectionConfiguration,
}
use bff.Connections.Values.{status_value, mode_value}
use bff.Connections.Repository.Queries.{
  workspace_context, mutation_context, fetch_connection, validate_projects, one_or_none, or_raise,
  select_draft, draft_from_row, next_revision_number, revision_from_row,
}
use bff.Connections.Repository.Statements.{
  update_connection, access_row, upsert, upserted, insert_connection, insert_project_access,
  rename_statement, upsert_draft, insert_revision, activate_draft_connection, delete_project_access,
  update_access_mode, update_lifecycle,
}
use bff.Connections.Repository.Commands
use bff.Connections.Repository.Commands.{
  Caller, audit_event, created_json, text_field, published_json, access_json, lifecycle_name,
  target,
}
use bff.Connections.Effects.Statements.{
  audit_rule, insert_connection_rule, created_row, insert_project_access_rule, insert_revision-ok,
  revision_row, grant,
}

-- The tables after _ACTIVATE_DRAFT_CONNECTION.
abbrev pub activated : ℕ → ℕ → Db → Db
activated workspace_id connection_id db =
    update_connection workspace_id connection_id
      (λ c.
        if str_eq c.status "DRAFT" then record c { status = "ACTIVE"; updated_at = db.now } else c)
      db

-- The context of a mutation and its guard.
pub record Admitted (k : Caller) (connection_id : ℕ)
    (authorize : ConnectionMutationContext → Result (Unit {0})) (db : Db) : Type 0 where
  pub context : ConnectionMutationContext
  pub found : mutation_context k.user_id k.workspace_id connection_id db ≡ ok context
  pub allowed : authorize context ≡ ok tt

abbrev pub with_event :
    Db → Caller → ℕ → ConnectionWorkspaceContext → ℕ → Text → String → JsonObject → JsonObject → Db
with_event db k audit_id context connection_id name action before after = record db {
  audit = db.audit ++ audit_event k audit_id context connection_id name action before after ∷ [];
}
