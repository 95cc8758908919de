-- ===== src/Connections/Effects/Rename.antt =====
-- What `rename_connection` of connection_repository.py has done when it succeeds.
use bff.Prelude.{ℕ, ◌≡◌, refl}
use bff.Result.{Result, ok}
use bff.Text.{Text}
use bff.Ids.{Draw}
use bff.Json.{end}
use bff.Db.{Db}
use bff.Db.Rules.{Post, query_rule, lift_rule, query_last, transaction_rule, write_rule}
use bff.Connections.Models.{Connection, ConnectionMutationContext}
use bff.Connections.Repository.Queries.{mutation_context, fetch_connection}
use bff.Connections.Repository.Statements.{update_connection, rename_statement}
use bff.Connections.Repository.Commands
use bff.Connections.Repository.Commands.{
  Caller, audit_event, created_json, text_field, published_json, access_json, lifecycle_name,
  target,
}
use bff.Connections.Effects.Statements.{audit_rule}
use bff.Connections.Effects.{Admitted, with_event}

module _ (k : Caller) (connection_id : ℕ) (audit_draw : Draw)
    (authorize : ConnectionMutationContext → Result (Unit {0})) where
  -- `rename_connection`
  pub record Renamed (name : Text) (db : Db) (r : Connection) (db' : Db) : Type 0 where
    pub admitted : Admitted k connection_id authorize db
    pub before : Connection
    pub fetched : fetch_connection k.workspace_id connection_id db ≡ ok before
    pub audit_id : ℕ
    pub state :
        db'
        ≡ with_event
            (update_connection k.workspace_id connection_id
              (λ c. record c { name = name; updated_at = db.now })
              db)
            k
            audit_id
            admitted.context.workspace
            connection_id
            name
            "CONNECTION_RENAMED"
            (text_field "name" before.name end)
            (text_field "name" name end)
    pub returned : fetch_connection k.workspace_id connection_id db' ≡ ok r

  pub rename_connection-Renamed :
      (name : Text) (db : Db)
      → Post
          (Renamed name db)
          (Commands.rename_connection k connection_id audit_draw authorize name)
          db
  unfolding Commands.rename_connection rename_statement
  rename_connection-Renamed name db = transaction_rule (Renamed name db) db _ (
      query_rule (Renamed name db) db (mutation_context k.user_id k.workspace_id connection_id) _
        λ context found. lift_rule (Renamed name db) db (authorize context) _ λ _ allowed.
          query_rule (Renamed name db) db (fetch_connection k.workspace_id connection_id) _
            λ before fetched.
              write_rule (Renamed name db) db (rename_statement k.workspace_id connection_id name) _
                _ refl
                λ _.
                  audit_rule (Renamed name db) _ _ k audit_draw context.workspace connection_id name
                    "CONNECTION_RENAMED" (text_field "name" before.name end)
                    (text_field "name" name end)
                    λ audit_id _.
                      query_last (Renamed name db) _ (fetch_connection k.workspace_id connection_id)
                        λ r returned. record {
                          admitted = record { context = context; found = found; allowed = allowed };
                          before = before;
                          fetched = fetched;
                          audit_id = audit_id;
                          state = refl;
                          returned = returned;
                        })
