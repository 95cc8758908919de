-- ===== src/Connections/Effects/Lifecycle.antt =====
-- What `transition_lifecycle` of connection_repository.py has done when it succeeds.
use bff.Prelude.{ℕ, ◌≡◌, refl, some, if◌then◌else◌, str_eq}
use bff.Result.{Result, ok}
use bff.Text.{codes}
use bff.Ids.{Draw}
use bff.Json.{end}
use bff.Db.{Db, pure}
use bff.Db.Rules.{Post, query_rule, lift_rule, transaction_rule, pure_rule, write_rule}
use bff.Connections.Models.{Connection, ConnectionLifecycleAction, ConnectionMutationContext}
use bff.Connections.Values.{status_value}
use bff.Connections.Repository.Queries.{mutation_context, fetch_connection}
use bff.Connections.Repository.Statements.{update_connection, update_lifecycle}
use bff.Connections.Repository.Commands
use bff.Connections.Repository.Commands.{
  Caller, audit_event, created_json, text_field, published_json, access_json, lifecycle_name,
  target,
}
use bff.Connections.Effects.Statements.{audit_rule}
use bff.Connections.Effects.{Admitted, with_event}

module _ (k : Caller) (connection_id : ℕ) (audit_draw : Draw)
    (authorize : ConnectionMutationContext → Result (Unit {0})) where
  -- `transition_lifecycle`
  pub record Transitioned (action : ConnectionLifecycleAction) (db : Db) (r : Connection) (db' : Db)
      : Type 0 where
    pub admitted : Admitted k connection_id authorize db
    pub audit_id : ℕ
    pub state :
        db'
        ≡ with_event
            (update_connection k.workspace_id connection_id
              (λ c. record c {
                status = status_value (target action);
                archived_at =
                    if str_eq (status_value (target action)) "ARCHIVED"
                    then some db.now
                    else c.archived_at;
                updated_at = db.now;
              })
              db)
            k
            audit_id
            admitted.context.workspace
            connection_id
            r.name
            (lifecycle_name action)
            (text_field "status" (codes (status_value admitted.context.status)) end)
            (text_field "status" (codes (status_value (target action))) end)
    pub returned : fetch_connection k.workspace_id connection_id db' ≡ ok r

  pub transition_lifecycle-Transitioned :
      (action : ConnectionLifecycleAction) (db : Db)
      → Post
          (Transitioned action db)
          (Commands.transition_lifecycle k connection_id audit_draw authorize action)
          db
  unfolding Commands.transition_lifecycle update_lifecycle fetch_connection
  transition_lifecycle-Transitioned action db = transaction_rule (Transitioned action db) db _ (
      query_rule (Transitioned action db) db
        (mutation_context k.user_id k.workspace_id connection_id) _
        λ context found. lift_rule (Transitioned action db) db (authorize context) _ λ _ allowed.
          write_rule (Transitioned action db) db
            (update_lifecycle k.workspace_id connection_id (status_value (target action))) _ _ refl
            λ _.
              query_rule (Transitioned action db) _ (fetch_connection k.workspace_id connection_id)
                _
                λ r returned.
                  audit_rule (Transitioned action db) _ (λ _. pure r) k audit_draw context.workspace
                    connection_id r.name (lifecycle_name action)
                    (text_field "status" (codes (status_value context.status)) end)
                    (text_field "status" (codes (status_value (target action))) end)
                    λ audit_id _. pure_rule _ _ r (record {
                      admitted = record { context = context; found = found; allowed = allowed };
                      audit_id = audit_id;
                      state = refl;
                      returned = returned;
                    }))
