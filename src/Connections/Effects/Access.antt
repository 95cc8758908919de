-- ===== src/Connections/Effects/Access.antt =====
-- What `replace_access` of connection_repository.py has done when it succeeds.
use bff.Prelude.{ℕ, ◌≡◌, refl, ◌++◌, map, ◌==◌, filter, not}
use bff.Result.{Result, ok}
use bff.Ids.{Draw}
use bff.Db.{Db, pure}
use bff.Db.Rules.{Post, query_rule, lift_rule, transaction_rule, pure_rule, write_rule}
use bff.Connections.Models.{Connection, ConnectionAccessPolicy, ConnectionMutationContext}
use bff.Connections.Values.{mode_value}
use bff.Connections.Repository.Queries.{mutation_context, fetch_connection, validate_projects}
use bff.Connections.Repository.Statements.{
  update_connection, access_row, delete_project_access, update_access_mode,
}
use bff.Connections.Repository.Commands
use bff.Connections.Repository.Commands.{
  Caller, audit_event, created_json, text_field, published_json, access_json, lifecycle_name,
  target,
}
use bff.Connections.Effects.Statements.{audit_rule, insert_project_access_rule}
use bff.Connections.Effects.{Admitted, with_event}

module _ (k : Caller) (connection_id : ℕ) (audit_draw : Draw)
    (authorize : ConnectionMutationContext → Result (Unit {0})) where
  -- `replace_access`
  pub record AccessReplaced (policy : ConnectionAccessPolicy) (db : Db) (r : Connection) (db' : Db)
      : Type 0 where
    pub admitted : Admitted k connection_id authorize db
    pub before : Connection
    pub fetched : fetch_connection k.workspace_id connection_id db ≡ ok before
    pub projects : validate_projects k.workspace_id policy.project_ids db ≡ ok tt
    pub audit_id : ℕ
    pub state :
        db'
        ≡ with_event
            (update_connection k.workspace_id connection_id
              (λ c. record c { access_mode = mode_value policy.mode; updated_at = db.now })
              (record db {
                access =
                    filter (λ a. not (a.connection_id == connection_id)) db.access
                    ++ map
                        (access_row db.now k.workspace_id connection_id k.user_id)
                        policy.project_ids;
              }))
            k
            audit_id
            admitted.context.workspace
            connection_id
            r.name
            "CONNECTION_ACCESS_UPDATED"
            (access_json before.access_policy)
            (access_json r.access_policy)
    pub returned : fetch_connection k.workspace_id connection_id db' ≡ ok r

  pub replace_access-AccessReplaced :
      (policy : ConnectionAccessPolicy) (db : Db)
      → Post
          (AccessReplaced policy db)
          (Commands.replace_access k connection_id audit_draw authorize policy)
          db
  unfolding Commands.replace_access delete_project_access update_access_mode fetch_connection
  replace_access-AccessReplaced policy db = transaction_rule (AccessReplaced policy db) db _ (
      query_rule (AccessReplaced policy db) db
        (mutation_context k.user_id k.workspace_id connection_id) _
        λ context found. lift_rule (AccessReplaced policy db) db (authorize context) _ λ _ allowed.
          query_rule (AccessReplaced policy db) db (fetch_connection k.workspace_id connection_id) _
            λ before fetched.
              query_rule (AccessReplaced policy db) db
                (validate_projects k.workspace_id policy.project_ids) _
                λ _ projects.
                  write_rule (AccessReplaced policy db) db (delete_project_access connection_id) _ _
                    refl
                    λ _.
                      insert_project_access_rule (AccessReplaced policy db) _ _ k.workspace_id
                        connection_id k.user_id policy.project_ids
                        (λ _.
                          write_rule (AccessReplaced policy db) _
                            (update_access_mode k.workspace_id connection_id
                              (mode_value policy.mode))
                            _ _ refl
                            λ _.
                              query_rule (AccessReplaced policy db) _
                                (fetch_connection k.workspace_id connection_id) _
                                λ r returned.
                                  audit_rule (AccessReplaced policy db) _ (λ _. pure r) k audit_draw
                                    context.workspace connection_id r.name
                                    "CONNECTION_ACCESS_UPDATED" (access_json before.access_policy)
                                    (access_json r.access_policy)
                                    λ audit_id _. pure_rule _ _ r (record {
                                      admitted = record {
                                        context = context;
                                        found = found;
                                        allowed = allowed;
                                      };
                                      before = before;
                                      fetched = fetched;
                                      projects = projects;
                                      audit_id = audit_id;
                                      state = refl;
                                      returned = returned;
                                    })))
