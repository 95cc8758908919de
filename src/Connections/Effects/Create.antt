-- ===== src/Connections/Effects/Create.antt =====
-- What `create_connection` of connection_repository.py has done when it succeeds.
use bff.Prelude.{ℕ, ◌≡◌, refl, false, [], ◌∷◌, ◌++◌, any, ◌==◌}
use bff.Result.{Result, ok}
use bff.Text.{Text}
use bff.Ids.{Draw, uuid7}
use bff.Json.{end}
use bff.Db.{Db}
use bff.Db.Rules.{Post, query_rule, lift_rule, query_last, transaction_rule}
use bff.Connections.Models.{Connection, ConnectionAccessPolicy, ConnectionWorkspaceContext}
use bff.Connections.Values.{mode_value}
use bff.Connections.Repository.Queries.{workspace_context, fetch_connection, validate_projects}
use bff.Connections.Repository.Commands
use bff.Connections.Repository.Commands.{
  Caller, audit_event, created_json, text_field, published_json, access_json, lifecycle_name,
  target,
}
use bff.Connections.Effects.Statements.{
  audit_rule, insert_connection_rule, created_row, insert_project_access_rule, grant,
}
use bff.Connections.Effects.{with_event}

-- `create_connection`
module _ (k : Caller) (draw audit_draw : Draw) (name provider_key : Text)
    (policy : ConnectionAccessPolicy)
    (authorize : ConnectionWorkspaceContext → Result (Unit {0})) where
  -- The tables after the two inserts.
  abbrev pub created : ℕ → Db → Db
  created connection_id db = record db {
    connections =
        db.connections
        ++ created_row db connection_id k.workspace_id name provider_key (mode_value policy.mode)
          ∷ [];
    access = grant k.workspace_id connection_id k.user_id policy.project_ids db;
  }

  pub record Created (db : Db) (r : Connection) (db' : Db) : Type 0 where
    pub context : ConnectionWorkspaceContext
    pub found : workspace_context k.user_id k.workspace_id db ≡ ok context
    pub allowed : authorize context ≡ ok tt
    pub projects : validate_projects k.workspace_id policy.project_ids db ≡ ok tt
    pub connection_id : ℕ
    pub drawn : uuid7 draw ≡ ok connection_id
    pub fresh : any (λ c. c.id == connection_id) db.connections ≡ false
    pub audit_id : ℕ
    pub state :
        db'
        ≡ with_event
            (created connection_id db)
            k
            audit_id
            context
            connection_id
            name
            "CONNECTION_CREATED"
            end
            (created_json name provider_key policy)
    pub returned : fetch_connection k.workspace_id connection_id db' ≡ ok r

  pub create_connection-Created :
      (db : Db)
      → Post
          (Created db)
          (Commands.create_connection k draw audit_draw name provider_key policy authorize)
          db
  unfolding Commands.create_connection
  create_connection-Created db = lift_rule (Created db) db (uuid7 draw) _ λ i drawn.
      transaction_rule (Created db) db _ (
        query_rule (Created db) db (workspace_context k.user_id k.workspace_id) _ λ context found.
          lift_rule (Created db) db (authorize context) _ λ _ allowed.
            query_rule (Created db) db (validate_projects k.workspace_id policy.project_ids) _
              λ _ projects.
                insert_connection_rule (Created db) db _ i k.workspace_id name provider_key
                  (mode_value policy.mode)
                  λ fresh _.
                    insert_project_access_rule (Created db) _ _ k.workspace_id i k.user_id
                      policy.project_ids
                      (λ _.
                        audit_rule (Created db) _ _ k audit_draw context i name "CONNECTION_CREATED"
                          end (created_json name provider_key policy)
                          λ audit_id _.
                            query_last (Created db) _ (fetch_connection k.workspace_id i)
                              λ r returned. record {
                                context = context;
                                found = found;
                                allowed = allowed;
                                projects = projects;
                                connection_id = i;
                                drawn = drawn;
                                fresh = fresh;
                                audit_id = audit_id;
                                state = refl;
                                returned = returned;
                              }))
