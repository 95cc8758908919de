-- ===== src/Connections/Effects/Draft.antt =====
-- What `put_draft` of connection_repository.py has done when it succeeds.
use bff.Prelude.{ℕ, ◌≡◌, refl}
use bff.Result.{Result, ok}
use bff.Json.{JsonObject}
use bff.Db.{Db, DraftRow, pure}
use bff.Db.Rules.{Post, query_rule, lift_rule, execute_rule, transaction_rule, pure_rule}
use bff.Connections.Models.{ConnectionDraft, ConnectionMutationContext}
use bff.Connections.Repository.Queries.{mutation_context, draft_from_row}
use bff.Connections.Repository.Statements.{upsert_draft}
use bff.Connections.Repository.Commands
use bff.Connections.Repository.Commands.{
  Caller, audit_event, created_json, text_field, published_json, access_json, lifecycle_name,
  target,
}

-- `put_draft`
module _ (user_id workspace_id connection_id : ℕ) (configuration : JsonObject)
    (authorize : ConnectionMutationContext → Result (Unit {0}))
    (compile : ConnectionMutationContext → JsonObject → Result JsonObject) where
  pub record DraftPut (db : Db) (r : ConnectionDraft) (db' : Db) : Type 0 where
    pub context : ConnectionMutationContext
    pub found : mutation_context user_id workspace_id connection_id db ≡ ok context
    pub allowed : authorize context ≡ ok tt
    pub compiled : JsonObject
    pub accepted : compile context configuration ≡ ok compiled
    pub row : DraftRow
    pub written : upsert_draft connection_id workspace_id compiled user_id db ≡ ok (row, db')
    pub result : r ≡ draft_from_row row

  pub put_draft-DraftPut :
      (db : Db)
      → Post
          (DraftPut db)
          (Commands.put_draft user_id workspace_id connection_id configuration authorize compile)
          db
  unfolding Commands.put_draft
  put_draft-DraftPut db = transaction_rule (DraftPut db) db _ (
      query_rule (DraftPut db) db (mutation_context user_id workspace_id connection_id) _
        λ context found. lift_rule (DraftPut db) db (authorize context) _ λ _ allowed.
          lift_rule (DraftPut db) db (compile context configuration) _ λ compiled accepted.
            execute_rule (DraftPut db) db (upsert_draft connection_id workspace_id compiled user_id)
              (λ row. pure (draft_from_row row))
              λ row db' written. pure_rule (DraftPut db) db' (draft_from_row row) (record {
                context = context;
                found = found;
                allowed = allowed;
                compiled = compiled;
                accepted = accepted;
                row = row;
                written = written;
                result = refl;
              }))
