-- ===== src/Connections/Effects/Publish.antt =====
-- What `publish_revision` of connection_repository.py has done when it succeeds.
use bff.Prelude.{ℕ, ◌≡◌, refl, ap, ◌∙◌, Option, none, some, [], ◌∷◌, ◌++◌}
use bff.Result.{Result, ok, connection_state_conflict}
use bff.Ids.{Draw, uuid7}
use bff.Json.{JsonObject, end}
use bff.Db.{Db, DraftRow, RevisionRow, pure}
use bff.Db.Rules.{
  Post, query_rule, lift_rule, execute_rule, transaction_rule, pure_rule, write_rule,
}
use bff.Connections.Models.{
  Connection, ConnectionMutationContext, ConnectionRevision, PublishedConnectionConfiguration,
}
use bff.Connections.Repository.Queries.{
  mutation_context, fetch_connection, one_or_none, or_raise, select_draft, next_revision_number,
  revision_from_row,
}
use bff.Connections.Repository.Statements.{insert_revision, activate_draft_connection}
use bff.Connections.Repository.Commands
use bff.Connections.Repository.Commands.{
  Caller, audit_event, created_json, text_field, published_json, access_json, lifecycle_name,
  target,
}
use bff.Connections.Effects.Statements.{audit_rule, insert_revision-ok, revision_row}
use bff.Connections.Effects.{Admitted, with_event, activated}

present_some :
    (o : Option DraftRow) (d : DraftRow) → or_raise connection_state_conflict o ≡ ok d → o ≡ some d
present_some none d h = cc
present_some (some x) d h = cc

module _ (k : Caller) (connection_id : ℕ) (audit_draw : Draw)
    (authorize : ConnectionMutationContext → Result (Unit {0})) where
  -- `publish_revision`
  pub record Published (draw : Draw)
      (compile : ConnectionMutationContext → JsonObject → Result PublishedConnectionConfiguration)
      (db : Db) (r : ConnectionRevision) (db' : Db) : Type 0 where
    pub admitted : Admitted k connection_id authorize db
    pub revision_id : ℕ
    pub drawn : uuid7 draw ≡ ok revision_id
    pub draft_row : DraftRow
    pub draft : one_or_none (select_draft k.workspace_id connection_id db) ≡ ok (some draft_row)
    pub compiled : PublishedConnectionConfiguration
    pub accepted : compile admitted.context draft_row.draft_json ≡ ok compiled
    pub revision_number : ℕ
    pub numbered : revision_number ≡ next_revision_number connection_id db
    pub row : RevisionRow
    pub inserted :
        row
        ≡ revision_row db revision_id k.workspace_id connection_id revision_number
            compiled.definition_schema_version compiled.configuration compiled.config_hash k.user_id
    pub result : r ≡ revision_from_row row
    pub connection : Connection
    pub audit_id : ℕ
    pub state :
        db'
        ≡ with_event
            (activated k.workspace_id connection_id
              (record db { revisions = db.revisions ++ row ∷ [] }))
            k
            audit_id
            admitted.context.workspace
            connection_id
            connection.name
            "CONNECTION_REVISION_PUBLISHED"
            end
            (published_json compiled revision_id revision_number connection.status)

  pub publish_revision-Published :
      (draw : Draw)
      (compile : ConnectionMutationContext → JsonObject → Result PublishedConnectionConfiguration)
      (db : Db)
      → Post
          (Published draw compile db)
          (Commands.publish_revision k connection_id audit_draw authorize draw compile)
          db
  unfolding Commands.publish_revision activate_draft_connection
  publish_revision-Published draw compile db =
      let Q = Published draw compile db in
      lift_rule Q db (uuid7 draw) _ λ i drawn. transaction_rule Q db _ (
        query_rule Q db (mutation_context k.user_id k.workspace_id connection_id) _ λ context found.
          lift_rule Q db (authorize context) _ λ _ allowed.
            query_rule Q db (λ d. one_or_none (select_draft k.workspace_id connection_id d)) _
              λ o selected.
                lift_rule Q db (or_raise connection_state_conflict o) _ λ draft_row present.
                  lift_rule Q db (compile context draft_row.draft_json) _ λ compiled accepted.
                    query_rule Q db (λ d. ok (next_revision_number connection_id d)) _
                      λ n next.
                        execute_rule Q db
                          (insert_revision i k.workspace_id connection_id n
                            compiled.definition_schema_version compiled.configuration
                            compiled.config_hash k.user_id)
                          _
                          λ row db' inserted.
                            let (shape, state) =
                              insert_revision-ok i k.workspace_id connection_id n
                                compiled.definition_schema_version compiled.configuration
                                compiled.config_hash k.user_id db row db' inserted in
                            write_rule Q db'
                              (activate_draft_connection k.workspace_id connection_id) _ _ refl
                              λ _.
                                query_rule Q _ (fetch_connection k.workspace_id connection_id) _
                                  λ connection fetched.
                                    audit_rule Q _ (λ _. pure (revision_from_row row)) k audit_draw
                                      context.workspace connection_id connection.name
                                      "CONNECTION_REVISION_PUBLISHED" end
                                      (published_json compiled i n connection.status)
                                      λ audit_id _. pure_rule Q _ (revision_from_row row) (record {
                                        admitted = record {
                                          context = context;
                                          found = found;
                                          allowed = allowed;
                                        };
                                        revision_id = i;
                                        drawn = drawn;
                                        draft_row = draft_row;
                                        draft = selected ∙ ap ok (present_some o draft_row present);
                                        compiled = compiled;
                                        accepted = accepted;
                                        revision_number = n;
                                        numbered = cc;
                                        row = row;
                                        inserted = shape;
                                        result = refl;
                                        connection = connection;
                                        audit_id = audit_id;
                                        state =
                                            ap
                                              (λ (d : Db).
                                                with_event
                                                  (activated k.workspace_id connection_id d) k
                                                  audit_id context.workspace connection_id
                                                  connection.name "CONNECTION_REVISION_PUBLISHED"
                                                  end
                                                  (published_json compiled i n connection.status))
                                              state;
                                      }))
