-- ===== src/Connections/Effects/Statements.antt =====
-- What the statements that may violate a constraint leave when they do not.
use bff.Prelude.{
  Bool, true, false, not, sym, if◌then◌else◌, ℕ, String, ◌≡◌, ap, ◌∙◌, false, none, some, List, [],
  ◌∷◌, ◌++◌, map, any, ◌==◌, arith,
}
use mathlib.Core.List.{append-nil, append_assoc}
use bff.Result.{integrity_error, err, Result, ok, err}
use bff.Text.{Text}
use bff.Ids.{Draw, uuid7}
use bff.Json.{JsonObject}
use bff.Db.{DraftRow, Db, Tx, ConnectionRow, AccessRow, RevisionRow, AuditRow, lift, execute, ◌>>=◌}
use bff.Db.Rules.{Post, execute_rule}
use bff.Connections.Models.{ConnectionWorkspaceContext}
use bff.Connections.Repository.Statements.{
  has_connection, upsert_draft, upsert, upserted, insert_connection, insert_project_access,
  access_row, insert_revision, insert_audit,
}
use bff.Connections.Repository.Commands.{Caller, audit, audit_event}

-- The row of a new Connection.
abbrev pub created_row : Db → ℕ → ℕ → Text → Text → String → ConnectionRow
created_row db connection_id workspace_id name provider_key access_mode = record {
  id = connection_id;
  workspace_id = workspace_id;
  name = name;
  provider_key = provider_key;
  access_mode = access_mode;
  status = "DRAFT";
  created_at = db.now;
  updated_at = db.now;
  archived_at = none;
}

-- The access rows after a grant.
abbrev pub grant : ℕ → ℕ → ℕ → List ℕ → Db → List AccessRow
grant workspace_id connection_id user_id ids db =
    db.access ++ map (access_row db.now workspace_id connection_id user_id) ids

abbrev pub revision_row : Db → ℕ → ℕ → ℕ → ℕ → ℕ → JsonObject → List ℕ → ℕ → RevisionRow
revision_row db revision_id workspace_id connection_id revision_number definition_schema_version
      config_json config_hash user_id =
    record {
      id = revision_id;
      workspace_id = workspace_id;
      connection_id = connection_id;
      revision_number = revision_number;
      definition_schema_version = definition_schema_version;
      config_json = config_json;
      config_hash = config_hash;
      created_by_user_id = some user_id;
      created_at = db.now;
    }

-- A grant that violates no constraint appends one row for each project.
insert_project_access-ok :
    (workspace_id connection_id user_id : ℕ) (ids : List ℕ) (db db' : Db)
    → insert_project_access workspace_id connection_id user_id ids db ≡ ok (tt, db')
    → db' ≡ record db { access = grant workspace_id connection_id user_id ids db }
unfolding insert_project_access
insert_project_access-ok w c u [] db db' h = rw append-nil (ground arith)
insert_project_access-ok w c u (p ∷ ps) db db' h =
    let one = record db { access = db.access ++ access_row db.now w c u p ∷ [] } in
    let rest : insert_project_access w c u ps one ≡ ok (tt, db') = ground arith in
    insert_project_access-ok w c u ps one db' rest
    ∙ ap (λ (a : List AccessRow). record db { access = a })
        (append_assoc db.access (access_row db.now w c u p ∷ []) (map (access_row db.now w c u) ps))

insert_connection-ok :
    (i w : ℕ) (name provider : Text) (mode : String) (db db' : Db)
    → insert_connection i w name provider mode db ≡ ok (tt, db')
    → (any (λ c. c.id == i) db.connections ≡ false)
      × (db' ≡ record db {
        connections = db.connections ++ created_row db i w name provider mode ∷ [];
      })
unfolding insert_connection
insert_connection-ok i w name provider mode db db' h = ground arith

insert_audit-ok :
    (event : AuditRow) (db db' : Db)
    → insert_audit event db ≡ ok (tt, db')
    → db' ≡ record db { audit = db.audit ++ event ∷ [] }
unfolding insert_audit
insert_audit-ok event db db' h = ground arith

-- An insert of a revision that violates no constraint.
pub insert_revision-ok :
    (i w c n v : ℕ) (config : JsonObject) (digest : List ℕ) (u : ℕ) (db : Db) (r : RevisionRow)
    (db' : Db)
    → insert_revision i w c n v config digest u db ≡ ok (r, db')
    → (r ≡ revision_row db i w c n v config digest u)
      × (db' ≡ record db { revisions = db.revisions ++ r ∷ [] })
unfolding insert_revision
insert_revision-ok i w c n v config digest u db r db' h = ground arith

abbrev pub put_row : Db → ℕ → ℕ → JsonObject → ℕ → DraftRow
put_row db connection_id workspace_id draft_json user_id = record {
  connection_id = connection_id;
  workspace_id = workspace_id;
  draft_json = draft_json;
  updated_by_user_id = some user_id;
  updated_at = db.now;
}

unless_ok :
    {A : Type 0} (b : Bool) (v a : A) → (if not b then err integrity_error else ok v) ≡ ok a → v ≡ a
unless_ok true v a h = cc
unless_ok false v a h = cc

pub upsert_draft-ok :
    (i w : ℕ) (draft_json : JsonObject) (u : ℕ) (db : Db) (r : DraftRow) (db' : Db)
    → upsert_draft i w draft_json u db ≡ ok (r, db')
    → (r ≡ upserted (put_row db i w draft_json u) db.drafts)
      × (db' ≡ record db { drafts = upsert (put_row db i w draft_json u) db.drafts })
unfolding upsert_draft
upsert_draft-ok i w draft_json u db r db' h =
    let both = unless_ok (has_connection w i db) _ _ h in
    (sym (ap (λ (x : DraftRow × Db). x.0) both), sym (ap (λ (x : DraftRow × Db). x.1) both))

module _ {B : Type 0} (Q : B → Db → Type 0) (db : Db) (g : Unit {0} → Tx B) where
  pub audit_rule :
      (k : Caller) (draw : Draw) (context : ConnectionWorkspaceContext) (connection_id : ℕ)
      (name : Text) (action : String) (before after : JsonObject)
      → ((audit_id : ℕ) (u : Unit {0})
          → Post Q (g u) (record db {
            audit =
                db.audit
                ++ audit_event k audit_id context connection_id name action before after ∷ [];
          }))
      → Post Q (audit k draw context connection_id name action before after >>= g) db
  unfolding audit Post
  audit_rule k draw context c name action before after h = go (uuid7 draw)
    where
      event : ℕ → AuditRow
      event i = audit_event k i context c name action before after

      go : (r : Result ℕ) → Post Q ((lift r >>= λ i. execute (insert_audit (event i))) >>= g) db
      go (err x) = tt
      go (ok i) =
          execute_rule Q db (insert_audit (event i)) g
            (λ _ db' e. rw (insert_audit-ok (event i) db db' e) (h i tt))

  pub insert_project_access_rule :
      (workspace_id connection_id user_id : ℕ) (ids : List ℕ)
      → ((u : Unit {0})
          → Post Q (g u) (record db { access = grant workspace_id connection_id user_id ids db }))
      → Post Q (execute (insert_project_access workspace_id connection_id user_id ids) >>= g) db
  insert_project_access_rule w c u ids h =
      execute_rule Q db (insert_project_access w c u ids) g
        (λ _ db' e. rw (insert_project_access-ok w c u ids db db' e) (h tt))

  pub insert_connection_rule :
      (connection_id workspace_id : ℕ) (name provider_key : Text) (access_mode : String)
      → (any (λ c. c.id == connection_id) db.connections ≡ false
          → (u : Unit {0})
          → Post Q (g u) (record db {
            connections =
                db.connections
                ++ created_row db connection_id workspace_id name provider_key access_mode ∷ [];
          }))
      → Post Q
          (execute (insert_connection connection_id workspace_id name provider_key access_mode)
            >>= g)
          db
  insert_connection_rule i w name provider mode h =
      execute_rule Q db (insert_connection i w name provider mode) g (λ _ db' e.
        let (fresh, state) = insert_connection-ok i w name provider mode db db' e in
        rw state (h fresh tt))
