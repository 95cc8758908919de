-- ===== src/Projects/Creation.antt =====
-- What `create_project` of domains/projects/service.py does, from the name to the audit event.
use bff.Prelude.{ℕ, ◌≡◌, refl, ap, ◌∙◌, arith, false, [], ◌∷◌, ◌++◌, any, ◌==◌, Option, some, none}
use bff.Result.{Error, ok, err, project_workspace_not_found}
use bff.Text.{Text}
use bff.Ids.{Draw, uuid7}
use bff.Db.{
  Db, Tx, ProjectRow, WorkspaceRow, MembershipRow, AuditRow, transaction, query, lift, execute,
  pure, ◌>>=◌, ◌>>◌,
}
use bff.Db.Rules.{
  Post, Post-ok, Post-imp, transaction-IsAtomic, lift-IsAtomic, bind_rule, bind-IsAtomic, lift_rule,
  query_rule, execute_rule, transaction_rule, pure_rule,
}
use bff.Connections.Repository.Commands.{Caller}
use bff.Connections.Repository.Queries.{one_or_none, or_raise, select_workspace_context}
use bff.Projects.Models.{Project, ProjectStatus, ProjectWorkspaceContext, project_status_of}
use bff.Projects.Policies.{normalize_project_name}
use bff.Projects.Reads.{context_from_row, project_from_row}
use bff.Projects.Repository
use bff.Projects.Repository.{new_project, project_event, insert_project, insert_project_audit}
use bff.Projects.Service
use bff.Projects.Service.{authorize_creation}

-- The Project that a new row shows.
abbrev pub as_project : ProjectRow → Project
as_project r = record {
  project_id = r.id;
  workspace_id = r.workspace_id;
  name = r.name;
  status = ProjectStatus.active;
  created_at = r.created_at;
  updated_at = r.updated_at;
  archived_at = r.archived_at;
}

insert_project-ok :
    (i w : ℕ) (name : Text) (db : Db) (r : ProjectRow) (d : Db)
    → insert_project i w name db ≡ ok (r, d)
    → (any (λ p. p.id == i) db.projects ≡ false)
      × ((r ≡ new_project db i w name)
          × (d ≡ record db { projects = db.projects ++ new_project db i w name ∷ [] }))
unfolding insert_project
insert_project-ok i w name db r d h = ground arith

insert_project_audit-ok :
    (i : ℕ) (a : AuditRow) (db d : Db)
    → insert_project_audit i a db ≡ ok (tt, d)
    → d ≡ record db { audit = db.audit ++ a ∷ [] }
unfolding insert_project_audit
insert_project_audit-ok i a db d h = ground arith

-- What the transaction of the repository has done.
pub record Inserted (k : Caller) (name : Text) (db : Db) (row : ProjectRow) (d : Db) : Type 0 where
  pub access : WorkspaceRow × MembershipRow
  pub selected :
      one_or_none (select_workspace_context k.user_id k.workspace_id db) ≡ ok (some access)
  pub context : ProjectWorkspaceContext
  pub read : context_from_row access ≡ ok context
  pub allowed : authorize_creation context ≡ ok tt
  pub project_id : ℕ
  pub fresh : any (λ p. p.id == project_id) db.projects ≡ false
  pub inserted : row ≡ new_project db project_id k.workspace_id name
  pub audit_id : ℕ
  pub state : d ≡ record db {
    projects = db.projects ++ new_project db project_id k.workspace_id name ∷ [];
    audit = db.audit ++ project_event k audit_id project_id context name ∷ [];
  }

raised : {A : Type 0} (e : Error) (o : Option A) (a : A) → or_raise e o ≡ ok a → o ≡ some a
raised e none a h = cc
raised e (some b) a h = cc

module _ (k : Caller) (audit_draw : Draw) (name : Text) (i : ℕ) where
  -- The body of the transaction.
  abbrev body : Tx ProjectRow
  body = do
    found ← query (λ db. one_or_none (select_workspace_context k.user_id k.workspace_id db))
    context_row ← lift (or_raise project_workspace_not_found found)
    context ← lift (context_from_row context_row)
    lift (authorize_creation context)
    project_row ← execute (insert_project i k.workspace_id name)
    audit_id ← lift (uuid7 audit_draw)
    execute (insert_project_audit i (project_event k audit_id i context name))
    pure project_row

  body-Inserted : (db : Db) → Post (Inserted k name db) body db
  body-Inserted db =
      query_rule (Inserted k name db) db
        (λ x. one_or_none (select_workspace_context k.user_id k.workspace_id x)) _
        λ o selected.
          lift_rule (Inserted k name db) db (or_raise project_workspace_not_found o) _ λ access is.
            lift_rule (Inserted k name db) db (context_from_row access) _ λ context read.
              lift_rule (Inserted k name db) db (authorize_creation context) _ λ _ allowed.
                execute_rule (Inserted k name db) db (insert_project i k.workspace_id name) _
                  λ row d1 put.
                    let (fresh, (inserted, state1)) =
                      insert_project-ok i k.workspace_id name db row d1 put in
                    lift_rule (Inserted k name db) d1 (uuid7 audit_draw) _ λ audit_id _.
                      execute_rule (Inserted k name db) d1
                        (insert_project_audit i (project_event k audit_id i context name)) _
                        λ _ d2 logged. pure_rule (Inserted k name db) d2 row (record {
                          access = access;
                          selected = selected ∙ ap ok (raised _ o access is);
                          context = context;
                          read = read;
                          allowed = allowed;
                          project_id = i;
                          fresh = fresh;
                          inserted = inserted;
                          audit_id = audit_id;
                          state =
                              insert_project_audit-ok i (project_event k audit_id i context name) d1
                                d2 logged
                              ∙ rw state1 refl;
                        })

-- The row of the transaction can be decoded.
decoded :
    (k : Caller) (name : Text) (db : Db) (row : ProjectRow) (d : Db)
    → Inserted k name db row d
    → project_from_row row ≡ ok (as_project row)
unfolding project_from_row project_status_of
decoded k name db row d e = rw e.inserted refl

-- What `create_project` has done.
pub record Created (k : Caller) (name : Text) (db : Db) (r : Project) (d : Db) : Type 0 where
  pub stored_name : Text
  pub normal : normalize_project_name name ≡ ok stored_name
  pub row : ProjectRow
  pub inserted : Inserted k stored_name db row d
  pub answered : r ≡ as_project row

module _ (k : Caller) (draw audit_draw : Draw) (name : Text) where
  -- A Project that is created is answered as its new row shows it, active and under the normalized
  -- name; the context that the caller was authorized in is the one read; and the tables change by the
  -- row and one audit event alone.
  pub create_project-Created :
      (db : Db) (r : Project) (d : Db)
      → Service.create_project k draw audit_draw name db ≡ (ok r, d)
      → Created k name db r d
  unfolding Service.create_project Repository.create_project
  create_project-Created db r d h =
      Post-ok (Created k name db) (Service.create_project k draw audit_draw name) db
        (lift_rule (Created k name db) db (normalize_project_name name) _ λ n normal.
          lift_rule (Created k name db) db (uuid7 draw) _ λ i _.
            bind_rule (Inserted k n db) (Created k name db) db (transaction (body k audit_draw n i))
              (λ row. lift (project_from_row row))
              (transaction_rule (Inserted k n db) db _ (body-Inserted k audit_draw n i db))
              (λ row d1 e. answer n normal row d1 e))
        h
    where
      answer :
          (n : Text)
          → normalize_project_name name ≡ ok n
          → (row : ProjectRow) (d1 : Db) → Inserted k n db row d1
          → Post (Created k name db) (lift (project_from_row row)) d1
      answer n normal row d1 e = rw (decoded k n db row d1 e) (
          pure_rule (Created k name db) d1 (as_project row)
            (record { stored_name = n; normal = normal; row = row; inserted = e; answered = refl }))

  -- `create_project` decodes the row after the commit; still, whenever it raises the tables are as
  -- they were.
  pub create_project-rolls_back :
      (db : Db) (e : Error)
      → (Service.create_project k draw audit_draw name db).0 ≡ err e
      → (Service.create_project k draw audit_draw name db).1 ≡ db
  unfolding Service.create_project Repository.create_project
  create_project-rolls_back db e h =
      (lift-IsAtomic (normalize_project_name name) _ λ n. lift-IsAtomic (uuid7 draw) _ λ i.
          bind-IsAtomic (λ row d. (b : Db) × Inserted k n b row d)
            (transaction (body k audit_draw n i)) project_from_row (transaction-IsAtomic _)
            (λ b.
              Post-imp b (transaction (body k audit_draw n i)) (Inserted k n b)
                (λ row d. (x : Db) × Inserted k n x row d) (λ row d x. (b, x))
                (transaction_rule (Inserted k n b) b _ (body-Inserted k audit_draw n i b)))
            (λ row d e. (as_project row, decoded k n e.0 row d e.1))).rolls_back
        db e h
