-- ===== src/Connections/Requests/Evolution.antt =====
-- How any request of Connections/Requests changes the rows of `connections`.
use bff.Prelude.{
  arith, [], ◌∷◌, ◌++◌, ap, true, List, any-append, ◌||◌, ℕ, ◌≡◌, refl, sym, ◌∙◌, ◌≢◌, Bool-cases,
  eq_iff, inl, inr, str_eq, if◌then◌else◌,
}
use bff.Connections.Repository.Queries.{is_connection}
use bff.Db.{Db, ConnectionRow, RevisionRow}
use bff.Connections.Models.{ConnectionMutationContext, ConnectionLifecycleAction}
use bff.Connections.Values.{status_value}
use bff.Connections.Service.{Platform}
use bff.Connections.Guards.{
  authorize_authoring-ok, authorize_access-ok, authorize_lifecycle-ok, authoring-live, access-live,
}
use bff.Connections.Effects.Statements.{upsert_draft-ok}
use bff.Connections.Rows.{
  Target, mutation_context-Target, Grows, append-Grows, refl-Grows, update_connection-Grows,
}
use bff.Connections.Lifecycle.{
  lifecycle_row, IsBorn, Evolves, has_revision, Evolves-refl, Move, allowed-Move, Move-live,
}
use bff.Connections.Repository.Commands.{target}
use bff.Connections.Requests.{Request, perform}
use bff.Connections.Requests.Effect.{Effect, perform-cases}

module _ (now : ℕ) (revisions : List RevisionRow) {u w i : ℕ} {db : Db}
    {context : ConnectionMutationContext} (t : Target u w i db context) where
  -- An UPDATE that leaves the status alone, of a connection that is not archived.
  edit-Evolves :
      status_value context.status ≢ "ARCHIVED"
      → (d : ConnectionRow) → d.id ≡ t.row.id
      → d.workspace_id ≡ t.row.workspace_id
      → d.provider_key ≡ t.row.provider_key
      → d.created_at ≡ t.row.created_at
      → d.status ≡ t.row.status
      → d.archived_at ≡ t.row.archived_at
      → Evolves now revisions t.row d
  edit-Evolves live d h1 h2 h3 h4 h5 h6 = record {
    same_id = h1;
    same_workspace = h2;
    same_provider = h3;
    same_created = h4;
    moves = inl (h5, h6);
    frozen = λ e. absurd (live (sym t.status_read ∙ e));
  }

  transition-Evolves :
      (action : ConnectionLifecycleAction)
      → Move
          (has_revision revisions (lifecycle_row now action t.row))
          (status_value context.status)
          (status_value (target action))
      → Evolves now revisions t.row (lifecycle_row now action t.row)
  transition-Evolves action move = record {
    same_id = refl;
    same_workspace = refl;
    same_provider = refl;
    same_created = refl;
    moves = inr (rw t.status_read move, refl);
    frozen = λ e. absurd (Move-live _ _ _ move (sym t.status_read ∙ e));
  }

  activate-Evolves :
      status_value context.status ≢ "ARCHIVED"
      → has_revision revisions t.row ≡ true
      → Evolves now revisions t.row (
          if str_eq t.row.status "DRAFT"
          then record t.row { status = "ACTIVE"; updated_at = now }
          else t.row)
  activate-Evolves live published = elim (Bool-cases (str_eq t.row.status "DRAFT")) [
    | inr e ↦ rw e (Evolves-refl now revisions t.row)
    | inl e ↦ rw e (record {
      same_id = refl;
      same_workspace = refl;
      same_provider = refl;
      same_created = refl;
      moves = inr (rw ((eq_iff t.row.status "DRAFT").0 e) (Move.activated published), refl);
      frozen = λ a. absurd (live (sym t.status_read ∙ a));
    })
  ]

-- The revision that is appended is the target's.
published_now :
    {u w i : ℕ} {db : Db} {context : ConnectionMutationContext} (t : Target u w i db context)
    (r : RevisionRow)
    → r.workspace_id ≡ w
    → r.connection_id ≡ i
    → has_revision (db.revisions ++ r ∷ []) t.row ≡ true
published_now {w = w} {i = i} {db = db} t r hw hi =
    rw (any-append _ db.revisions (r ∷ [])) (published t.named)
  where
    published :
        is_connection w i t.row ≡ true
        → (has_revision db.revisions t.row || has_revision (r ∷ []) t.row) ≡ true
    published h = ground arith

module _ (p : Platform) (db : Db) where
  Kept : Db → Type 0
  Kept d = Grows (Evolves db.now d.revisions) (IsBorn db.now) db.connections d.connections

  effect-Kept : (q : Request) (d : Db) → Effect p db q d → Kept d
  unfolding Kept
  effect-Kept q d (Effect.created k draw audit_draw name v policy n w normal r _ _ _ e) =
      rw e.state (
        append-Grows _ _ db.connections _ (Evolves-refl db.now _)
          (record { draft = refl; unarchived = refl; created = refl }, tt))
  effect-Kept q d (Effect.draft_put u w i c r e) =
      let (_, state) = upsert_draft-ok i w e.compiled u db e.row d e.written in
      rw state (refl-Grows _ _ _ (Evolves-refl db.now _))
  effect-Kept q d (Effect.renamed k a i name n r _ e) =
      let t = mutation_context-Target _ _ _ db e.admitted.context e.admitted.found in
      let (_, (_, editable)) = authorize_authoring-ok e.admitted.context e.admitted.allowed in
      rw e.state (
        update_connection-Grows _ _ _ _ _ _ db _ t (Evolves-refl db.now _)
          (edit-Evolves db.now _ t (authoring-live _ editable) _ refl refl refl refl refl refl))
  effect-Kept q d (Effect.published k draw a i r e) =
      let t = mutation_context-Target _ _ _ db e.admitted.context e.admitted.found in
      let (_, (_, editable)) = authorize_authoring-ok e.admitted.context e.admitted.allowed in
      rw e.state (
        update_connection-Grows _ _ _ _ _ _ db _ t (Evolves-refl db.now _) (
          activate-Evolves db.now _ t (authoring-live _ editable) (
            published_now t e.row (ap (λ (r : RevisionRow). r.workspace_id) e.inserted)
              (ap (λ (r : RevisionRow). r.connection_id) e.inserted))))
  effect-Kept q d (Effect.replaced k a i policy normal r _ e) =
      let t = mutation_context-Target _ _ _ db e.admitted.context e.admitted.found in
      let (_, (_, editable)) = authorize_access-ok e.admitted.context normal e.admitted.allowed in
      rw e.state (
        update_connection-Grows _ _ _ _ _ _ db _ t (Evolves-refl db.now _)
          (edit-Evolves db.now _ t (access-live _ editable) _ refl refl refl refl refl refl))
  effect-Kept q d (Effect.transitioned k a i action r e) =
      let t = mutation_context-Target _ _ _ db e.admitted.context e.admitted.found in
      let (_, (_, legal)) = authorize_lifecycle-ok e.admitted.context action e.admitted.allowed in
      rw e.state (
        update_connection-Grows _ _ (lifecycle_row db.now action) _ _ _ db _ t
          (Evolves-refl db.now _)
          (transition-Evolves db.now _ t action (allowed-Move _ _ action legal)))

-- Whatever is requested and whatever comes of it, every connection keeps its row, identity,
-- Workspace, provider and creation time; its status changes along the transitions alone; its
-- archiving is stamped with the transaction's time; a row that is archived stays as it is; and a
-- new connection is a draft.
pub perform-Evolves :
    (p : Platform) (q : Request) (db : Db)
    → Grows
        (Evolves db.now (perform p q db).1.revisions)
        (IsBorn db.now)
        db.connections
        (perform p q db).1.connections
unfolding Kept
perform-Evolves p q db =
    perform-cases p db q (Kept p db) (refl-Grows _ _ _ (Evolves-refl db.now _)) (effect-Kept p db q)
