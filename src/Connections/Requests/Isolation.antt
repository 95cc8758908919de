-- ===== src/Connections/Requests/Isolation.antt =====
-- A request touches the rows of one Workspace: the WHERE clauses of connection_repository.py name it.
use bff.Prelude.{
  str_eq, Bool-cases, inl, inr, ℕ, ◌≡◌, refl, ap, ◌∙◌, arith, Bool, false, not, List, [], ◌∷◌, ◌++◌,
  map, filter, filter-append, ◌==◌, if◌then◌else◌, some, String,
}
use mathlib.Core.List.{append-nil}
use bff.Db.{Db, ConnectionRow, RevisionRow}
use bff.Connections.Service.{Platform}
use bff.Connections.Lifecycle.{lifecycle_row}
use bff.Connections.Repository.Queries.{is_connection}
use bff.Connections.Repository.Statements.{update_connection}
use bff.Connections.Repository.Commands.{Caller}
use bff.Connections.Effects.Statements.{upsert_draft-ok}
use bff.Connections.Requests.{Request, perform}
use bff.Connections.Requests.Effect.{Effect, perform-cases}
use bff.Connections.Requests.Authority.{workspace_of}
use bff.Connections.Requests.Trail.{Trailed, effect-Trailed}

-- The rows of the other Workspaces are as they were.
pub record IsIsolated (w : ℕ) (db d : Db) : Type 0 where
  pub connections :
      filter (λ c. not (c.workspace_id == w)) d.connections
      ≡ filter (λ c. not (c.workspace_id == w)) db.connections
  pub revisions :
      filter (λ r. not (r.workspace_id == w)) d.revisions
      ≡ filter (λ r. not (r.workspace_id == w)) db.revisions
  pub audit :
      filter (λ a. not (a.workspace_id == w)) d.audit
      ≡ filter (λ a. not (a.workspace_id == w)) db.audit

-- A row of `w` appended.
append_one :
    {A : Type 0} (p : A → Bool) (xs : List A) (x : A)
    → p x ≡ false
    → filter p (xs ++ x ∷ []) ≡ filter p xs
append_one p xs x h = filter-append p xs (x ∷ []) ∙ rw (h, append-nil (filter p xs)) refl

other_rows :
    (w i : ℕ) (f : ConnectionRow → ConnectionRow) (cs : List ConnectionRow)
    → ((c : ConnectionRow) → (f c).workspace_id ≡ c.workspace_id)
    → filter (λ c. not (c.workspace_id == w)) (map (λ c. if is_connection w i c then f c else c) cs)
      ≡ filter (λ c. not (c.workspace_id == w)) cs
other_rows w i f [] h = refl
other_rows w i f (c ∷ cs) h = ground (arith, h c, other_rows w i f cs h)

not_other : (a w : ℕ) → a ≡ w → not (a == w) ≡ false
not_other a w h = ground arith

-- The trail of `w`.
other_events :
    (k : Caller) (action : String) (db d : Db)
    → Trailed (some (k, action)) db d
    → filter (λ a. not (a.workspace_id == k.workspace_id)) d.audit
      ≡ filter (λ a. not (a.workspace_id == k.workspace_id)) db.audit
other_events k action db d (a, (state, event)) =
    ap (filter (λ a. not (a.workspace_id == k.workspace_id))) state
    ∙ append_one _ db.audit a (not_other _ _ event.same_workspace)

-- An UPDATE of a connection of the caller's Workspace, and an event.
updated :
    (k : Caller) (i : ℕ) (action : String) (f : ConnectionRow → ConnectionRow) (db d : Db)
    → ((c : ConnectionRow) → (f c).workspace_id ≡ c.workspace_id)
    → d.connections ≡ (update_connection k.workspace_id i f db).connections
    → d.revisions ≡ db.revisions
    → Trailed (some (k, action)) db d
    → IsIsolated k.workspace_id db d
updated k i action f db d keeps cs rs trail = record {
  connections = rw cs (other_rows k.workspace_id i f db.connections keeps);
  revisions = rw rs refl;
  audit = other_events k action db d trail;
}

-- The row that _ACTIVATE_DRAFT_CONNECTION makes.
abbrev activated_row : ℕ → ConnectionRow → ConnectionRow
activated_row now c =
    if str_eq c.status "DRAFT" then record c { status = "ACTIVE"; updated_at = now } else c

activated_row-workspace :
    (now : ℕ) (c : ConnectionRow) → (activated_row now c).workspace_id ≡ c.workspace_id
activated_row-workspace now c = elim (Bool-cases (str_eq c.status "DRAFT")) [
  | inl e ↦ rw e refl
  | inr e ↦ rw e refl
]

module _ (p : Platform) (db : Db) where
  effect-IsIsolated : (q : Request) (d : Db) → Effect p db q d → IsIsolated (workspace_of q) db d
  effect-IsIsolated q d (Effect.created k draw a name v policy n w normal r x1 x2 x3 e) = record {
    connections =
        ap (λ (x : Db). filter (λ c. not (c.workspace_id == k.workspace_id)) x.connections) e.state
        ∙ append_one _ db.connections _ (not_other _ _ refl);
    revisions =
        ap (λ (x : Db). filter (λ c. not (c.workspace_id == k.workspace_id)) x.revisions) e.state;
    audit =
        other_events k _ db d
          (effect-Trailed p db q d (Effect.created k draw a name v policy n w normal r x1 x2 x3 e));
  }
  effect-IsIsolated q d (Effect.draft_put u w i c r e) =
      let (_, state) = upsert_draft-ok i w e.compiled u db e.row d e.written in
      rw state (record { connections = refl; revisions = refl; audit = refl })
  effect-IsIsolated q d (Effect.renamed k a i name n r x e) =
      updated k i _ (λ c. record c { name = n; updated_at = db.now }) db d (λ _. refl)
        (ap (λ (x : Db). x.connections) e.state) (ap (λ (x : Db). x.revisions) e.state)
        (effect-Trailed p db q d (Effect.renamed k a i name n r x e))
  effect-IsIsolated q d (Effect.published k draw a i r e) = record {
    connections =
        ap (λ (x : Db). filter (λ c. not (c.workspace_id == k.workspace_id)) x.connections) e.state
        ∙ other_rows k.workspace_id i (activated_row db.now) db.connections
            (activated_row-workspace db.now);
    revisions =
        ap (λ (x : Db). filter (λ c. not (c.workspace_id == k.workspace_id)) x.revisions) e.state
        ∙ append_one _ db.revisions e.row
            (not_other _ _ (ap (λ (x : RevisionRow). x.workspace_id) e.inserted));
    audit = other_events k _ db d (effect-Trailed p db q d (Effect.published k draw a i r e));
  }
  effect-IsIsolated q d (Effect.replaced k a i policy normal r x e) =
      updated k i _ _ db d (λ _. refl) (ap (λ (x : Db). x.connections) e.state)
        (ap (λ (x : Db). x.revisions) e.state)
        (effect-Trailed p db q d (Effect.replaced k a i policy normal r x e))
  effect-IsIsolated q d (Effect.transitioned k a i action r e) =
      updated k i _ (lifecycle_row db.now action) db d (λ _. refl)
        (ap (λ (x : Db). x.connections) e.state) (ap (λ (x : Db). x.revisions) e.state)
        (effect-Trailed p db q d (Effect.transitioned k a i action r e))

-- Whatever is requested in a Workspace and whatever comes of it, the connections, the revisions and
-- the audit events of every other Workspace are as they were.
pub perform-IsIsolated :
    (p : Platform) (q : Request) (db : Db) → IsIsolated (workspace_of q) db (perform p q db).1
perform-IsIsolated p q db =
    perform-cases p db q (IsIsolated (workspace_of q) db)
      (record { connections = refl; revisions = refl; audit = refl }) (effect-IsIsolated p db q)
