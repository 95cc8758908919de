-- ===== src/Connections/Drafts.antt =====
-- `get_draft` of domains/connections/service.py after `put_draft`.
use bff.Prelude.{
  inr, inl, Bool-cases, Bool, ℕ, ◌≡◌, refl, sym, ap, ◌∙◌, arith, false, some, List, [], ◌∷◌, All,
  filter, ◌==◌, ◌&&◌, filter-none, All-imp,
}
use bff.Result.{Result, ok, connection_workspace_not_found, connection_state_conflict}
use bff.Json.{JsonObject}
use bff.Db.{Db, DraftRow, Tx, query, lift, pure, ◌>>=◌, ◌>>◌}
use bff.Db.Rules.{Post-ok, Post-imp}
use bff.Connections.Models.{ConnectionDraftLookup, ConnectionDraft, ConnectionMutationContext}
use bff.Connections.Repository.Queries.{
  mutation_context, workspace_context, select_workspace_context, draft_from_row, select_draft,
}
use bff.Connections.Repository.Statements.{upsert, upserted}
use bff.Connections.Repository.Reads
use bff.Connections.Effects.Statements.{upsert_draft-ok}
use bff.Connections.Effects.Draft.{put_draft-DraftPut}
use bff.Connections.Policies.{normalize_draft_configuration}
use bff.Connections.Service
use bff.Connections.Service.{Platform, or_raise, compile_draft_configuration}
use bff.Connections.Service.Authorize.{authorize_authoring}

-- The primary key of the drafts: a connection has one draft at most.
abbrev pub IsKeyed : List DraftRow → Type 0
IsKeyed [] = Unit {0}
IsKeyed (d ∷ ds) = All (λ e. (e.connection_id == d.connection_id) ≡ false) ds × IsKeyed ds

-- Their foreign key: the drafts of a connection are in its Workspace.
abbrev pub AreIn : ℕ → ℕ → List DraftRow → Type 0
AreIn w i ds = All (λ d. d.connection_id ≡ i → d.workspace_id ≡ w) ds

abbrev is_draft : ℕ → ℕ → DraftRow → Bool
is_draft w i d = d.workspace_id == w && d.connection_id == i

updated :
    (d e : DraftRow)
    → e.connection_id ≡ d.connection_id
    → record e {
      draft_json = d.draft_json;
      updated_by_user_id = d.updated_by_user_id;
      updated_at = d.updated_at;
    }
      ≡ record d { workspace_id = e.workspace_id }
updated d e h = cc

-- The filter on a list that begins with a draft that it takes, or leaves.
filter-taken :
    (w i : ℕ) (d : DraftRow) (ds : List DraftRow)
    → d.workspace_id ≡ w
    → d.connection_id ≡ i
    → filter (is_draft w i) (d ∷ ds) ≡ d ∷ filter (is_draft w i) ds
filter-taken w i d ds h k = ground arith

filter-left :
    (w i : ℕ) (d : DraftRow) (ds : List DraftRow)
    → (d.connection_id == i) ≡ false
    → filter (is_draft w i) (d ∷ ds) ≡ filter (is_draft w i) ds
filter-left w i d ds h = ground arith

filter-others :
    (w i j : ℕ) (ds : List DraftRow)
    → i ≡ j
    → All (λ e. (e.connection_id == j) ≡ false) ds
    → filter (is_draft w i) ds ≡ []
filter-others w i j ds h k = filter-none _ ds (All-imp _ _ ds (λ e q. ground arith) k)

-- The draft of a connection after it has been put.
filter-upsert :
    (d : DraftRow) (ds : List DraftRow)
    → IsKeyed ds
    → AreIn d.workspace_id d.connection_id ds
    → filter (is_draft d.workspace_id d.connection_id) (upsert d ds) ≡ upserted d ds ∷ []
filter-upsert d [] k h = filter-taken _ _ d [] refl refl
filter-upsert d (e ∷ es) k h = elim (Bool-cases (e.connection_id == d.connection_id)) [
  | inl p ↦
      let same : e.connection_id ≡ d.connection_id = ground arith in
      let others = filter-others d.workspace_id _ _ es (sym same) k.0 in
      let put : DraftRow = record e {
        draft_json = d.draft_json;
        updated_by_user_id = d.updated_by_user_id;
        updated_at = d.updated_at;
      } in
      rw p (
        filter-taken d.workspace_id d.connection_id put es (h.0 same) same
        ∙ ap (λ ys. put ∷ ys) others
        ∙ ap (λ y. y ∷ []) (updated d e same))
  | inr p ↦
      rw (p, filter-left d.workspace_id d.connection_id e (upsert d es) p)
        (filter-upsert d es k.1 h.1)
]

-- The context of a mutation does not depend on the drafts.
same_context :
    (u w i : ℕ) (db : Db) (ds : List DraftRow)
    → mutation_context u w i (record db { drafts = ds }) ≡ mutation_context u w i db
unfolding mutation_context workspace_context select_workspace_context
same_context u w i db ds = refl

-- What `get_draft` returns where the context is found and one draft is.
found_draft :
    (u w i : ℕ) (db : Db) (context : ConnectionMutationContext) (d : DraftRow)
    → mutation_context u w i db ≡ ok context
    → select_draft w i db ≡ d ∷ []
    → Reads.get_draft_for_user u w i db
      ≡ ok (record { context = some context; draft = some (draft_from_row d) })
unfolding Reads.get_draft_for_user
found_draft u w i db context d h s = rw (h, s) refl

abbrev answer : ConnectionDraftLookup → Tx ConnectionDraft
answer lookup = do
  context ← or_raise connection_workspace_not_found lookup.context
  lift (authorize_authoring context)
  or_raise connection_state_conflict lookup.draft

read_draft :
    (u w i : ℕ) (db : Db) (context : ConnectionMutationContext) (d : DraftRow)
    → mutation_context u w i db ≡ ok context
    → authorize_authoring context ≡ ok tt
    → select_draft w i db ≡ d ∷ []
    → Service.get_draft u w i db ≡ (ok (draft_from_row d), db)
unfolding Service.get_draft
read_draft u w i db context d h a s =
    ap (λ (x : Result ConnectionDraftLookup). (query (λ _. x) >>= answer) db)
      (found_draft u w i db context d h s)
    ∙ ap (λ x. (lift x >> pure (draft_from_row d)) db) a

module _ (p : Platform) (u w i : ℕ) (configuration : JsonObject) (db : Db)
    (keyed : IsKeyed db.drafts) (placed : AreIn w i db.drafts) where
  -- Where a connection has one draft at most, and its draft is in its Workspace: the draft that `put_draft`
  -- answers is what `get_draft` then answers to the same user, and reading it changes nothing.
  pub put_draft-get_draft :
      (r : ConnectionDraft) (d : Db)
      → Service.put_draft p u w i configuration db ≡ (ok r, d)
      → Service.get_draft u w i d ≡ (ok r, d)
  unfolding Service.put_draft
  put_draft-get_draft r d h =
      Post-ok Q (Service.put_draft p u w i configuration) db
        (Post-imp db _ _ Q
          (λ x d' e.
            let (row, state) = upsert_draft-ok i w e.compiled u db e.row d' e.written in
            let found = ap (mutation_context u w i) state ∙ same_context u w i db _ ∙ e.found in
            let one =
              ap (select_draft w i) state
              ∙ filter-upsert _ db.drafts keyed placed
              ∙ ap (λ y. y ∷ []) (sym row) in
            read_draft u w i d' e.context e.row found e.allowed one
            ∙ ap (λ y. (ok y, d')) (sym e.result))
          (put_draft-DraftPut u w i (normalize_draft_configuration configuration)
            authorize_authoring (compile_draft_configuration p) db))
        h
    where
      Q : ConnectionDraft → Db → Type 0
      Q x d' = Service.get_draft u w i d' ≡ (ok x, d')
