-- ===== src/Connections/Returned.antt =====
-- What the writing methods of the Connection repository read back and return: `_fetch_connection` after
-- an UPDATE of infrastructure/db/connection_repository.py.
use bff.Prelude.{
  ℕ, ◌≡◌, refl, ap, ◌∙◌, arith, Bool, true, List, [], ◌∷◌, map, filter, if◌then◌else◌, Bool-cases,
  inl, inr,
}
use mathlib.Core.Path.{subst}
use bff.Result.{guard_ok, ok, >>=_ok}
use bff.Db.{Db, ConnectionRow}
use bff.Connections.Models.{Connection, ConnectionMutationContext}
use bff.Connections.Values.{mode_of, status_of}
use bff.Connections.Repository.Queries.{
  fetch_connection, connection_from_row, project_ids_of, is_connection, select_connection,
  one_or_none, or_raise,
}
use bff.Connections.Repository.Statements.{update_connection}
use bff.Connections.Rows.{Target, single, raised}

-- A Connection that was read from a row.
pub record Decoded (ids : List ℕ) (c : ConnectionRow) (r : Connection) : Type 0 where
  pub mode_read : mode_of c.access_mode ≡ ok r.access_policy.mode
  pub status_read : status_of c.status ≡ ok r.status
  pub same_ids : r.access_policy.project_ids ≡ ids
  pub same_name : r.name ≡ c.name
  pub same_id : r.connection_id ≡ c.id
  pub same_workspace : r.workspace_id ≡ c.workspace_id
  pub same_archived : r.archived_at ≡ c.archived_at

connection_from_row-Decoded :
    (ids : List ℕ) (c : ConnectionRow) (r : Connection)
    → connection_from_row ids c ≡ ok r
    → Decoded ids c r
unfolding connection_from_row
connection_from_row-Decoded ids c r h =
    let (mode, (read_mode, h1)) = >>=_ok (mode_of c.access_mode) _ r h in
    let (status, (read, h2)) = >>=_ok _ _ r h1 in
    let read_status = (guard_ok _ _ (status_of c.status) status read).1 in
    record {
      mode_read = read_mode ∙ cc;
      status_read = read_status ∙ cc;
      same_ids = cc;
      same_name = cc;
      same_id = cc;
      same_workspace = cc;
      same_archived = cc;
    }

-- An UPDATE that keeps its WHERE clause true changes the rows that it selects.
filter-update :
    {A : Type 0} (p : A → Bool) (f : A → A) (xs : List A)
    → ((x : A) → p x ≡ true → p (f x) ≡ true)
    → filter p (map (λ x. if p x then f x else x) xs) ≡ map f (filter p xs)
filter-update p f [] h = refl
filter-update p f (x ∷ xs) h = elim (Bool-cases (p x)) [
  | inl e ↦ rw (e, h x e, filter-update p f xs h) refl
  | inr e ↦ rw (e, e, filter-update p f xs h) refl
]

-- The connection read back after an UPDATE that keeps its name: of the updated row.
pub fetch_updated :
    (f : ConnectionRow → ConnectionRow) (u w i : ℕ) (db d : Db)
    (context : ConnectionMutationContext) (t : Target u w i db context) (r : Connection)
    → ((c : ConnectionRow) → is_connection w i c ≡ true → is_connection w i (f c) ≡ true)
    → (f t.row).id ≡ t.row.id
    → d.connections ≡ (update_connection w i f db).connections
    → fetch_connection w i d ≡ ok r
    → Decoded (project_ids_of i d.access) (f t.row) r
unfolding fetch_connection
fetch_updated f u w i db d context t r keeps same_id state h =
    let (found, (read, h1)) = >>=_ok (one_or_none (select_connection w i d)) _ r h in
    let (row, (is_found, h2)) = >>=_ok (or_raise _ found) _ r h1 in
    let selected : select_connection w i d ≡ row ∷ [] =
      single _ row (read ∙ ap ok (raised _ found row is_found)) in
    let updated : select_connection w i d ≡ f t.row ∷ [] =
      ap (filter (is_connection w i)) state
      ∙ filter-update (is_connection w i) f db.connections keeps
      ∙ ap (map f) t.selected in
    let same : row ≡ f t.row = cc in
    let id : (f t.row).id ≡ i = same_id ∙ named t.row t.named in
    subst (λ n. Decoded (project_ids_of n d.access) (f t.row) r) id
      (connection_from_row-Decoded _ (f t.row) r (rw same at h2))
  where
    named : (c : ConnectionRow) → is_connection w i c ≡ true → c.id ≡ i
    named c e = ground arith
