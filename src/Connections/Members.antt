-- ===== src/Connections/Members.antt =====
-- The membership behind a Workspace context: what the join of _LOCK_WORKSPACE_CONTEXT in
-- infrastructure/db/connection_repository.py finds.
use bff.Prelude.{
  map-All, filter-In, ℕ, ◌≡◌, ap, ◌∙◌, true, List, [], ◌∷◌, All, All-imp, All-append, In, ◌==◌,
  arith,
}
use bff.Result.{ok, >>=_ok}
use bff.Db.{Db, WorkspaceRow, MembershipRow}
use bff.Connections.Models.{ConnectionWorkspaceContext}
use bff.Connections.Values.{
  role_of, role_value, role_of-ok, workspace_status_of, workspace_status_value,
  workspace_status_of-ok,
}
use bff.Connections.Repository.Queries.{
  workspace_context, select_workspace_context, workspace_context_from_row, join_workspaces,
  is_active_member, one_or_none, or_raise,
}
use bff.Connections.Rows.{single, raised}

-- A current membership of the user in the Workspace, with the role and the status of the context.
pub record Member (user_id workspace_id : ℕ) (db : Db) (context : ConnectionWorkspaceContext)
    : Type 0 where
  pub membership : MembershipRow
  pub stored : In membership db.memberships
  pub current : is_active_member user_id workspace_id membership ≡ true
  pub role_read : membership.role ≡ role_value context.role
  pub workspace : WorkspaceRow
  pub exists : In workspace db.workspaces
  pub same_workspace : context.workspace_id ≡ workspace_id
  pub same_row : workspace.id ≡ workspace_id
  pub status_read : workspace.status ≡ workspace_status_value context.status

-- A row of the join.
abbrev Joined : List WorkspaceRow → (MembershipRow → Type 0) → WorkspaceRow × MembershipRow → Type 0
Joined ws P (w, m) = ((w.id == m.workspace_id) ≡ true) × (In w ws × P m)

join-All :
    (ws : List WorkspaceRow) (P : MembershipRow → Type 0) (ms : List MembershipRow)
    → All P ms
    → All (Joined ws P) (join_workspaces ws ms)
unfolding join_workspaces
join-All ws P [] h = tt
join-All ws P (m ∷ ms) h =
    All-append (Joined ws P) _ (join_workspaces ws ms)
      (map-All (Joined ws P) (λ w. (w, m)) _
        (All-imp _ _ _ (λ w e. (e.0, (e.1, h.0))) (filter-In (λ w. w.id == m.workspace_id) ws)))
      (join-All ws P ms h.1)

abbrev IsMember : ℕ → ℕ → Db → MembershipRow → Type 0
IsMember u w db m = (is_active_member u w m ≡ true) × In m db.memberships

named :
    (u i : ℕ) (w : WorkspaceRow) (m : MembershipRow)
    → (w.id == m.workspace_id) ≡ true
    → is_active_member u i m ≡ true
    → w.id ≡ i
named u i w m h k = ground arith

-- The Workspace that the join finds is the one that is asked for.
pub selected-named :
    (u w : ℕ) (db : Db) (row : WorkspaceRow × MembershipRow)
    → select_workspace_context u w db ≡ row ∷ []
    → row.0.id ≡ w
unfolding select_workspace_context
selected-named u w db row selected =
    let members = filter-In (is_active_member u w) db.memberships in
    let joined = (rw selected at (join-All db.workspaces (IsMember u w db) _ members)).0 in
    named u w row.0 row.1 joined.0 joined.1.1.0

pub workspace_context-Member :
    (u w : ℕ) (db : Db) (context : ConnectionWorkspaceContext)
    → workspace_context u w db ≡ ok context
    → Member u w db context
unfolding workspace_context select_workspace_context workspace_context_from_row
workspace_context-Member u w db context h =
    let (found, (read, h1)) = >>=_ok (one_or_none (select_workspace_context u w db)) _ context h in
    let (row, (is_found, h2)) = >>=_ok (or_raise _ found) _ context h1 in
    let (status, (read_status, h3)) = >>=_ok (workspace_status_of row.0.status) _ context h2 in
    let (role, (read_role, h4)) = >>=_ok (role_of row.1.role) _ context h3 in
    let selected = single _ row (read ∙ ap ok (raised _ found row is_found)) in
    let members = filter-In (is_active_member u w) db.memberships in
    let joined = (rw selected at (join-All db.workspaces (IsMember u w db) _ members)).0 in
    let same = named u w row.0 row.1 joined.0 joined.1.1.0 in
    record {
      membership = row.1;
      stored = joined.1.1.1;
      current = joined.1.1.0;
      role_read = role_of-ok row.1.role role read_role ∙ cc;
      workspace = row.0;
      exists = joined.1.0;
      same_workspace = cc;
      same_row = same;
      status_read = workspace_status_of-ok row.0.status status read_status ∙ cc;
    }
