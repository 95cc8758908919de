-- ===== src/Connections/Requests/Authorized.antt =====
-- Every request that succeeds was authorized: the callbacks that domains/connections/service.py hands
-- to the repository decide on the rows that the repository reads.
use bff.Prelude.{ℕ, ◌≡◌, true}
use bff.Result.{ok}
use bff.Db.{Db}
use bff.Connections.Policies.{can_author_connections, workspace_allows_connection_mutation}
use bff.Connections.Models.{
  ConnectionAuthorizationRole, ConnectionWorkspaceStatus, ConnectionWorkspaceContext,
  ConnectionMutationContext,
}
use bff.Connections.Service.{Platform}
use bff.Connections.Service.Authorize.{authorize_authoring}
use bff.Connections.Guards.{
  authorize_creation-ok, authorize_authoring-ok, authorize_access-ok, authorize_lifecycle-ok,
}
use bff.Connections.Members.{workspace_context-Member}
use bff.Connections.Rows.{mutation_context-Target}
use bff.Connections.Policies.Access.{normalize_access_policy-IsNormalized}
use bff.Connections.Values.{role_value, workspace_status_value}
use bff.Connections.Repository.Queries.{workspace_context, mutation_context}
use bff.Connections.Requests.{Request, perform}
use bff.Connections.Requests.Effect.{Effect, perform-Effect}
use bff.Connections.Requests.Authority.{
  Authorized, one_of, roles, statuses, user_of, workspace_of, author_role, manager_role,
  create_role, replace_role, mutation_status, lifecycle_status,
}

-- The rows behind a context that has passed the tests.
from_context :
    (q : Request) (db : Db) (c : ConnectionWorkspaceContext)
    → workspace_context (user_of q) (workspace_of q) db ≡ ok c
    → one_of (roles q) (role_value c.role) ≡ true
    → one_of (statuses q) (workspace_status_value c.status) ≡ true
    → Authorized q db
from_context q db c read hr hs =
    let m = workspace_context-Member (user_of q) (workspace_of q) db c read in
    record {
      membership = m.membership;
      stored = m.stored;
      current = m.current;
      role = rw m.role_read hr;
      workspace = m.workspace;
      exists = m.exists;
      named = m.same_row;
      status = rw m.status_read hs;
    }

from_authoring :
    (q : Request) (db : Db) (i : ℕ) (c : ConnectionMutationContext)
    → mutation_context (user_of q) (workspace_of q) i db ≡ ok c
    → authorize_authoring c ≡ ok tt
    → ((r : ConnectionAuthorizationRole)
        → can_author_connections r ≡ true
        → one_of (roles q) (role_value r) ≡ true)
    → ((s : ConnectionWorkspaceStatus)
        → workspace_allows_connection_mutation s ≡ true
        → one_of (statuses q) (workspace_status_value s) ≡ true)
    → Authorized q db
from_authoring q db i c found allowed hr hs =
    let t = mutation_context-Target _ _ i db c found in
    let (r, (s, _)) = authorize_authoring-ok c allowed in
    from_context q db c.workspace t.workspace_read (hr c.workspace.role r) (hs c.workspace.status s)

module _ (p : Platform) (db : Db) where
  effect-Authorized : (q : Request) (d : Db) → Effect p db q d → Authorized q db
  effect-Authorized q d (Effect.created k draw a name v policy n w normal r _ _ is e) =
      let (hr, hs) = authorize_creation-ok e.context normal e.allowed in
      let mode = (normalize_access_policy-IsNormalized _ _ normal is).same_mode in
      from_context q db e.context e.found (rw mode at (create_role e.context.role normal.mode hr))
        (mutation_status e.context.status hs)
  effect-Authorized q d (Effect.renamed k a i name n r _ e) =
      from_authoring q db i e.admitted.context e.admitted.found e.admitted.allowed author_role
        mutation_status
  effect-Authorized q d (Effect.draft_put u w i c r e) =
      from_authoring q db i e.context e.found e.allowed author_role mutation_status
  effect-Authorized q d (Effect.published k draw a i r e) =
      from_authoring q db i e.admitted.context e.admitted.found e.admitted.allowed author_role
        mutation_status
  effect-Authorized q d (Effect.replaced k a i policy normal r is e) =
      let c = e.admitted.context in
      let t = mutation_context-Target _ _ i db c e.admitted.found in
      let (hr, (hs, _)) = authorize_access-ok c normal e.admitted.allowed in
      let mode = (normalize_access_policy-IsNormalized _ _ normal is).same_mode in
      from_context q db c.workspace t.workspace_read
        (rw mode at (replace_role c.workspace.role c.access_mode normal.mode hr))
        (mutation_status c.workspace.status hs)
  effect-Authorized q d (Effect.transitioned k a i action r e) =
      let c = e.admitted.context in
      let t = mutation_context-Target _ _ i db c e.admitted.found in
      let (hr, (hs, _)) = authorize_lifecycle-ok c action e.admitted.allowed in
      from_context q db c.workspace t.workspace_read (manager_role c.workspace.role hr)
        (lifecycle_status k a i c.workspace.status action hs)

-- A request succeeds only for a user who has a current membership in its Workspace, in a role that
-- may make it, while the Workspace's status allows it.
pub perform-Authorized :
    (p : Platform) (q : Request) (db d : Db) → perform p q db ≡ (ok tt, d) → Authorized q db
perform-Authorized p q db d h = effect-Authorized p db q d (perform-Effect p db q d h)
