-- ===== src/Connections/Requests/Authority.antt =====
-- Who may do what: the roles and the Workspace statuses under which a request can succeed.
use bff.Prelude.{ℕ, ◌≡◌, refl, String, Bool, true, List, [], ◌∷◌, any, str_eq, In}
use bff.Db.{Db, MembershipRow, WorkspaceRow}
use bff.Connections.Models.{
  ConnectionAccessMode, workspace, selected_projects, ConnectionAuthorizationRole, owner, admin,
  builder, viewer, ConnectionLifecycleAction, disable, enable, archive, ConnectionWorkspaceStatus,
}
use bff.Connections.Values.{role_value, workspace_status_value}
use bff.Connections.Policies.{
  can_author_connections, can_create_with_access, can_replace_access,
  can_manage_connection_lifecycle, workspace_allows_connection_mutation,
  workspace_allows_lifecycle_action,
}
use bff.Connections.Repository.Queries.{is_active_member}
use bff.Connections.Requests.{
  Draw, Caller, Request, create, rename, put_draft, publish, replace_access, transition,
}

abbrev pub managers : List String
managers = "OWNER" ∷ "ADMIN" ∷ []

abbrev pub authors : List String
authors = "OWNER" ∷ "ADMIN" ∷ "BUILDER" ∷ []

-- A Builder may not open a connection to the whole Workspace.
abbrev pub for_mode : ConnectionAccessMode → List String
for_mode workspace = managers
for_mode selected_projects = authors

abbrev pub roles : Request → List String
roles (create k draw audit_draw name provider_key policy) = for_mode policy.mode
roles (rename k audit_draw i name) = authors
roles (put_draft u w i configuration) = authors
roles (publish k draw audit_draw i) = authors
roles (replace_access k audit_draw i policy) = for_mode policy.mode
roles (transition k audit_draw i action) = managers

-- Only a connection of an active Workspace is changed, but for disabling it in a suspended one.
abbrev pub statuses : Request → List String
statuses (transition k audit_draw i disable) = "ACTIVE" ∷ "SUSPENDED" ∷ []
statuses q = "ACTIVE" ∷ []

abbrev pub user_of : Request → ℕ
user_of (create k draw audit_draw name provider_key policy) = k.user_id
user_of (rename k audit_draw i name) = k.user_id
user_of (put_draft u w i configuration) = u
user_of (publish k draw audit_draw i) = k.user_id
user_of (replace_access k audit_draw i policy) = k.user_id
user_of (transition k audit_draw i action) = k.user_id

abbrev pub workspace_of : Request → ℕ
workspace_of (create k draw audit_draw name provider_key policy) = k.workspace_id
workspace_of (rename k audit_draw i name) = k.workspace_id
workspace_of (put_draft u w i configuration) = w
workspace_of (publish k draw audit_draw i) = k.workspace_id
workspace_of (replace_access k audit_draw i policy) = k.workspace_id
workspace_of (transition k audit_draw i action) = k.workspace_id

abbrev pub one_of : List String → String → Bool
one_of options s = any (λ o. str_eq o s) options

-- A membership and a Workspace that allow the request.
pub record Authorized (q : Request) (db : Db) : Type 0 where
  pub membership : MembershipRow
  pub stored : In membership db.memberships
  pub current : is_active_member (user_of q) (workspace_of q) membership ≡ true
  pub role : one_of (roles q) membership.role ≡ true
  pub workspace : WorkspaceRow
  pub exists : In workspace db.workspaces
  pub named : workspace.id ≡ workspace_of q
  pub status : one_of (statuses q) workspace.status ≡ true

pub author_role :
    (r : ConnectionAuthorizationRole)
    → can_author_connections r ≡ true
    → one_of authors (role_value r) ≡ true
unfolding can_author_connections
author_role owner h = refl
author_role admin h = refl
author_role builder h = refl
author_role viewer h = absurd cc

pub manager_role :
    (r : ConnectionAuthorizationRole)
    → can_manage_connection_lifecycle r ≡ true
    → one_of managers (role_value r) ≡ true
unfolding can_manage_connection_lifecycle
manager_role owner h = refl
manager_role admin h = refl
manager_role builder h = absurd cc
manager_role viewer h = absurd cc

pub create_role :
    (r : ConnectionAuthorizationRole) (m : ConnectionAccessMode)
    → can_create_with_access r m ≡ true
    → one_of (for_mode m) (role_value r) ≡ true
unfolding can_create_with_access can_author_connections
create_role owner workspace h = refl
create_role owner selected_projects h = refl
create_role admin workspace h = refl
create_role admin selected_projects h = refl
create_role builder selected_projects h = refl
create_role builder workspace h = absurd cc
create_role viewer m h = absurd cc

pub replace_role :
    (r : ConnectionAuthorizationRole) (now m : ConnectionAccessMode)
    → can_replace_access r now m ≡ true
    → one_of (for_mode m) (role_value r) ≡ true
unfolding can_replace_access can_manage_connection_lifecycle
replace_role owner now workspace h = refl
replace_role owner now selected_projects h = refl
replace_role admin now workspace h = refl
replace_role admin now selected_projects h = refl
replace_role builder now selected_projects h = refl
replace_role builder workspace workspace h = absurd cc
replace_role builder selected_projects workspace h = absurd cc
replace_role viewer now m h = absurd cc

pub mutation_status :
    (s : ConnectionWorkspaceStatus)
    → workspace_allows_connection_mutation s ≡ true
    → one_of ("ACTIVE" ∷ []) (workspace_status_value s) ≡ true
unfolding workspace_allows_connection_mutation
mutation_status ConnectionWorkspaceStatus.active h = refl
mutation_status ConnectionWorkspaceStatus.suspended h = absurd cc
mutation_status ConnectionWorkspaceStatus.archived h = absurd cc
mutation_status ConnectionWorkspaceStatus.pending_deletion h = absurd cc

pub lifecycle_status :
    (k : Caller) (draw : Draw) (i : ℕ) (s : ConnectionWorkspaceStatus)
    (action : ConnectionLifecycleAction)
    → workspace_allows_lifecycle_action s action ≡ true
    → one_of (statuses (transition k draw i action)) (workspace_status_value s) ≡ true
unfolding workspace_allows_lifecycle_action workspace_allows_connection_mutation
lifecycle_status k draw i ConnectionWorkspaceStatus.active disable h = refl
lifecycle_status k draw i ConnectionWorkspaceStatus.suspended disable h = refl
lifecycle_status k draw i ConnectionWorkspaceStatus.archived disable h = absurd cc
lifecycle_status k draw i ConnectionWorkspaceStatus.pending_deletion disable h = absurd cc
lifecycle_status k draw i ConnectionWorkspaceStatus.active enable h = refl
lifecycle_status k draw i ConnectionWorkspaceStatus.suspended enable h = absurd cc
lifecycle_status k draw i ConnectionWorkspaceStatus.archived enable h = absurd cc
lifecycle_status k draw i ConnectionWorkspaceStatus.pending_deletion enable h = absurd cc
lifecycle_status k draw i ConnectionWorkspaceStatus.active archive h = refl
lifecycle_status k draw i ConnectionWorkspaceStatus.suspended archive h = absurd cc
lifecycle_status k draw i ConnectionWorkspaceStatus.archived archive h = absurd cc
lifecycle_status k draw i ConnectionWorkspaceStatus.pending_deletion archive h = absurd cc
