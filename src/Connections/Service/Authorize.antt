-- ===== src/Connections/Service/Authorize.antt =====
-- The authorizers of `ConnectionService`: they raise, or return nothing.
use bff.Prelude.{Bool, not, Option, none, some, if◌then◌else◌}
use bff.Result.{
  Error, Result, ok, err, ◌>>◌, connection_workspace_not_found, connection_permission_denied,
  connection_workspace_not_active, connection_state_conflict,
}
use bff.Connections.Models.{
  ConnectionAccessPolicy, ConnectionLifecycleAction, ConnectionMutationContext,
  ConnectionWorkspaceContext,
}
use bff.Connections.Policies.{
  can_read_connections, can_author_connections, can_create_with_access,
  can_manage_connection_lifecycle, can_replace_access, workspace_allows_connection_mutation,
  workspace_allows_lifecycle_action, connection_allows_authoring,
  connection_allows_access_replacement, lifecycle_transition_allowed,
}

-- `if not allowed: raise error`
abbrev require : Bool → Error → Result (Unit {0})
require allowed e = if not allowed then err e else ok tt

-- `_authorize_read`
unfoldable pub authorize_read : Option ConnectionWorkspaceContext → Result (Unit {0})
authorize_read none = err connection_workspace_not_found
authorize_read (some context) =
    require (can_read_connections context.role) connection_workspace_not_found

-- `_authorize_read_mutation_context`
unfoldable pub authorize_read_mutation_context :
    Option ConnectionMutationContext → Result (Unit {0})
authorize_read_mutation_context none = err connection_workspace_not_found
authorize_read_mutation_context (some context) =
    require (can_read_connections context.workspace.role) connection_workspace_not_found

-- `_authorize_creation`
unfoldable pub authorize_creation :
    ConnectionWorkspaceContext → ConnectionAccessPolicy → Result (Unit {0})
authorize_creation context access_policy = do
  require (can_create_with_access context.role access_policy.mode) connection_permission_denied
  require (workspace_allows_connection_mutation context.status) connection_workspace_not_active

-- `_authorize_authoring`
unfoldable pub authorize_authoring : ConnectionMutationContext → Result (Unit {0})
authorize_authoring context = do
  require (can_author_connections context.workspace.role) connection_permission_denied
  require (workspace_allows_connection_mutation context.workspace.status)
      connection_workspace_not_active
  require (connection_allows_authoring context.status) connection_state_conflict

-- `_authorize_access`
unfoldable pub authorize_access :
    ConnectionMutationContext → ConnectionAccessPolicy → Result (Unit {0})
authorize_access context access_policy = do
  require (can_replace_access context.workspace.role context.access_mode access_policy.mode)
      connection_permission_denied
  require (workspace_allows_connection_mutation context.workspace.status)
      connection_workspace_not_active
  require (connection_allows_access_replacement context.status) connection_state_conflict

-- `_authorize_lifecycle`
unfoldable pub authorize_lifecycle :
    ConnectionMutationContext → ConnectionLifecycleAction → Result (Unit {0})
authorize_lifecycle context action = do
  require (can_manage_connection_lifecycle context.workspace.role) connection_permission_denied
  require (workspace_allows_lifecycle_action context.workspace.status action)
      connection_workspace_not_active
  require (lifecycle_transition_allowed context.status action) connection_state_conflict
