-- ===== src/Connections/Guards.antt =====
-- What the authorizers of domains/connections/service.py have checked when they raise nothing.
use bff.Prelude.{differ, ◌≡◌, refl, arith, true, ◌≢◌}
use bff.Result.{ok}
use bff.Connections.Models.{
  ConnectionAccessPolicy, ConnectionLifecycleAction, ConnectionMutationContext, ConnectionStatus,
  ConnectionWorkspaceContext,
}
use bff.Connections.Values.{status_value}
use bff.Connections.Policies.{
  can_author_connections, can_create_with_access, can_manage_connection_lifecycle,
  can_replace_access, workspace_allows_connection_mutation, workspace_allows_lifecycle_action,
  connection_allows_authoring, connection_allows_access_replacement, lifecycle_transition_allowed,
}
use bff.Connections.Service.Authorize.{
  authorize_creation, authorize_authoring, authorize_access, authorize_lifecycle,
}

pub authorize_creation-ok :
    (c : ConnectionWorkspaceContext) (policy : ConnectionAccessPolicy)
    → authorize_creation c policy ≡ ok tt
    → (can_create_with_access c.role policy.mode ≡ true)
      × (workspace_allows_connection_mutation c.status ≡ true)
unfolding authorize_creation
authorize_creation-ok c policy h = ground arith

pub authorize_authoring-ok :
    (c : ConnectionMutationContext)
    → authorize_authoring c ≡ ok tt
    → (can_author_connections c.workspace.role ≡ true)
      × ((workspace_allows_connection_mutation c.workspace.status ≡ true)
          × (connection_allows_authoring c.status ≡ true))
unfolding authorize_authoring
authorize_authoring-ok c h = ground arith

pub authorize_access-ok :
    (c : ConnectionMutationContext) (policy : ConnectionAccessPolicy)
    → authorize_access c policy ≡ ok tt
    → (can_replace_access c.workspace.role c.access_mode policy.mode ≡ true)
      × ((workspace_allows_connection_mutation c.workspace.status ≡ true)
          × (connection_allows_access_replacement c.status ≡ true))
unfolding authorize_access
authorize_access-ok c policy h = ground arith

pub authorize_lifecycle-ok :
    (c : ConnectionMutationContext) (action : ConnectionLifecycleAction)
    → authorize_lifecycle c action ≡ ok tt
    → (can_manage_connection_lifecycle c.workspace.role ≡ true)
      × ((workspace_allows_lifecycle_action c.workspace.status action ≡ true)
          × (lifecycle_transition_allowed c.status action ≡ true))
unfolding authorize_lifecycle
authorize_lifecycle-ok c action h = ground arith

pub authoring-live :
    (s : ConnectionStatus) → connection_allows_authoring s ≡ true → status_value s ≢ "ARCHIVED"
unfolding connection_allows_authoring
authoring-live ConnectionStatus.draft h = differ "DRAFT" "ARCHIVED" refl
authoring-live ConnectionStatus.active h = differ "ACTIVE" "ARCHIVED" refl
authoring-live ConnectionStatus.disabled h = differ "DISABLED" "ARCHIVED" refl
authoring-live ConnectionStatus.archived h = absurd cc

pub access-live :
    (s : ConnectionStatus)
    → connection_allows_access_replacement s ≡ true
    → status_value s ≢ "ARCHIVED"
unfolding connection_allows_access_replacement
access-live ConnectionStatus.draft h = differ "DRAFT" "ARCHIVED" refl
access-live ConnectionStatus.active h = differ "ACTIVE" "ARCHIVED" refl
access-live ConnectionStatus.disabled h = differ "DISABLED" "ARCHIVED" refl
access-live ConnectionStatus.archived h = absurd cc
