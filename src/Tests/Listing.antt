-- ===== src/Tests/Listing.antt =====
-- The theorem on the pages of Connections, applied to the small control plane.
use bff.Prelude.{All, ◌≡◌, refl, none, pos, [], ◌∷◌, arith}
use bff.Result.{ok}
use bff.Paging.{keyset, page}
use bff.Connections.Models.{
  ConnectionStatus, ConnectionAccessMode, ConnectionWorkspaceContext, ConnectionAuthorizationRole,
  ConnectionWorkspaceStatus,
}
use bff.Connections.Values.{status_of, mode_of, role_of, workspace_status_of}
use bff.Connections.Repository.Queries.{
  select_workspace_context, join_workspaces, workspace_context_from_row, project_ids_of,
}
use bff.Connections.Repository.Reads.{row_key}
use bff.Connections.Listing.{IsReadable, readable, shown, connections_in, list_connections-page}
use bff.Connections.Service
use bff.Tests.{sample, workspace_row, owner_row}

abbrev owner_context : ConnectionWorkspaceContext
owner_context = record {
  workspace_id = 1;
  status = ConnectionWorkspaceStatus.active;
  role = ConnectionAuthorizationRole.owner;
}

owner_context_is : workspace_context_from_row (workspace_row, owner_row) ≡ ok owner_context
unfolding workspace_context_from_row role_of workspace_status_of
owner_context_is = refl

owner_access : select_workspace_context 7 1 sample ≡ (workspace_row, owner_row) ∷ []
unfolding join_workspaces select_workspace_context
owner_access = refl

rows_readable : All (IsReadable sample.access) sample.connections
unfolding status_of mode_of project_ids_of
rows_readable = (
  readable ConnectionAccessMode.selected_projects ConnectionStatus.draft refl refl refl,
  (readable ConnectionAccessMode.workspace ConnectionStatus.active refl refl refl, tt),
)

list_connections-page_example : Service.list_connections 7 1 none (pos 1) sample ≡ (
  ok (shown sample.access (page row_key 1 (keyset row_key none 2 (connections_in 1 sample)))),
  sample,
)
list_connections-page_example =
    list_connections-page sample rows_readable (workspace_row, owner_row) owner_context
      owner_context_is 7 1 none 1 owner_access (omega arith) (omega arith)
