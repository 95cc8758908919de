-- ===== src/Workspaces/Service.antt =====
-- domains/workspaces/service.py: `WorkspaceService` over the SQLAlchemy repository.
use bff.Prelude.{ℕ, not, Option, none, some, List, filter, if◌then◌else◌}
use bff.Result.{Result, ok, err, workspace_not_found}
use bff.Text.{Text}
use bff.Ids.{Draw}
use bff.Db.{Tx, lift, query, pure, ◌>>=◌}
use bff.Workspaces.Models.{WorkspaceAccess, normalize_workspace_name, can_read_workspace}
use bff.Workspaces.Reads
use bff.Workspaces.Repository

unfoldable pub create_workspace :
    Draw → Draw → Draw → ℕ → ℕ → Text → ℕ → Option Text → Tx WorkspaceAccess
create_workspace draw membership_draw audit_draw user_id auth_session_id name request_id trace_id =
    do
      normalized_name ← lift (normalize_workspace_name name)
      Repository.create_owned_workspace draw membership_draw audit_draw user_id auth_session_id
          normalized_name request_id trace_id

unfoldable pub list_workspaces : ℕ → Tx (List WorkspaceAccess)
list_workspaces user_id = do
  accesses ← query (Reads.list_for_user user_id)
  pure (filter (λ a. can_read_workspace a.role) accesses)

-- `if access is None or not can_read_workspace(access.role): raise`
abbrev pub readable : Option WorkspaceAccess → Result WorkspaceAccess
readable none = err workspace_not_found
readable (some access) =
    if not (can_read_workspace access.role) then err workspace_not_found else ok access

unfoldable pub get_workspace : ℕ → ℕ → Tx WorkspaceAccess
get_workspace user_id workspace_id = do
  access ← query (Reads.get_for_user user_id workspace_id)
  lift (readable access)
