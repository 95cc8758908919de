-- ===== src/Workspaces/Models.antt =====
-- domains/workspaces/models.py and policies.py
use bff.Prelude.{ℕ, String, Bool, true, str_eq, if◌then◌else◌, ltb, length}
use bff.Result.{Result, ok, err, value_error}
use bff.Text.{Text, is_space}
use bff.Text.Strip.{strip}
use bff.Connections.Policies.{is_empty}

pub data WorkspaceStatus : Type 0 where
  active suspended archived pending_deletion : WorkspaceStatus

pub data WorkspaceRole : Type 0 where
  owner admin builder viewer : WorkspaceRole

-- One Workspace plus the principal's active membership role.
pub record WorkspaceAccess : Type 0 where
  pub workspace_id : ℕ
  pub name : Text
  pub status : WorkspaceStatus
  pub role : WorkspaceRole
  pub created_at : ℕ
  pub updated_at : ℕ

-- `WorkspaceStatus(value)`
unfoldable pub status_of : String → Result WorkspaceStatus
status_of s =
    if str_eq s "ACTIVE"
    then ok WorkspaceStatus.active
    else if str_eq s "SUSPENDED"
    then ok WorkspaceStatus.suspended
    else if str_eq s "ARCHIVED"
    then ok WorkspaceStatus.archived
    else if str_eq s "PENDING_DELETION"
    then ok WorkspaceStatus.pending_deletion
    else err value_error

-- `WorkspaceRole(value)`
unfoldable pub role_of : String → Result WorkspaceRole
role_of s =
    if str_eq s "OWNER"
    then ok WorkspaceRole.owner
    else if str_eq s "ADMIN"
    then ok WorkspaceRole.admin
    else if str_eq s "BUILDER"
    then ok WorkspaceRole.builder
    else if str_eq s "VIEWER"
    then ok WorkspaceRole.viewer
    else err value_error

abbrev pub max_workspace_name_length : ℕ
max_workspace_name_length = 120

unfoldable pub normalize_workspace_name : Text → Result Text
normalize_workspace_name value =
    let normalized = strip is_space value in
    if is_empty normalized
    then err value_error
    else if ltb max_workspace_name_length (length normalized)
    then err value_error
    else ok normalized

-- `role in _READ_ROLES`, every role
unfoldable pub can_read_workspace : WorkspaceRole → Bool
can_read_workspace WorkspaceRole.owner = true
can_read_workspace WorkspaceRole.admin = true
can_read_workspace WorkspaceRole.builder = true
can_read_workspace WorkspaceRole.viewer = true
