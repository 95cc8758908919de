-- ===== src/Projects/Models.antt =====
-- domains/projects/models.py
use bff.Prelude.{ℕ, String, Option, List, str_eq, if◌then◌else◌}
use bff.Result.{Result, ok, err, value_error}
use bff.Text.{Text}

pub data ProjectStatus : Type 0 where
  active suspended archived pending_deletion : ProjectStatus

pub data ProjectAuthorizationRole : Type 0 where
  owner admin builder viewer : ProjectAuthorizationRole

pub data ProjectWorkspaceStatus : Type 0 where
  active suspended archived pending_deletion : ProjectWorkspaceStatus

pub record ProjectWorkspaceContext : Type 0 where
  pub workspace_id : ℕ
  pub status : ProjectWorkspaceStatus
  pub role : ProjectAuthorizationRole

pub record Project : Type 0 where
  pub project_id : ℕ
  pub workspace_id : ℕ
  pub name : Text
  pub status : ProjectStatus
  pub created_at : ℕ
  pub updated_at : ℕ
  pub archived_at : Option ℕ

pub record ProjectPageCursor : Type 0 where
  pub created_at : ℕ
  pub project_id : ℕ

pub record ProjectPage : Type 0 where
  pub items : List Project
  pub next_cursor : Option ProjectPageCursor

pub record ProjectPageLookup : Type 0 where
  pub context : Option ProjectWorkspaceContext
  pub page : ProjectPage

pub record ProjectLookup : Type 0 where
  pub context : Option ProjectWorkspaceContext
  pub project : Option Project

-- The values of the enums, and the calls of their classes.
abbrev pub project_status_value : ProjectStatus → String
project_status_value ProjectStatus.active = "ACTIVE"
project_status_value ProjectStatus.suspended = "SUSPENDED"
project_status_value ProjectStatus.archived = "ARCHIVED"
project_status_value ProjectStatus.pending_deletion = "PENDING_DELETION"

unfoldable pub project_status_of : String → Result ProjectStatus
project_status_of s =
    if str_eq s "ACTIVE"
    then ok ProjectStatus.active
    else if str_eq s "SUSPENDED"
    then ok ProjectStatus.suspended
    else if str_eq s "ARCHIVED"
    then ok ProjectStatus.archived
    else if str_eq s "PENDING_DELETION"
    then ok ProjectStatus.pending_deletion
    else err value_error

abbrev pub project_role_value : ProjectAuthorizationRole → String
project_role_value ProjectAuthorizationRole.owner = "OWNER"
project_role_value ProjectAuthorizationRole.admin = "ADMIN"
project_role_value ProjectAuthorizationRole.builder = "BUILDER"
project_role_value ProjectAuthorizationRole.viewer = "VIEWER"

unfoldable pub project_role_of : String → Result ProjectAuthorizationRole
project_role_of s =
    if str_eq s "OWNER"
    then ok ProjectAuthorizationRole.owner
    else if str_eq s "ADMIN"
    then ok ProjectAuthorizationRole.admin
    else if str_eq s "BUILDER"
    then ok ProjectAuthorizationRole.builder
    else if str_eq s "VIEWER"
    then ok ProjectAuthorizationRole.viewer
    else err value_error

unfoldable pub project_workspace_status_of : String → Result ProjectWorkspaceStatus
project_workspace_status_of s =
    if str_eq s "ACTIVE"
    then ok ProjectWorkspaceStatus.active
    else if str_eq s "SUSPENDED"
    then ok ProjectWorkspaceStatus.suspended
    else if str_eq s "ARCHIVED"
    then ok ProjectWorkspaceStatus.archived
    else if str_eq s "PENDING_DELETION"
    then ok ProjectWorkspaceStatus.pending_deletion
    else err value_error
