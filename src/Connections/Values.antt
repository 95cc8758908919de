-- ===== src/Connections/Values.antt =====
-- The members of the `StrEnum`s of domains/connections/models.py: `.value`, and the call of the
-- class on a text, which raises `ValueError` for a text that is no member's value.
use bff.Prelude.{String, str_eq, eq_iff, arith, if◌then◌else◌, ◌≡◌, refl}
use bff.Result.{Result, ok, err, value_error}
use bff.Connections.Models.{
  ConnectionStatus, ConnectionAccessMode, ConnectionAuthorizationRole, ConnectionWorkspaceStatus,
}

abbrev pub status_value : ConnectionStatus → String
status_value ConnectionStatus.draft = "DRAFT"
status_value ConnectionStatus.active = "ACTIVE"
status_value ConnectionStatus.disabled = "DISABLED"
status_value ConnectionStatus.archived = "ARCHIVED"

unfoldable pub status_of : String → Result ConnectionStatus
status_of s =
    if str_eq s "DRAFT"
    then ok ConnectionStatus.draft
    else if str_eq s "ACTIVE"
    then ok ConnectionStatus.active
    else if str_eq s "DISABLED"
    then ok ConnectionStatus.disabled
    else if str_eq s "ARCHIVED"
    then ok ConnectionStatus.archived
    else err value_error

abbrev pub mode_value : ConnectionAccessMode → String
mode_value ConnectionAccessMode.workspace = "WORKSPACE"
mode_value ConnectionAccessMode.selected_projects = "SELECTED_PROJECTS"

unfoldable pub mode_of : String → Result ConnectionAccessMode
mode_of s =
    if str_eq s "WORKSPACE"
    then ok ConnectionAccessMode.workspace
    else if str_eq s "SELECTED_PROJECTS"
    then ok ConnectionAccessMode.selected_projects
    else err value_error

abbrev pub role_value : ConnectionAuthorizationRole → String
role_value ConnectionAuthorizationRole.owner = "OWNER"
role_value ConnectionAuthorizationRole.admin = "ADMIN"
role_value ConnectionAuthorizationRole.builder = "BUILDER"
role_value ConnectionAuthorizationRole.viewer = "VIEWER"

unfoldable pub role_of : String → Result ConnectionAuthorizationRole
role_of s =
    if str_eq s "OWNER"
    then ok ConnectionAuthorizationRole.owner
    else if str_eq s "ADMIN"
    then ok ConnectionAuthorizationRole.admin
    else if str_eq s "BUILDER"
    then ok ConnectionAuthorizationRole.builder
    else if str_eq s "VIEWER"
    then ok ConnectionAuthorizationRole.viewer
    else err value_error

unfoldable pub workspace_status_of : String → Result ConnectionWorkspaceStatus
workspace_status_of s =
    if str_eq s "ACTIVE"
    then ok ConnectionWorkspaceStatus.active
    else if str_eq s "SUSPENDED"
    then ok ConnectionWorkspaceStatus.suspended
    else if str_eq s "ARCHIVED"
    then ok ConnectionWorkspaceStatus.archived
    else if str_eq s "PENDING_DELETION"
    then ok ConnectionWorkspaceStatus.pending_deletion
    else err value_error

-- A member's value names that member again.
pub status_of-status_value : (s : ConnectionStatus) → status_of (status_value s) ≡ ok s
unfolding status_of
status_of-status_value ConnectionStatus.draft = refl
status_of-status_value _ = refl

pub mode_of-mode_value : (m : ConnectionAccessMode) → mode_of (mode_value m) ≡ ok m
unfolding mode_of
mode_of-mode_value ConnectionAccessMode.workspace = refl
mode_of-mode_value _ = refl

pub role_of-role_value : (r : ConnectionAuthorizationRole) → role_of (role_value r) ≡ ok r
unfolding role_of
role_of-role_value ConnectionAuthorizationRole.owner = refl
role_of-role_value _ = refl

-- A text that the class accepts is the value of the member that it returns.
pub status_of-ok : (s : String) (v : ConnectionStatus) → status_of s ≡ ok v → s ≡ status_value v
unfolding status_of
status_of-ok s v h =
    ground (arith, eq_iff s "DRAFT", eq_iff s "ACTIVE", eq_iff s "DISABLED", eq_iff s "ARCHIVED")

pub mode_of-ok : (s : String) (m : ConnectionAccessMode) → mode_of s ≡ ok m → s ≡ mode_value m
unfolding mode_of
mode_of-ok s m h = ground (arith, eq_iff s "WORKSPACE", eq_iff s "SELECTED_PROJECTS")

abbrev pub workspace_status_value : ConnectionWorkspaceStatus → String
workspace_status_value ConnectionWorkspaceStatus.active = "ACTIVE"
workspace_status_value ConnectionWorkspaceStatus.suspended = "SUSPENDED"
workspace_status_value ConnectionWorkspaceStatus.archived = "ARCHIVED"
workspace_status_value ConnectionWorkspaceStatus.pending_deletion = "PENDING_DELETION"

pub role_of-ok :
    (s : String) (r : ConnectionAuthorizationRole) → role_of s ≡ ok r → s ≡ role_value r
unfolding role_of
role_of-ok s r h =
    ground (arith, eq_iff s "OWNER", eq_iff s "ADMIN", eq_iff s "BUILDER", eq_iff s "VIEWER")

pub workspace_status_of-ok :
    (s : String) (v : ConnectionWorkspaceStatus)
    → workspace_status_of s ≡ ok v
    → s ≡ workspace_status_value v
unfolding workspace_status_of
workspace_status_of-ok s v h = ground (
  arith,
  eq_iff s "ACTIVE",
  eq_iff s "SUSPENDED",
  eq_iff s "ARCHIVED",
  eq_iff s "PENDING_DELETION",
)
