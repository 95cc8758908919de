-- ===== src/Projects/Policies.antt =====
-- domains/projects/policies.py
use bff.Prelude.{ℕ, ℤ, pos, pos_part, ltb_ℤ, Bool, true, false, ◌||◌, ltb, length, if◌then◌else◌}
use bff.Result.{Result, ok, err, value_error}
use bff.Text.{Text, is_space}
use bff.Text.Strip.{strip}
use bff.Connections.Policies.{is_empty}
use bff.Projects.Models.{
  ProjectAuthorizationRole, owner, admin, builder, viewer, ProjectWorkspaceStatus,
}

abbrev pub max_project_name_length : ℕ
max_project_name_length = 120

abbrev pub max_project_page_limit : ℕ
max_project_page_limit = 100

unfoldable pub normalize_project_name : Text → Result Text
normalize_project_name value =
    let normalized = strip is_space value in
    if is_empty normalized
    then err value_error
    else if ltb max_project_name_length (length normalized)
    then err value_error
    else ok normalized

-- The number itself, which is then not negative.
unfoldable pub validate_project_page_limit : ℤ → Result ℕ
validate_project_page_limit value =
    if ltb_ℤ value (pos 1) || ltb_ℤ (pos max_project_page_limit) value
    then err value_error
    else ok (pos_part value)

-- `role in _READ_ROLES`, every role
unfoldable pub can_read_projects : ProjectAuthorizationRole → Bool
can_read_projects owner = true
can_read_projects admin = true
can_read_projects builder = true
can_read_projects viewer = true

-- `role in _CREATE_ROLES`
unfoldable pub can_create_project : ProjectAuthorizationRole → Bool
can_create_project owner = true
can_create_project admin = true
can_create_project builder = true
can_create_project viewer = false

unfoldable pub workspace_allows_project_creation : ProjectWorkspaceStatus → Bool
workspace_allows_project_creation ProjectWorkspaceStatus.active = true
workspace_allows_project_creation _ = false
