-- ===== src/Connections/Policies.antt =====
-- domains/connections/policies.py: authorization, lifecycle and input policies.
pub mod Access
pub mod Names
use bff.Prelude.{
  ℕ, ℤ, pos, pos_part, ltb_ℤ, Bool, true, false, not, ◌&&◌, ◌||◌, Option, none, some, List, [], ◌∷◌,
  ltb, ◌==◌, if◌then◌else◌, filter, length, sort_by,
}
use bff.Result.{Result, ok, err, value_error}
use bff.Text.{Text, is_space, text_eq, text_le}
use bff.Text.Strip.{strip}
use bff.Ids.{uuid_str}
use bff.Json.{JsonObject}
use bff.Connections.Models.{
  ConnectionAccessMode, workspace, selected_projects, ConnectionAccessPolicy,
  ConnectionAuthorizationRole, owner, admin, builder, viewer, ConnectionLifecycleAction, disable,
  enable, archive, ConnectionStatus, ConnectionWorkspaceStatus,
}

abbrev pub max_connection_name_length : ℕ
max_connection_name_length = 120

abbrev pub max_connection_page_limit : ℕ
max_connection_page_limit = 100

abbrev pub max_connection_revision_page_limit : ℕ
max_connection_revision_page_limit = 100

abbrev pub max_selected_projects : ℕ
max_selected_projects = 1000

abbrev pub is_empty : Text → Bool
is_empty [] = true
is_empty (c ∷ s) = false

unfoldable pub normalize_connection_name : Text → Result Text
normalize_connection_name value =
    let normalized = strip is_space value in
    if is_empty normalized
    then err value_error
    else if ltb max_connection_name_length (length normalized)
    then err value_error
    else ok normalized

-- `casefold` is `str.casefold`, a table of the Unicode standard.
unfoldable pub normalize_provider_key : (Text → Text) → Text → Result Text
normalize_provider_key casefold value =
    let normalized = strip is_space value in
    if is_empty normalized
    then err value_error
    else if not (text_eq normalized (casefold normalized))
    then err value_error
    else ok normalized

-- `tuple(dict.fromkeys(ids))`: each id where it first stands.
unfoldable pub from_keys : List ℕ → List ℕ
from_keys [] = []
from_keys (x ∷ xs) = x ∷ filter (λ y. not (y == x)) (from_keys xs)

abbrev pub uuid_le : ℕ → ℕ → Bool
uuid_le a b = text_le (uuid_str a) (uuid_str b)

abbrev pub is_workspace : ConnectionAccessMode → Bool
is_workspace workspace = true
is_workspace selected_projects = false

abbrev pub is_nonempty : List ℕ → Bool
is_nonempty [] = false
is_nonempty (x ∷ xs) = true

unfoldable pub normalize_access_policy :
    ConnectionAccessMode → List ℕ → Result ConnectionAccessPolicy
normalize_access_policy mode provided =
    let unique = from_keys provided in
    if not (length unique == length provided)
    then err value_error
    else if ltb max_selected_projects (length unique)
    then err value_error
    else if is_workspace mode && is_nonempty unique
    then err value_error
    else ok (record { mode = mode; project_ids = sort_by uuid_le unique })

-- `dict(value)`
abbrev pub normalize_draft_configuration : JsonObject → JsonObject
normalize_draft_configuration value = value

-- The three tests below return the number itself, which is then not negative.
unfoldable pub validate_connection_page_limit : ℤ → Result ℕ
validate_connection_page_limit value =
    if ltb_ℤ value (pos 1) || ltb_ℤ (pos max_connection_page_limit) value
    then err value_error
    else ok (pos_part value)

unfoldable pub validate_connection_revision_page_limit : ℤ → Result ℕ
validate_connection_revision_page_limit value =
    if ltb_ℤ value (pos 1) || ltb_ℤ (pos max_connection_revision_page_limit) value
    then err value_error
    else ok (pos_part value)

unfoldable pub validate_before_revision : Option ℤ → Result (Option ℕ)
validate_before_revision none = ok none
validate_before_revision (some value) =
    if ltb_ℤ value (pos 1) then err value_error else ok (some (pos_part value))

-- `role in _READ_ROLES`, every role
unfoldable pub can_read_connections : ConnectionAuthorizationRole → Bool
can_read_connections owner = true
can_read_connections admin = true
can_read_connections builder = true
can_read_connections viewer = true

-- `role in _AUTHOR_ROLES`
unfoldable pub can_author_connections : ConnectionAuthorizationRole → Bool
can_author_connections owner = true
can_author_connections admin = true
can_author_connections builder = true
can_author_connections viewer = false

-- `role in _LIFECYCLE_ROLES`
unfoldable pub can_manage_connection_lifecycle : ConnectionAuthorizationRole → Bool
can_manage_connection_lifecycle owner = true
can_manage_connection_lifecycle admin = true
can_manage_connection_lifecycle builder = false
can_manage_connection_lifecycle viewer = false

abbrev is_builder : ConnectionAuthorizationRole → Bool
is_builder builder = true
is_builder _ = false

unfoldable pub can_create_with_access : ConnectionAuthorizationRole → ConnectionAccessMode → Bool
unfolding can_author_connections
can_create_with_access role mode =
    if not (can_author_connections role)
    then false
    else not (is_builder role) || not (is_workspace mode)

unfoldable pub can_replace_access :
    ConnectionAuthorizationRole → ConnectionAccessMode → ConnectionAccessMode → Bool
unfolding can_manage_connection_lifecycle
can_replace_access role current_mode requested_mode =
    if can_manage_connection_lifecycle role
    then true
    else is_builder role && (not (is_workspace current_mode) && not (is_workspace requested_mode))

unfoldable pub workspace_allows_connection_mutation : ConnectionWorkspaceStatus → Bool
workspace_allows_connection_mutation ConnectionWorkspaceStatus.active = true
workspace_allows_connection_mutation _ = false

unfoldable pub workspace_allows_lifecycle_action :
    ConnectionWorkspaceStatus → ConnectionLifecycleAction → Bool
unfolding workspace_allows_connection_mutation
workspace_allows_lifecycle_action ConnectionWorkspaceStatus.active disable = true
workspace_allows_lifecycle_action ConnectionWorkspaceStatus.suspended disable = true
workspace_allows_lifecycle_action _ disable = false
workspace_allows_lifecycle_action status _ = workspace_allows_connection_mutation status

unfoldable pub connection_allows_authoring : ConnectionStatus → Bool
connection_allows_authoring ConnectionStatus.archived = false
connection_allows_authoring _ = true

unfoldable pub connection_allows_access_replacement : ConnectionStatus → Bool
connection_allows_access_replacement ConnectionStatus.archived = false
connection_allows_access_replacement _ = true

unfoldable pub lifecycle_transition_allowed : ConnectionStatus → ConnectionLifecycleAction → Bool
lifecycle_transition_allowed ConnectionStatus.active disable = true
lifecycle_transition_allowed _ disable = false
lifecycle_transition_allowed ConnectionStatus.disabled enable = true
lifecycle_transition_allowed _ enable = false
lifecycle_transition_allowed ConnectionStatus.archived archive = false
lifecycle_transition_allowed _ archive = true
