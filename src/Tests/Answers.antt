-- ===== src/Tests/Answers.antt =====
-- The theorems on inputs and answers, applied to the small control plane.
use bff.Prelude.{ℕ, ◌≡◌, refl, ap, none, some, [], ◌∷◌, arith}
use bff.Result.{Result, ok}
use bff.Text.{Text, codes}
use bff.Db.{Db}
use bff.Connections.Models.{
  Connection, ConnectionStatus, selected_projects, ConnectionAccessPolicy, archive,
}
use bff.Connections.Service
use bff.Connections.Policies.{normalize_access_policy, normalize_connection_name, from_keys}
use bff.Connections.Policies.Access.{IsNormalized, normalize_access_policy-IsNormalized}
use bff.Connections.Policies.Names.{IsName, normalize_connection_name-IsName}
use bff.Connections.Answers.{
  replace_access-returns, transition_lifecycle-returns, rename_connection-returns,
}
use bff.Connections.Repository.Commands
use bff.Connections.Repository.Commands.{audit}
use bff.Connections.Repository.Queries.{
  workspace_context, select_workspace_context, workspace_context_from_row, mutation_context,
  mutation_context_from_row, fetch_connection, connection_from_row, project_ids_of, join_workspaces,
  validate_projects,
}
use bff.Connections.Repository.Statements.{
  insert_audit, delete_project_access, insert_project_access, update_access_mode, rename_statement,
  update_lifecycle,
}
use bff.Connections.Values.{status_of, mode_of, role_of, workspace_status_of}
use bff.Connections.Service.Authorize.{authorize_access, authorize_authoring, authorize_lifecycle}
use bff.Connections.Policies.{
  can_replace_access, can_author_connections, workspace_allows_connection_mutation,
  connection_allows_authoring, connection_allows_access_replacement,
  workspace_allows_lifecycle_action, can_manage_connection_lifecycle, lifecycle_transition_allowed,
}
use bff.Ids.{uuid7, uuid_str, hex_digits}
use bff.Text.{text_le}
use bff.Text.Strip.{strip}
use bff.Prelude.{In}
use bff.Text.{text_eq}
use bff.Connections.Providers.{registry, mapped, require}
use bff.Connections.Providers.Lookup.{registry-require}
use bff.Tests.{platform, http, sample, owner_caller, builder_caller, first_draw}

abbrev policy : ConnectionAccessPolicy
policy = record { mode = selected_projects; project_ids = 20 ∷ [] }

-- The connection that is read back.
abbrev answer : Text → ConnectionStatus → ℕ → Connection
answer name status at = record {
  connection_id = 100;
  workspace_id = 1;
  name = name;
  provider_key = codes "http";
  access_policy = policy;
  status = status;
  created_at = 2;
  updated_at = at;
  archived_at = none;
}

abbrev replaced : Result Connection × Db
replaced = Service.replace_access builder_caller first_draw 100 policy sample

whole : (out : Result Connection × Db) (r : Connection) → out.0 ≡ ok r → out ≡ (ok r, out.1)
whole (x, d) r h = ap (λ (y : Result Connection). (y, d)) h

replace_succeeds : replaced.0 ≡ ok (answer (codes "Orders") ConnectionStatus.draft 9)
unfolding Service.replace_access Commands.replace_access audit uuid7 uuid_str hex_digits
    join_workspaces workspace_context select_workspace_context workspace_context_from_row
    mutation_context mutation_context_from_row status_of mode_of role_of workspace_status_of
    fetch_connection connection_from_row project_ids_of insert_audit delete_project_access
    insert_project_access update_access_mode validate_projects normalize_access_policy from_keys
    authorize_access can_replace_access can_manage_connection_lifecycle
    workspace_allows_connection_mutation connection_allows_access_replacement text_le
replace_succeeds = refl

replace_access-returns_example : normalize_access_policy selected_projects (20 ∷ []) ≡ ok policy
replace_access-returns_example =
    replace_access-returns builder_caller first_draw 100 sample policy
      (answer (codes "Orders") ConnectionStatus.draft 9) replaced.1 (omega arith, tt)
      (whole replaced _ replace_succeeds)

abbrev renamed : Result Connection × Db
renamed = Service.rename_connection builder_caller first_draw 100 (codes " Bills ") sample

rename_succeeds : renamed.0 ≡ ok (answer (codes "Bills") ConnectionStatus.draft 9)
unfolding Service.rename_connection Commands.rename_connection audit uuid7 uuid_str hex_digits
    join_workspaces workspace_context select_workspace_context workspace_context_from_row
    mutation_context mutation_context_from_row status_of mode_of role_of workspace_status_of
    fetch_connection connection_from_row project_ids_of insert_audit rename_statement
    normalize_connection_name strip authorize_authoring can_author_connections
    workspace_allows_connection_mutation connection_allows_authoring
rename_succeeds = refl

rename_connection-returns_example : normalize_connection_name (codes " Bills ") ≡ ok (codes "Bills")
rename_connection-returns_example =
    rename_connection-returns builder_caller first_draw 100 sample (codes " Bills ")
      (answer (codes "Bills") ConnectionStatus.draft 9) renamed.1 (whole renamed _ rename_succeeds)

abbrev archived : Result Connection × Db
archived = Service.transition_lifecycle owner_caller first_draw 100 archive sample

abbrev archived_answer : Connection
archived_answer = record (answer (codes "Orders") ConnectionStatus.archived 9) {
  archived_at = some 9;
}

archive_succeeds : archived.0 ≡ ok archived_answer
unfolding Service.transition_lifecycle Commands.transition_lifecycle audit uuid7 uuid_str hex_digits
    join_workspaces workspace_context select_workspace_context workspace_context_from_row
    mutation_context mutation_context_from_row status_of mode_of role_of workspace_status_of
    fetch_connection connection_from_row project_ids_of insert_audit update_lifecycle
    authorize_lifecycle can_manage_connection_lifecycle workspace_allows_lifecycle_action
    lifecycle_transition_allowed workspace_allows_connection_mutation
archive_succeeds = refl

transition_lifecycle-returns_example : archived_answer.status ≡ ConnectionStatus.archived
transition_lifecycle-returns_example =
    transition_lifecycle-returns owner_caller first_draw 100 sample archive archived_answer
      archived.1 (whole archived _ archive_succeeds)

normalize_access_policy-IsNormalized_example :
    IsNormalized selected_projects
      (30 ∷ 20 ∷ [])
      (record { mode = selected_projects; project_ids = 20 ∷ 30 ∷ [] })
unfolding normalize_access_policy from_keys text_le uuid_str hex_digits
normalize_access_policy-IsNormalized_example =
    normalize_access_policy-IsNormalized selected_projects (30 ∷ 20 ∷ [])
      (record { mode = selected_projects; project_ids = 20 ∷ 30 ∷ [] }) refl

normalize_connection_name-IsName_example :
    IsName (codes "Bills") × (normalize_connection_name (codes "Bills") ≡ ok (codes "Bills"))
unfolding normalize_connection_name strip
normalize_connection_name-IsName_example =
    normalize_connection_name-IsName (codes " Bills ") (codes "Bills") refl

registry-require_example : require platform.registry (codes "http") ≡ ok http
unfolding registry mapped text_eq
registry-require_example = registry-require (http ∷ []) platform.registry http refl (In.head refl)
