-- ===== src/Tests/Projects.antt =====
-- The theorems on Projects, applied to the small control plane.
use bff.Projects.Listing.{IsReadable}
use bff.Prelude.{All, ◌≡◌, refl, ap, none, pos, [], ◌∷◌, map, sort_by, arith}
use bff.Result.{Result, ok, err, project_workspace_not_found}
use bff.Text.{codes}
use bff.Db.{Db}
use bff.Paging.{comes_first, keyset, page}
use bff.Connections.Repository.Commands.{Caller}
use bff.Projects.Models.{
  Project, ProjectStatus, ProjectWorkspaceContext, ProjectAuthorizationRole, ProjectWorkspaceStatus,
}
use bff.Projects.Reads.{row_key, projects_of}
use bff.Projects.Service
use bff.Projects.Creation.{Created, create_project-Created, create_project-rolls_back}
use bff.Projects.Listing.{decode, shown, list_projects-page}
use bff.Projects.Client.{read_all, read_all_complete}
use bff.Ids.{uuid7, uuid_str, hex_digits}
use bff.Text.Strip.{strip}
use bff.Connections.Repository.Queries.{select_workspace_context, join_workspaces}
use bff.Projects.Repository
use bff.Projects.Repository.{insert_project, insert_project_audit}
use bff.Projects.Reads.{context_from_row, project_from_row}
use bff.Projects.Models.{project_status_of, project_role_of, project_workspace_status_of}
use bff.Projects.Policies.{
  normalize_project_name, can_create_project, workspace_allows_project_creation,
}
use bff.Projects.Service.{authorize_creation}
use bff.Tests.{sample, workspace_row, owner_row, builder_caller, first_draw, second_draw}

abbrev new_site : Project
new_site = record {
  project_id = 6573561814270656701792258;
  workspace_id = 1;
  name = codes "Blog";
  status = ProjectStatus.active;
  created_at = 9;
  updated_at = 9;
  archived_at = none;
}

abbrev creation : Result Project × Db
creation = Service.create_project builder_caller first_draw second_draw (codes " Blog ") sample

abbrev stranger : Caller
stranger = record {
  user_id = 99;
  auth_session_id = 80;
  workspace_id = 1;
  request_id = 81;
  trace_id = none;
}

whole : (out : Result Project × Db) (r : Project) → out.0 ≡ ok r → out ≡ (ok r, out.1)
whole (x, d) r h = ap (λ (y : Result Project). (y, d)) h

creation_succeeds : creation.0 ≡ ok new_site
unfolding Service.create_project Repository.create_project uuid7 uuid_str hex_digits join_workspaces
    select_workspace_context context_from_row project_from_row project_status_of project_role_of
    project_workspace_status_of insert_project insert_project_audit normalize_project_name strip
    authorize_creation can_create_project workspace_allows_project_creation
creation_succeeds = refl

create_project-Created_example : Created builder_caller (codes " Blog ") sample new_site creation.1
create_project-Created_example =
    create_project-Created builder_caller first_draw second_draw (codes " Blog ") sample new_site
      creation.1 (whole creation new_site creation_succeeds)

stranger_fails :
    (Service.create_project stranger first_draw second_draw (codes "Blog") sample).0
    ≡ err project_workspace_not_found
unfolding Service.create_project Repository.create_project uuid7 join_workspaces
    select_workspace_context normalize_project_name strip
stranger_fails = refl

create_project-rolls_back_example :
    (Service.create_project stranger first_draw second_draw (codes "Blog") sample).1 ≡ sample
create_project-rolls_back_example =
    create_project-rolls_back stranger first_draw second_draw (codes "Blog") sample
      project_workspace_not_found stranger_fails

abbrev context : ProjectWorkspaceContext
context = record {
  workspace_id = 1;
  status = ProjectWorkspaceStatus.active;
  role = ProjectAuthorizationRole.owner;
}

context_is : context_from_row (workspace_row, owner_row) ≡ ok context
unfolding context_from_row project_role_of project_workspace_status_of
context_is = refl

one_access : select_workspace_context 7 1 sample ≡ (workspace_row, owner_row) ∷ []
unfolding join_workspaces select_workspace_context
one_access = refl

readable : All IsReadable sample.projects
unfolding project_status_of
readable = ((ProjectStatus.active, refl), tt)

list_projects-page_example :
    Service.list_projects 7 1 none (pos 10) sample
    ≡ (ok (shown (page row_key 10 (keyset row_key none 11 (projects_of 1 sample)))), sample)
list_projects-page_example =
    list_projects-page sample readable (workspace_row, owner_row) context context_is 7 1 none 10
      one_access (omega arith) (omega arith)

read_all_complete_example :
    read_all 2 7 1 1 none sample ≡ map decode (sort_by (comes_first row_key) (projects_of 1 sample))
read_all_complete_example =
    read_all_complete sample readable (workspace_row, owner_row) context context_is 7 1 one_access 1
      (omega arith) (omega arith) 2 (tt, tt) (omega arith)
