-- ===== src/Tests/Drafts.antt =====
-- The theorem on drafts, applied to the small control plane.
use bff.Prelude.{◌≡◌, refl, ap, some}
use bff.Result.{Result, ok}
use bff.Text.{text_eq}
use bff.Db.{Db}
use bff.Connections.Models.{ConnectionDraft}
use bff.Connections.Values.{status_of, mode_of, role_of, workspace_status_of}
use bff.Connections.Policies.{
  can_author_connections, workspace_allows_connection_mutation, connection_allows_authoring,
}
use bff.Connections.Providers
use bff.Connections.Repository.Queries.{
  select_workspace_context, join_workspaces, workspace_context, workspace_context_from_row,
  mutation_context, mutation_context_from_row,
}
use bff.Connections.Repository.Statements.{upsert_draft}
use bff.Connections.Repository.Commands
use bff.Connections.Service
use bff.Connections.Service.Authorize.{authorize_authoring}
use bff.Connections.Drafts.{put_draft-get_draft}
use bff.Tests.{sample, platform, configuration}

abbrev put : Result ConnectionDraft × Db
put = Service.put_draft platform 8 1 100 configuration sample

abbrev new_draft : ConnectionDraft
new_draft = record {
  connection_id = 100;
  workspace_id = 1;
  configuration = configuration;
  updated_by_user_id = some 8;
  updated_at = 9;
}

put_succeeds : put.0 ≡ ok new_draft
unfolding Service.put_draft Commands.put_draft join_workspaces workspace_context
    select_workspace_context workspace_context_from_row mutation_context mutation_context_from_row
    status_of mode_of role_of workspace_status_of authorize_authoring can_author_connections
    workspace_allows_connection_mutation connection_allows_authoring upsert_draft
    Providers.compile_draft Providers.require text_eq
put_succeeds = refl

whole_draft :
    (out : Result ConnectionDraft × Db) (r : ConnectionDraft) → out.0 ≡ ok r → out ≡ (ok r, out.1)
whole_draft (x, d) r h = ap (λ (y : Result ConnectionDraft). (y, d)) h

put_draft-get_draft_example : Service.get_draft 8 1 100 put.1 ≡ (ok new_draft, put.1)
put_draft-get_draft_example =
    put_draft-get_draft platform 8 1 100 configuration sample (tt, tt) (λ h. refl, tt) new_draft
      put.1 (whole_draft put new_draft put_succeeds)
