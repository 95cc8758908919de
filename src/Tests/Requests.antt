-- ===== src/Tests/Requests.antt =====
-- The theorems on requests, applied to the small control plane.
use bff.Prelude.{◌≡◌, refl}
use bff.Result.{ok}
use bff.Connections.Models.{disable, enable}
use bff.Connections.Rows.{Grows}
use bff.Connections.Lifecycle.{Evolves, IsBorn}
use bff.Connections.Requests.{Request, perform, publish, transition}
use bff.Connections.Requests.Evolution.{perform-Evolves}
use bff.Connections.Service
use bff.Prelude.{ap, Bool-cases, inl, inr, differ, ◌==◌, All}
use bff.Result.{Result}
use bff.Db.{Db}
use bff.Connections.Models.{ConnectionStatus}
use bff.Connections.Numbers.{IsNumbered}
use bff.Connections.Repository.Queries.{join_workspaces}
use bff.Connections.Repository.Statements.{update_lifecycle}
use bff.Connections.Requests.{Reach, here, next, request}
use bff.Connections.Requests.Runs.{Reach-IsNumbered, Reach-IsHashed}
use bff.Connections.Requests.Revisions.{IsHashed, Revised, perform-Revised}
use bff.Connections.Requests.Sound.{AreSound, Reach-AreSound}
use bff.Connections.Requests.Permanence.{Keeps, Any, Reach-Keeps}
use bff.Connections.Requests.Trail.{Trailed, audited, perform-Trailed}
use bff.Connections.Requests.Authority.{Authorized}
use bff.Connections.Requests.Authorized.{perform-Authorized}
use bff.Connections.Requests.Isolation.{IsIsolated, perform-IsIsolated}
use bff.Connections.Providers
use bff.Connections.Repository.Commands
use bff.Connections.Repository.Commands.{audit}
use bff.Connections.Repository.Queries.{
  workspace_context, select_workspace_context, workspace_context_from_row, mutation_context,
  mutation_context_from_row, fetch_connection, connection_from_row, project_ids_of,
  next_revision_number,
}
use bff.Connections.Repository.Statements.{insert_revision, activate_draft_connection, insert_audit}
use bff.Connections.Values.{status_of, mode_of, role_of, workspace_status_of}
use bff.Connections.Service.Authorize.{authorize_authoring, authorize_lifecycle}
use bff.Connections.Policies.{
  can_author_connections, workspace_allows_connection_mutation, connection_allows_authoring,
  workspace_allows_lifecycle_action, can_manage_connection_lifecycle, lifecycle_transition_allowed,
}
use bff.Ids.{uuid7, uuid_str, hex_digits}
use bff.Text.{text_eq}
use bff.Json.Dumps.{dumps, encode}
use bff.Tests.{sample, platform, owner_caller, first_draw, second_draw}

abbrev disable_active : Request
disable_active = transition owner_caller first_draw 101 disable

abbrev enable_active : Request
enable_active = transition owner_caller first_draw 101 enable

abbrev publish_draft : Request
publish_draft = publish owner_caller first_draw second_draw 100

publish_succeeds : (perform platform publish_draft sample).0 ≡ ok tt
unfolding perform Service.publish_revision Commands.publish_revision audit uuid7 uuid_str hex_digits
    workspace_context select_workspace_context workspace_context_from_row mutation_context
    mutation_context_from_row status_of mode_of role_of workspace_status_of fetch_connection
    connection_from_row project_ids_of next_revision_number insert_revision
    activate_draft_connection insert_audit authorize_authoring can_author_connections
    workspace_allows_connection_mutation connection_allows_authoring Providers.publish
    Providers.require text_eq dumps encode
publish_succeeds = refl

perform-Evolves_example :
    Grows
      (Evolves 9 (perform platform disable_active sample).1.revisions)
      (IsBorn 9)
      sample.connections
      (perform platform disable_active sample).1.connections
perform-Evolves_example = perform-Evolves platform disable_active sample

disable_succeeds : (perform platform disable_active sample).0 ≡ ok tt
unfolding perform Service.transition_lifecycle Commands.transition_lifecycle audit uuid7 uuid_str
    hex_digits workspace_context select_workspace_context workspace_context_from_row
    mutation_context mutation_context_from_row status_of mode_of role_of workspace_status_of
    fetch_connection connection_from_row project_ids_of update_lifecycle insert_audit
    authorize_lifecycle can_manage_connection_lifecycle workspace_allows_lifecycle_action
    lifecycle_transition_allowed join_workspaces
disable_succeeds = refl

-- A result and the state beside it.
whole : (out : Result (Unit {0}) × Db) → out.0 ≡ ok tt → out ≡ (ok tt, out.1)
whole (r, d) h = ap (λ (x : Result (Unit {0})). (x, d)) h

abbrev disabled : Db
disabled = (perform platform disable_active sample).1

abbrev published : Db
published = (perform platform publish_draft disabled).1

two_steps : Reach platform sample published
two_steps = next (next here (request disable_active refl)) (request publish_draft refl)

sample-IsNumbered : IsNumbered sample.revisions
sample-IsNumbered i = elim (Bool-cases (101 == i)) [ inl e ↦ rw e refl | inr e ↦ rw e refl ]

sample-AreSound : AreSound sample
sample-AreSound = (
  record {
    status = ConnectionStatus.draft;
    known = refl;
    archived = refl;
    backed = λ live. absurd (elim live [
      | inl e ↦ differ "DRAFT" "ACTIVE" refl e
      | inr e ↦ differ "DRAFT" "DISABLED" refl e
    ]);
  },
  (
    record {
      status = ConnectionStatus.active;
      known = refl;
      archived = refl;
      backed = λ live. refl;
    },
    tt,
  ),
)

Reach-IsNumbered_example : IsNumbered published.revisions
Reach-IsNumbered_example = Reach-IsNumbered platform sample published two_steps sample-IsNumbered

Reach-IsHashed_example : All (IsHashed platform) published.revisions
Reach-IsHashed_example = Reach-IsHashed platform sample published two_steps (refl, tt)

Reach-AreSound_example : AreSound published
Reach-AreSound_example = Reach-AreSound platform sample published two_steps sample-AreSound

Reach-Keeps_example : Grows Keeps Any sample.connections published.connections
Reach-Keeps_example = Reach-Keeps platform sample published two_steps

perform-Trailed_example : Trailed (audited disable_active) sample disabled
perform-Trailed_example =
    perform-Trailed platform disable_active sample disabled
      (whole (perform platform disable_active sample) disable_succeeds)

perform-Authorized_example : Authorized disable_active sample
perform-Authorized_example =
    perform-Authorized platform disable_active sample disabled
      (whole (perform platform disable_active sample) disable_succeeds)

perform-IsIsolated_example : IsIsolated 1 sample disabled
perform-IsIsolated_example = perform-IsIsolated platform disable_active sample

perform-Revised_example : Revised platform sample (perform platform publish_draft sample).1
perform-Revised_example = perform-Revised platform publish_draft sample
