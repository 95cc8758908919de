-- ===== src/Tests/Workspaces.antt =====
-- The theorem on Workspaces, applied to the small control plane.
use bff.Prelude.{◌≡◌, refl, ap, none}
use bff.Result.{Result, ok}
use bff.Text.{codes}
use bff.Db.{Db}
use bff.Ids.{Draw, uuid7, uuid_str, hex_digits}
use bff.Text.Strip.{strip}
use bff.Connections.Repository.Statements.{insert_audit}
use bff.Workspaces.Models.{
  WorkspaceAccess, WorkspaceStatus, WorkspaceRole, normalize_workspace_name, status_of,
}
use bff.Workspaces.Repository
use bff.Workspaces.Repository.{insert_workspace, insert_owner_membership, answer}
use bff.Workspaces.Service
use bff.Workspaces.Creation.{create_workspace-get_workspace}
use bff.Tests.{sample, first_draw, second_draw}

abbrev third_draw : Draw
third_draw = record { time_ns = 7_000_000; rand_a = 1; rand_b = 2 }

abbrev creation : Result WorkspaceAccess × Db
creation =
    Service.create_workspace first_draw second_draw third_draw 7 70 (codes "Club ") 71 none sample

abbrev club : WorkspaceAccess
club = record {
  workspace_id = 6573561814270656701792258;
  name = codes "Club";
  status = WorkspaceStatus.active;
  role = WorkspaceRole.owner;
  created_at = 9;
  updated_at = 9;
}

creation_succeeds : creation.0 ≡ ok club
unfolding Service.create_workspace Repository.create_owned_workspace uuid7 uuid_str hex_digits strip
    normalize_workspace_name insert_workspace insert_owner_membership insert_audit answer status_of
creation_succeeds = refl

create_workspace-get_workspace_example :
    (Service.get_workspace 7 6573561814270656701792258 creation.1 ≡ (ok club, creation.1))
    × ((WorkspaceRole.owner ≡ WorkspaceRole.owner)
        × ((WorkspaceStatus.active ≡ WorkspaceStatus.active)
            × (normalize_workspace_name (codes "Club ") ≡ ok (codes "Club"))))
create_workspace-get_workspace_example =
    create_workspace-get_workspace first_draw second_draw third_draw 7 70 (codes "Club ") 71 none
      sample club creation.1
      (ap (λ (y : Result WorkspaceAccess). (y, creation.1)) creation_succeeds)
