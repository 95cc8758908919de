-- ===== src/Routes/Reads.antt =====
-- The reading methods of the services that the routes call, as atomic computations.
use bff.Prelude.{ℕ, ℤ, not, if◌then◌else◌, Option, none, some, ◌≡◌, refl}
use bff.Result.{
  Error, Result, ok, err, project_not_found, connection_workspace_not_found,
  connection_permission_denied, principal_authentication,
}
use bff.Text.{Text}
use bff.Db.{Db, Tx, lift, query, pure, ◌>>=◌}
use bff.Db.Rules.{IsAtomic, lift-IsAtomic, fails-IsAtomic, query-IsAtomic}
use bff.Authentication.Models.{VerifiedAccessToken, AuthenticatedPrincipal}
use bff.Authentication.Service.{authenticate, verification_failed, require_principal}
use bff.Authentication.Principals.{resolve_active_principal}
use bff.Workspaces.Service as WorkspaceService
use bff.Projects.Service as ProjectService
use bff.Connections.Service as ConnectionService
use bff.Connections.Service.{or_raise}
use bff.Workspaces.Reads as WorkspaceReads
use bff.Projects.Reads as ProjectReads
use bff.Connections.Repository.Reads as ConnectionReads
use bff.Projects.Models.{Project}
use bff.Connections.Policies.{
  validate_before_revision, validate_connection_revision_page_limit, can_author_connections,
}
use bff.Connections.Service.Authorize.{
  authorize_read, authorize_read_mutation_context, authorize_authoring,
}

pub pure-IsAtomic : {A : Type 0} (a : A) → IsAtomic (pure a)
pure-IsAtomic a = fails-IsAtomic (ok a)

pub or_raise-IsAtomic : {A : Type 0} (e : Error) (o : Option A) → IsAtomic (or_raise e o)
or_raise-IsAtomic e none = fails-IsAtomic (err e)
or_raise-IsAtomic e (some a) = pure-IsAtomic a

pub list_workspaces-IsAtomic : (u : ℕ) → IsAtomic (WorkspaceService.list_workspaces u)
unfolding WorkspaceService.list_workspaces
list_workspaces-IsAtomic u =
    query-IsAtomic (WorkspaceReads.list_for_user u) _ λ accesses. pure-IsAtomic _

pub get_workspace-IsAtomic : (u w : ℕ) → IsAtomic (WorkspaceService.get_workspace u w)
unfolding WorkspaceService.get_workspace
get_workspace-IsAtomic u w =
    query-IsAtomic (WorkspaceReads.get_for_user u w) _ λ access. fails-IsAtomic _

pub found-IsAtomic : (o : Option Project) → IsAtomic (ProjectService.found o)
found-IsAtomic none = fails-IsAtomic (err project_not_found)
found-IsAtomic (some p) = pure-IsAtomic p

pub get_project-IsAtomic : (u w i : ℕ) → IsAtomic (ProjectService.get_project u w i)
unfolding ProjectService.get_project
get_project-IsAtomic u w i =
    query-IsAtomic (ProjectReads.get_for_user u w i) _
      λ lookup. lift-IsAtomic (ProjectService.authorize_read lookup.context) _ λ u. found-IsAtomic _

pub get_connection-IsAtomic : (u w i : ℕ) → IsAtomic (ConnectionService.get_connection u w i)
unfolding ConnectionService.get_connection
get_connection-IsAtomic u w i =
    query-IsAtomic (ConnectionReads.get_for_user u w i) _
      λ lookup. lift-IsAtomic (authorize_read lookup.context) _ λ u. or_raise-IsAtomic _ _

-- What is missing is raised before the rest.
pub or_raise_bind-IsAtomic :
    {A B : Type 0} (e : Error) (o : Option A) (g : A → Tx B)
    → ((a : A) → IsAtomic (g a))
    → IsAtomic (or_raise e o >>= g)
or_raise_bind-IsAtomic e none g h = lift-IsAtomic (err e) g h
or_raise_bind-IsAtomic e (some a) g h = h a

pub get_draft-IsAtomic : (u w i : ℕ) → IsAtomic (ConnectionService.get_draft u w i)
unfolding ConnectionService.get_draft
get_draft-IsAtomic u w i = query-IsAtomic (ConnectionReads.get_draft_for_user u w i) _ λ lookup.
    or_raise_bind-IsAtomic connection_workspace_not_found lookup.context _
      λ context. lift-IsAtomic (authorize_authoring context) _ λ u. or_raise-IsAtomic _ _

pub list_revisions-IsAtomic :
    (u w i : ℕ) (before : Option ℤ) (limit : ℤ)
    → IsAtomic (ConnectionService.list_revisions u w i before limit)
unfolding ConnectionService.list_revisions
list_revisions-IsAtomic u w i before limit = lift-IsAtomic (validate_before_revision before) _ λ b.
    lift-IsAtomic (validate_connection_revision_page_limit limit) _ λ valid.
      query-IsAtomic (ConnectionReads.list_revisions_for_user u w i b valid) _ λ lookup.
        lift-IsAtomic (authorize_read_mutation_context lookup.context) _ λ u. pure-IsAtomic _

pub get_revision-IsAtomic : (u w i r : ℕ) → IsAtomic (ConnectionService.get_revision u w i r)
unfolding ConnectionService.get_revision
get_revision-IsAtomic u w i r =
    query-IsAtomic (ConnectionReads.get_revision_for_user u w i r) _ λ lookup.
      or_raise_bind-IsAtomic connection_workspace_not_found lookup.context _ λ context.
        lift-IsAtomic
          (if not (can_author_connections context.workspace.role)
            then err connection_permission_denied
            else ok tt)
          _ λ u. or_raise-IsAtomic _ _

-- The authentication of a caller writes nothing.
pub authenticate-rests :
    (verify : ℕ → Text → Result VerifiedAccessToken) (clock : ℕ) (token : Text) (db : Db)
    → (authenticate verify clock token db).1 ≡ db
unfolding authenticate
authenticate-rests verify clock token db =
    verified (verification_failed principal_authentication (verify clock token))
  where
    found :
        (r : Result (Option AuthenticatedPrincipal))
        → ((lift r >>= λ q. lift (require_principal q)) db).1 ≡ db
    found (ok q) = refl
    found (err e) = refl

    verified :
        (r : Result VerifiedAccessToken)
        → ((lift r >>= λ v. query (resolve_active_principal v) >>= λ q. lift (require_principal q))
            db).1
          ≡ db
    verified (ok v) = found (resolve_active_principal v db)
    verified (err e) = refl
