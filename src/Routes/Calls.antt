-- ===== src/Routes/Calls.antt =====
-- The calls of the API that an authenticated caller makes, but for the two lists with cursors, and
-- how they are answered.
use bff.Prelude.{ℕ, ℤ, Option, List}
use bff.Result.{Result}
use bff.Text.{Text}
use bff.Ids.{Draw}
use bff.Json.{JsonObject}
use bff.Authentication.Models.{VerifiedAccessToken, AuthenticatedPrincipal}
use bff.Connections.Models.{ConnectionLifecycleAction}
use bff.Connections.Service.{Platform}
use bff.Problems.Responses.{RequestContext}
use bff.Routes.Handling.{
  Handler, fail, returned, ◌>>=◌, Reply, Credentials, require_authenticated_principal,
}
use bff.Routes.Accounts
use bff.Routes.Accounts.{UserResponse}
use bff.Routes.Workspaces
use bff.Routes.Workspaces.{WorkspaceResponse}
use bff.Routes.Projects
use bff.Routes.Projects.{ProjectResponse}
use bff.Routes.Connections.{
  ConnectionAccessRequest, CreateConnectionRequest, ConnectionResponse, ConnectionDraftResponse,
  ConnectionRevisionResponse, ConnectionRevisionListResponse,
}
use bff.Routes.ConnectionHandlers

-- A call, with its path, query and payload, and with the values that `uuid7` will draw.
pub data Call : Type 0 where
  get_me : Call
  create_workspace : Draw → Draw → Draw → Text → Call
  list_workspaces : Call
  get_workspace : ℕ → Call
  create_project : Draw → Draw → ℕ → Text → Call
  get_project : ℕ → ℕ → Call
  create_connection : Draw → Draw → ℕ → CreateConnectionRequest → Call
  get_connection : ℕ → ℕ → Call
  rename_connection : Draw → ℕ → ℕ → Text → Call
  lifecycle_action : Draw → ℕ → ℕ → ConnectionLifecycleAction → Call
  get_draft : ℕ → ℕ → Call
  put_draft : ℕ → ℕ → JsonObject → Call
  list_revisions : ℕ → ℕ → Option ℤ → ℤ → Call
  publish_revision : Draw → Draw → ℕ → ℕ → Call
  get_revision : ℕ → ℕ → ℕ → Call
  replace_access : Draw → ℕ → ℕ → ConnectionAccessRequest → Call

pub data Body : Type 0 where
  user : UserResponse → Body
  workspace : WorkspaceResponse → Body
  workspaces : List WorkspaceResponse → Body
  project : ProjectResponse → Body
  connection : ConnectionResponse → Body
  draft : ConnectionDraftResponse → Body
  revision : ConnectionRevisionResponse → Body
  revisions : ConnectionRevisionListResponse → Body

-- A reply, whose body is of one of the models
abbrev pub as_body : {B : Type 0} → (B → Body) → Reply B → Reply Body
as_body f r = record { status_code = r.status_code; headers = r.headers; body = f r.body }

abbrev pub replying : {B : Type 0} → (B → Body) → Handler (Reply B) → Handler (Reply Body)
replying f m = m >>= λ r. fail (returned (as_body f r))

module _ (p : Platform) (request : Option RequestContext) where
  unfoldable pub route : Call → AuthenticatedPrincipal → Handler (Reply Body)
  route get_me k = replying user (Accounts.get_me k)
  route (create_workspace a b c name) k =
      replying workspace (Workspaces.create_workspace a b c name request k)
  route list_workspaces k = replying workspaces (Workspaces.list_workspaces k)
  route (get_workspace w) k = replying workspace (Workspaces.get_workspace w k)
  route (create_project a b w name) k =
      replying project (Projects.create_project a b w name request k)
  route (get_project w i) k = replying project (Projects.get_project w i k)
  route (create_connection a b w payload) k =
      replying connection (ConnectionHandlers.create_connection p request k w a b payload)
  route (get_connection w i) k = replying connection (ConnectionHandlers.get_connection k w i)
  route (rename_connection a w i name) k =
      replying connection (ConnectionHandlers.rename_connection request k w i a name)
  route (lifecycle_action a w i action) k =
      replying connection (ConnectionHandlers.lifecycle_action request k w i a action)
  route (get_draft w i) k = replying draft (ConnectionHandlers.get_connection_draft k w i)
  route (put_draft w i configuration) k =
      replying draft (ConnectionHandlers.put_connection_draft p request k w i configuration)
  route (list_revisions w i before limit) k =
      replying revisions (ConnectionHandlers.list_connection_revisions k w i before limit)
  route (publish_revision a b w i) k =
      replying revision (ConnectionHandlers.publish_connection_revision p request k w a b i)
  route (get_revision w i r) k =
      replying revision (ConnectionHandlers.get_connection_revision k w i r)
  route (replace_access a w i payload) k =
      replying connection (ConnectionHandlers.replace_connection_access request k w i a payload)

  unfoldable pub serve :
      (ℕ → Text → Result VerifiedAccessToken) → ℕ → Option Credentials → Call → Handler (Reply Body)
  serve verify clock credentials call = do
    principal ← require_authenticated_principal p.casefold verify clock credentials
    route call principal
