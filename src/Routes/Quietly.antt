-- ===== src/Routes/Quietly.antt =====
-- The handlers of api/routes/v1 as quiet computations.
use bff.Prelude.{Option}
use bff.Db.{Tx}
use bff.Db.Rules.{IsAtomic}
use bff.Authentication.Models.{AuthenticatedPrincipal}
use bff.Connections.Service.{Platform}
use bff.Connections.Requests.Atomic.{
  create-IsAtomic, rename-IsAtomic, put_draft-IsAtomic, publish-IsAtomic, replace-IsAtomic,
  transition-IsAtomic,
}
use bff.Problems.Responses.{RequestContext, require_request_context}
use bff.Routes.Handling.{Handler, service, fail, returned, ◌>>=◌, Reply}
use bff.Routes.Quiet.{
  IsQuiet, service-IsQuiet, return-IsQuiet, returned-IsQuiet, checked-IsQuiet, outcome-IsQuiet,
}
use bff.Routes.Reads.{
  list_workspaces-IsAtomic, get_workspace-IsAtomic, get_project-IsAtomic, get_connection-IsAtomic,
  get_draft-IsAtomic, list_revisions-IsAtomic, get_revision-IsAtomic,
}
use bff.Routes.Calls.{Call, Body, as_body, replying, route}
use bff.Routes.Accounts
use bff.Routes.Workspaces
use bff.Routes.Projects
use bff.Routes.ConnectionHandlers
use bff.Workspaces.Creation.{create_workspace-IsAtomic}
use bff.Projects.Creation.{create_project-rolls_back}

-- A service's method, whose result is mapped to a body
answer-IsQuiet :
    {A B : Type 0} (m : Tx A) (f : A → B)
    → IsAtomic m
    → IsQuiet (service m >>= λ a. fail (returned (f a)))
answer-IsQuiet m f atomic = return-IsQuiet (service m) f (service-IsQuiet m atomic)

module _ (p : Platform) (request : Option RequestContext) (k : AuthenticatedPrincipal) where
  replying-IsQuiet :
      {B : Type 0} (f : B → Body) (m : Handler (Reply B)) → IsQuiet m → IsQuiet (replying f m)
  replying-IsQuiet f m h = return-IsQuiet m (as_body f) h

  pub route-IsQuiet : (call : Call) → IsQuiet (route p request call k)
  unfolding route Accounts.get_me Workspaces.create_workspace Workspaces.list_workspaces
      Workspaces.get_workspace Projects.create_project Projects.get_project
      ConnectionHandlers.create_connection ConnectionHandlers.get_connection
      ConnectionHandlers.rename_connection ConnectionHandlers.lifecycle_action
      ConnectionHandlers.get_connection_draft ConnectionHandlers.put_connection_draft
      ConnectionHandlers.list_connection_revisions ConnectionHandlers.publish_connection_revision
      ConnectionHandlers.get_connection_revision ConnectionHandlers.replace_connection_access
  route-IsQuiet Call.get_me = returned-IsQuiet _
  route-IsQuiet (Call.create_workspace a b c name) =
      replying-IsQuiet Body.workspace (Workspaces.create_workspace a b c name request k) (
        checked-IsQuiet _ _ λ n.
          outcome-IsQuiet (require_request_context request) _
            λ context. answer-IsQuiet _ _ (create_workspace-IsAtomic a b c _ _ n _ _))
  route-IsQuiet Call.list_workspaces =
      replying-IsQuiet Body.workspaces (Workspaces.list_workspaces k)
        (answer-IsQuiet _ _ (list_workspaces-IsAtomic _))
  route-IsQuiet (Call.get_workspace w) =
      replying-IsQuiet Body.workspace (Workspaces.get_workspace w k)
        (answer-IsQuiet _ _ (get_workspace-IsAtomic _ _))
  route-IsQuiet (Call.create_project a b w name) =
      replying-IsQuiet Body.project (Projects.create_project a b w name request k) (
        checked-IsQuiet _ _ λ n. outcome-IsQuiet (require_request_context request) _ λ context.
          answer-IsQuiet _ _
            (record { rolls_back = create_project-rolls_back (Projects.caller k context w) a b n }))
  route-IsQuiet (Call.get_project w i) =
      replying-IsQuiet Body.project (Projects.get_project w i k)
        (answer-IsQuiet _ _ (get_project-IsAtomic _ _ _))
  route-IsQuiet (Call.create_connection a b w payload) =
      replying-IsQuiet Body.connection
        (ConnectionHandlers.create_connection p request k w a b payload)
        (checked-IsQuiet _ _ λ v.
          outcome-IsQuiet (require_request_context request) _
            λ context. answer-IsQuiet _ _ (create-IsAtomic p _ a b _ _ _))
  route-IsQuiet (Call.get_connection w i) =
      replying-IsQuiet Body.connection (ConnectionHandlers.get_connection k w i)
        (answer-IsQuiet _ _ (get_connection-IsAtomic _ _ _))
  route-IsQuiet (Call.rename_connection a w i name) =
      replying-IsQuiet Body.connection (ConnectionHandlers.rename_connection request k w i a name) (
        checked-IsQuiet _ _ λ n.
          outcome-IsQuiet (require_request_context request) _
            λ context. answer-IsQuiet _ _ (rename-IsAtomic _ a i n))
  route-IsQuiet (Call.lifecycle_action a w i action) =
      replying-IsQuiet Body.connection (ConnectionHandlers.lifecycle_action request k w i a action)
        (outcome-IsQuiet (require_request_context request) _
          λ context. answer-IsQuiet _ _ (transition-IsAtomic _ a i action))
  route-IsQuiet (Call.get_draft w i) =
      replying-IsQuiet Body.draft (ConnectionHandlers.get_connection_draft k w i)
        (answer-IsQuiet _ _ (get_draft-IsAtomic _ _ _))
  route-IsQuiet (Call.put_draft w i configuration) =
      replying-IsQuiet Body.draft
        (ConnectionHandlers.put_connection_draft p request k w i configuration)
        (answer-IsQuiet _ _ (put_draft-IsAtomic p _ _ _ _))
  route-IsQuiet (Call.list_revisions w i before limit) =
      replying-IsQuiet Body.revisions
        (ConnectionHandlers.list_connection_revisions k w i before limit)
        (checked-IsQuiet _ _ λ v. answer-IsQuiet _ _ (list_revisions-IsAtomic _ _ _ _ _))
  route-IsQuiet (Call.publish_revision a b w i) =
      replying-IsQuiet Body.revision
        (ConnectionHandlers.publish_connection_revision p request k w a b i)
        (outcome-IsQuiet (require_request_context request) _
          λ context. answer-IsQuiet _ _ (publish-IsAtomic p _ a b i))
  route-IsQuiet (Call.get_revision w i r) =
      replying-IsQuiet Body.revision (ConnectionHandlers.get_connection_revision k w i r)
        (answer-IsQuiet _ _ (get_revision-IsAtomic _ _ _ _))
  route-IsQuiet (Call.replace_access a w i payload) =
      replying-IsQuiet Body.connection
        (ConnectionHandlers.replace_connection_access request k w i a payload)
        (checked-IsQuiet _ _ λ v.
          outcome-IsQuiet (require_request_context request) _
            λ context. answer-IsQuiet _ _ (replace-IsAtomic _ a i v))
