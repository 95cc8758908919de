-- ===== src/Routes/ConnectionHandlers.antt =====
-- The handlers of api/routes/v1/connections.py, but for that of the list.
use bff.Prelude.{if◌then◌else◌, ℕ, ℤ, pos, ltb_ℤ, Option, none, some, List, [], ◌∷◌, map, ◌++◌}
use bff.Text.{Text, codes}
use bff.Ids.{Draw, uuid_str}
use bff.Json.{JsonObject}
use bff.Authentication.Models.{AuthenticatedPrincipal}
use bff.Problems.Pointer.{name}
use bff.Problems.Handlers.{RequestError, part}
use bff.Problems.Responses.{RequestContext, require_request_context}
use bff.Connections.Models.{ConnectionLifecycleAction}
use bff.Connections.Policies.{
  normalize_connection_name, max_connection_name_length, max_connection_revision_page_limit,
}
use bff.Connections.Service
use bff.Connections.Service.{Platform}
use bff.Routes.Projects.{caller}
use bff.Routes.Connections.{
  ConnectionAccessRequest, CreateConnectionRequest, checked_access, checked_creation,
  ConnectionResponse, ConnectionDraftResponse, ConnectionRevisionResponse,
  ConnectionRevisionListResponse, connection_response, draft_response, revision_response,
  revision_metadata_response,
}
use bff.Routes.Handling.{
  Outcome, Handler, outcome, service, fail, checked, checked_text, Checked, accepted, rejected,
  both, ◌>>=◌, Reply, reply, created,
}

abbrev pub query_error : Text → Text → List RequestError
query_error parameter kind =
    record { loc = part (name (codes "query")) ∷ part (name parameter) ∷ []; error_type = kind }
    ∷ []

-- `Query(ge=1, le=...)`
unfoldable pub checked_limit : ℤ → ℤ → Checked ℤ
checked_limit max_limit limit =
    if ltb_ℤ limit (pos 1)
    then rejected (query_error (codes "limit") (codes "greater_than_equal"))
    else if ltb_ℤ max_limit limit
    then rejected (query_error (codes "limit") (codes "less_than_equal"))
    else accepted limit

-- `Query(ge=1)`, which may be absent
unfoldable pub checked_before : Option ℤ → Checked (Option ℤ)
checked_before none = accepted none
checked_before (some before) =
    if ltb_ℤ before (pos 1)
    then rejected (query_error (codes "before_revision") (codes "greater_than_equal"))
    else accepted (some before)

abbrev pub connections_path : ℕ → ℕ → Text
connections_path workspace_id connection_id =
    codes "/v1/workspaces/"
    ++ (uuid_str workspace_id ++ (codes "/connections/" ++ uuid_str connection_id))

module _ (p : Platform) (request : Option RequestContext) (principal : AuthenticatedPrincipal)
    (workspace_id : ℕ) where
  unfoldable pub create_connection :
      Draw → Draw → CreateConnectionRequest → Handler (Reply ConnectionResponse)
  create_connection draw audit_draw payload = do
    valid ← fail (checked (checked_creation p.casefold payload))
    context ← fail (outcome (require_request_context request))
    connection ← service (
        Service.create_connection p (caller principal context workspace_id) draw audit_draw
          valid.0.0 valid.0.1 valid.1)
    fail (
        Outcome.returned (
          created (connections_path workspace_id connection.connection_id)
            (connection_response connection)))

  unfoldable pub put_connection_draft : ℕ → JsonObject → Handler (Reply ConnectionDraftResponse)
  put_connection_draft connection_id configuration = do
    draft ← service (Service.put_draft p principal.user_id workspace_id connection_id configuration)
    fail (Outcome.returned (reply (draft_response draft)))

  unfoldable pub publish_connection_revision :
      Draw → Draw → ℕ → Handler (Reply ConnectionRevisionResponse)
  publish_connection_revision draw audit_draw connection_id = do
    context ← fail (outcome (require_request_context request))
    revision ← service (
        Service.publish_revision p (caller principal context workspace_id) draw audit_draw
          connection_id)
    fail (
        Outcome.returned (
          created
            (connections_path workspace_id connection_id
              ++ (codes "/revisions/" ++ uuid_str revision.metadata.revision_id))
            (revision_response revision)))

module _ (request : Option RequestContext) (principal : AuthenticatedPrincipal) (workspace_id : ℕ)
    (connection_id : ℕ) where
  unfoldable pub lifecycle_action :
      Draw → ConnectionLifecycleAction → Handler (Reply ConnectionResponse)
  lifecycle_action audit_draw action = do
    context ← fail (outcome (require_request_context request))
    connection ← service (
        Service.transition_lifecycle (caller principal context workspace_id) audit_draw
          connection_id action)
    fail (Outcome.returned (reply (connection_response connection)))

  unfoldable pub rename_connection : Draw → Text → Handler (Reply ConnectionResponse)
  rename_connection audit_draw payload_name = do
    valid_name ← fail (
        checked (
          checked_text (codes "name") max_connection_name_length normalize_connection_name
            payload_name))
    context ← fail (outcome (require_request_context request))
    connection ← service (
        Service.rename_connection (caller principal context workspace_id) audit_draw connection_id
          valid_name)
    fail (Outcome.returned (reply (connection_response connection)))

  unfoldable pub replace_connection_access :
      Draw → ConnectionAccessRequest → Handler (Reply ConnectionResponse)
  replace_connection_access audit_draw payload = do
    policy ← fail (checked (checked_access [] payload))
    context ← fail (outcome (require_request_context request))
    connection ← service (
        Service.replace_access (caller principal context workspace_id) audit_draw connection_id
          policy)
    fail (Outcome.returned (reply (connection_response connection)))

module _ (principal : AuthenticatedPrincipal) (workspace_id : ℕ) (connection_id : ℕ) where
  unfoldable pub get_connection : Handler (Reply ConnectionResponse)
  get_connection = do
    connection ← service (Service.get_connection principal.user_id workspace_id connection_id)
    fail (Outcome.returned (reply (connection_response connection)))

  unfoldable pub get_connection_draft : Handler (Reply ConnectionDraftResponse)
  get_connection_draft = do
    draft ← service (Service.get_draft principal.user_id workspace_id connection_id)
    fail (Outcome.returned (reply (draft_response draft)))

  unfoldable pub list_connection_revisions :
      Option ℤ → ℤ → Handler (Reply ConnectionRevisionListResponse)
  list_connection_revisions before_revision limit = do
    valid ← fail (
        checked (
          both (checked_before before_revision)
            (checked_limit (pos max_connection_revision_page_limit) limit)))
    revisions ←
        service
          (Service.list_revisions principal.user_id workspace_id connection_id valid.0 valid.1)
    fail (
        Outcome.returned (
          reply (record {
            items = map revision_metadata_response revisions.items;
            next_before_revision = revisions.next_before_revision;
          })))

  unfoldable pub get_connection_revision : ℕ → Handler (Reply ConnectionRevisionResponse)
  get_connection_revision revision_id = do
    revision ←
        service (Service.get_revision principal.user_id workspace_id connection_id revision_id)
    fail (Outcome.returned (reply (revision_response revision)))
