-- ===== src/Connections/Service.antt =====
-- domains/connections/service.py: `ConnectionService` over the SQLAlchemy repository. The
-- authorizers are in `Authorize`, and what is proved of the methods in the other children.
pub mod Authorize
use bff.Prelude.{ℕ, ℤ, not, Option, none, some, List, if◌then◌else◌}
use bff.Result.{
  Error, Result, ok, err, connection_workspace_not_found, connection_not_found,
  connection_permission_denied, connection_state_conflict, connection_configuration_invalid,
  provider_configuration,
}
use bff.Text.{Text}
use bff.Ids.{Draw}
use bff.Json.{JsonObject}
use bff.Db.{Db, Tx, lift, query, ◌>>=◌, ◌>>◌, pure}
use bff.Connections.Models.{
  Connection, ConnectionAccessPolicy, ConnectionDraft, ConnectionLifecycleAction,
  ConnectionMutationContext, ConnectionPage, ConnectionPageCursor, ConnectionRevision,
  ConnectionRevisionPage, PublishedConnectionConfiguration,
}
use bff.Connections.Policies
use bff.Connections.Policies.{
  normalize_connection_name, normalize_provider_key, normalize_access_policy,
  normalize_draft_configuration, validate_connection_page_limit,
  validate_connection_revision_page_limit, validate_before_revision, can_author_connections,
}
use bff.Connections.Providers.{ConnectionProviderRegistry, require, publish, compile_draft}
use bff.Connections.Service.Authorize.{
  authorize_read, authorize_read_mutation_context, authorize_creation, authorize_authoring,
  authorize_access, authorize_lifecycle,
}
use bff.Connections.Repository.Reads
use bff.Connections.Repository.Commands
use bff.Connections.Repository.Commands.{Caller}

-- `except ProviderConfigurationError as exc: raise ConnectionConfigurationInvalidError`
abbrev pub wrapped : Error → Error
wrapped provider_configuration = connection_configuration_invalid
wrapped e = e

abbrev pub wrap_provider_error {ℓ} : {A : Type ℓ} → Result A → Result A
wrap_provider_error (ok a) = ok a
wrap_provider_error (err e) = err (wrapped e)

-- `self._providers`, and the two library functions that the policies and the registry call.
pub record Platform : Type 0 where
  pub registry : ConnectionProviderRegistry
  pub casefold : Text → Text
  pub sha256 : List ℕ → List ℕ

abbrev pub or_raise : {A : Type 0} → Error → Option A → Tx A
or_raise e none = lift (err e)
or_raise e (some a) = pure a

module _ (p : Platform) where
  -- `_compile_publication`
  abbrev pub compile_publication :
      ConnectionMutationContext → JsonObject → Result PublishedConnectionConfiguration
  compile_publication context configuration =
      wrap_provider_error (publish p.sha256 p.registry context.provider_key configuration)

  -- `_compile_draft`
  abbrev pub compile_draft_configuration :
      ConnectionMutationContext → JsonObject → Result JsonObject
  compile_draft_configuration context configuration =
      wrap_provider_error (compile_draft p.registry context.provider_key configuration)

  unfoldable pub create_connection :
      Caller → Draw → Draw → Text → Text → ConnectionAccessPolicy → Tx Connection
  create_connection k draw audit_draw name provider_key access_policy = do
    normalized_name ← lift (normalize_connection_name name)
    normalized_provider ← lift (normalize_provider_key p.casefold provider_key)
    normalized_access ← lift (normalize_access_policy access_policy.mode access_policy.project_ids)
    provider ← lift (wrap_provider_error (require p.registry normalized_provider))
    Commands.create_connection k draw audit_draw normalized_name normalized_provider
        normalized_access (λ context. authorize_creation context normalized_access)

  unfoldable pub put_draft : ℕ → ℕ → ℕ → JsonObject → Tx ConnectionDraft
  put_draft user_id workspace_id connection_id configuration =
      Commands.put_draft user_id workspace_id connection_id
        (normalize_draft_configuration configuration) authorize_authoring
        compile_draft_configuration

  unfoldable pub publish_revision : Caller → Draw → Draw → ℕ → Tx ConnectionRevision
  publish_revision k draw audit_draw connection_id =
      Commands.publish_revision k connection_id audit_draw authorize_authoring draw
        compile_publication

unfoldable pub rename_connection : Caller → Draw → ℕ → Text → Tx Connection
rename_connection k audit_draw connection_id name = do
  normalized ← lift (normalize_connection_name name)
  Commands.rename_connection k connection_id audit_draw authorize_authoring normalized

unfoldable pub replace_access : Caller → Draw → ℕ → ConnectionAccessPolicy → Tx Connection
replace_access k audit_draw connection_id access_policy = do
  normalized ← lift (normalize_access_policy access_policy.mode access_policy.project_ids)
  Commands.replace_access k connection_id audit_draw
      (λ context. authorize_access context normalized) normalized

unfoldable pub transition_lifecycle : Caller → Draw → ℕ → ConnectionLifecycleAction → Tx Connection
transition_lifecycle k audit_draw connection_id action =
    Commands.transition_lifecycle k connection_id audit_draw
      (λ context. authorize_lifecycle context action) action

unfoldable pub list_connections : ℕ → ℕ → Option ConnectionPageCursor → ℤ → Tx ConnectionPage
list_connections user_id workspace_id cursor limit = do
  valid ← lift (validate_connection_page_limit limit)
  lookup ← query (Reads.list_for_user user_id workspace_id cursor valid)
  lift (authorize_read lookup.context)
  pure lookup.page

unfoldable pub get_connection : ℕ → ℕ → ℕ → Tx Connection
get_connection user_id workspace_id connection_id = do
  lookup ← query (Reads.get_for_user user_id workspace_id connection_id)
  lift (authorize_read lookup.context)
  or_raise connection_not_found lookup.connection

unfoldable pub get_draft : ℕ → ℕ → ℕ → Tx ConnectionDraft
get_draft user_id workspace_id connection_id = do
  lookup ← query (Reads.get_draft_for_user user_id workspace_id connection_id)
  context ← or_raise connection_workspace_not_found lookup.context
  lift (authorize_authoring context)
  or_raise connection_state_conflict lookup.draft

unfoldable pub list_revisions : ℕ → ℕ → ℕ → Option ℤ → ℤ → Tx ConnectionRevisionPage
list_revisions user_id workspace_id connection_id before_revision limit = do
  before ← lift (validate_before_revision before_revision)
  valid ← lift (validate_connection_revision_page_limit limit)
  lookup ← query (Reads.list_revisions_for_user user_id workspace_id connection_id before valid)
  lift (authorize_read_mutation_context lookup.context)
  pure lookup.page

unfoldable pub get_revision : ℕ → ℕ → ℕ → ℕ → Tx ConnectionRevision
get_revision user_id workspace_id connection_id revision_id = do
  lookup ← query (Reads.get_revision_for_user user_id workspace_id connection_id revision_id)
  context ← or_raise connection_workspace_not_found lookup.context
  lift (
      if not (can_author_connections context.workspace.role)
      then err connection_permission_denied
      else ok tt)
  or_raise connection_not_found lookup.revision
