-- ===== src/Routes/Connections.antt =====
-- api/routes/v1/connections.py, but for the list and its cursors.
use bff.Prelude.{length, ltb, if◌then◌else◌, ℕ, Option, List, [], ◌∷◌, ◌++◌}
use bff.Text.{Text, codes}
use bff.Json.{JsonObject}
use bff.Routes.Handling.{checked_text}
use bff.Connections.Models.{
  Connection, ConnectionAccessMode, ConnectionAccessPolicy, ConnectionDraft, ConnectionRevision,
  ConnectionRevisionMetadata, ConnectionStatus,
}
use bff.Connections.Policies.{
  normalize_connection_name, normalize_provider_key, normalize_access_policy,
  max_connection_name_length, max_selected_projects,
}
use bff.Routes.Handling.{Checked, rejected, both, validator, body_error}

pub record ConnectionAccessRequest : Type 0 where
  pub mode : ConnectionAccessMode
  pub project_ids : List ℕ

pub record CreateConnectionRequest : Type 0 where
  pub name : Text
  pub provider_key : Text
  pub access : ConnectionAccessRequest

abbrev pub max_provider_key_length : ℕ
max_provider_key_length = 64

-- `ConnectionAccessRequest.validate_policy`, after the limit of the list; `to_domain` answers what the
-- validator has computed. The model stands at `fields` of the body.
unfoldable pub checked_access : List Text → ConnectionAccessRequest → Checked ConnectionAccessPolicy
checked_access fields access =
    if ltb max_selected_projects (length access.project_ids)
    then rejected (body_error (fields ++ codes "project_ids" ∷ []) (codes "too_long"))
    else validator fields (normalize_access_policy access.mode access.project_ids)

-- `CreateConnectionRequest`
unfoldable pub checked_creation :
    (Text → Text) → CreateConnectionRequest → Checked ((Text × Text) × ConnectionAccessPolicy)
checked_creation casefold payload =
    both
      (both
        (checked_text (codes "name") max_connection_name_length normalize_connection_name
          payload.name)
        (checked_text (codes "provider_key") max_provider_key_length
          (normalize_provider_key casefold) payload.provider_key))
      (checked_access (codes "access" ∷ []) payload.access)

pub record ConnectionAccessResponse : Type 0 where
  pub mode : ConnectionAccessMode
  pub project_ids : List ℕ

pub record ConnectionResponse : Type 0 where
  pub id : ℕ
  pub workspace_id : ℕ
  pub name : Text
  pub provider_key : Text
  pub access : ConnectionAccessResponse
  pub status : ConnectionStatus
  pub created_at : ℕ
  pub updated_at : ℕ
  pub archived_at : Option ℕ

pub record ConnectionDraftResponse : Type 0 where
  pub connection_id : ℕ
  pub workspace_id : ℕ
  pub configuration : JsonObject
  pub updated_by_user_id : Option ℕ
  pub updated_at : ℕ

pub record ConnectionRevisionMetadataResponse : Type 0 where
  pub id : ℕ
  pub connection_id : ℕ
  pub workspace_id : ℕ
  pub revision_number : ℕ
  pub definition_schema_version : ℕ
  pub config_hash : Text
  pub created_by_user_id : Option ℕ
  pub created_at : ℕ

pub record ConnectionRevisionResponse : Type 0 where
  pub metadata : ConnectionRevisionMetadataResponse
  pub configuration : JsonObject

pub record ConnectionRevisionListResponse : Type 0 where
  pub items : List ConnectionRevisionMetadataResponse
  pub next_before_revision : Option ℕ

abbrev pub connection_response : Connection → ConnectionResponse
connection_response connection = record {
  id = connection.connection_id;
  workspace_id = connection.workspace_id;
  name = connection.name;
  provider_key = connection.provider_key;
  access = record {
    mode = connection.access_policy.mode;
    project_ids = connection.access_policy.project_ids;
  };
  status = connection.status;
  created_at = connection.created_at;
  updated_at = connection.updated_at;
  archived_at = connection.archived_at;
}

abbrev pub draft_response : ConnectionDraft → ConnectionDraftResponse
draft_response draft = record {
  connection_id = draft.connection_id;
  workspace_id = draft.workspace_id;
  configuration = draft.configuration;
  updated_by_user_id = draft.updated_by_user_id;
  updated_at = draft.updated_at;
}

abbrev pub revision_metadata_response :
    ConnectionRevisionMetadata → ConnectionRevisionMetadataResponse
revision_metadata_response revision = record {
  id = revision.revision_id;
  connection_id = revision.connection_id;
  workspace_id = revision.workspace_id;
  revision_number = revision.revision_number;
  definition_schema_version = revision.definition_schema_version;
  config_hash = revision.config_hash_hex;
  created_by_user_id = revision.created_by_user_id;
  created_at = revision.created_at;
}

-- The fields of the metadata, which the class inherits, and the configuration
abbrev pub revision_response : ConnectionRevision → ConnectionRevisionResponse
revision_response revision = record {
  metadata = revision_metadata_response revision.metadata;
  configuration = revision.configuration;
}
