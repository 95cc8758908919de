-- ===== src/Connections/Models.antt =====
-- domains/connections/models.py
use bff.Prelude.{ℕ, Option, List}
use bff.Text.{Text}
use bff.Json.{JsonObject}

pub data ConnectionStatus : Type 0 where
  draft active disabled archived : ConnectionStatus

pub data ConnectionAccessMode : Type 0 where
  workspace selected_projects : ConnectionAccessMode

pub data ConnectionAuthorizationRole : Type 0 where
  owner admin builder viewer : ConnectionAuthorizationRole

pub data ConnectionWorkspaceStatus : Type 0 where
  active suspended archived pending_deletion : ConnectionWorkspaceStatus

pub data ConnectionLifecycleAction : Type 0 where
  disable enable archive : ConnectionLifecycleAction

pub record ConnectionWorkspaceContext : Type 0 where
  pub workspace_id : ℕ
  pub status : ConnectionWorkspaceStatus
  pub role : ConnectionAuthorizationRole

pub record ConnectionMutationContext : Type 0 where
  pub workspace : ConnectionWorkspaceContext
  pub connection_id : ℕ
  pub provider_key : Text
  pub access_mode : ConnectionAccessMode
  pub status : ConnectionStatus

pub record ConnectionAccessPolicy : Type 0 where
  pub mode : ConnectionAccessMode
  pub project_ids : List ℕ

pub record Connection : Type 0 where
  pub connection_id : ℕ
  pub workspace_id : ℕ
  pub name : Text
  pub provider_key : Text
  pub access_policy : ConnectionAccessPolicy
  pub status : ConnectionStatus
  pub created_at : ℕ
  pub updated_at : ℕ
  pub archived_at : Option ℕ

pub record ConnectionDraft : Type 0 where
  pub connection_id : ℕ
  pub workspace_id : ℕ
  pub configuration : JsonObject
  pub updated_by_user_id : Option ℕ
  pub updated_at : ℕ

pub record PublishedConnectionConfiguration : Type 0 where
  pub definition_schema_version : ℕ
  pub configuration : JsonObject
  pub config_hash : List ℕ

pub record ConnectionRevisionMetadata : Type 0 where
  pub revision_id : ℕ
  pub connection_id : ℕ
  pub workspace_id : ℕ
  pub revision_number : ℕ
  pub definition_schema_version : ℕ
  pub config_hash_hex : Text
  pub created_by_user_id : Option ℕ
  pub created_at : ℕ

pub record ConnectionRevision : Type 0 where
  pub metadata : ConnectionRevisionMetadata
  pub configuration : JsonObject

pub record ConnectionPageCursor : Type 0 where
  pub created_at : ℕ
  pub connection_id : ℕ

pub record ConnectionPage : Type 0 where
  pub items : List Connection
  pub next_cursor : Option ConnectionPageCursor

pub record ConnectionPageLookup : Type 0 where
  pub context : Option ConnectionWorkspaceContext
  pub page : ConnectionPage

pub record ConnectionLookup : Type 0 where
  pub context : Option ConnectionWorkspaceContext
  pub connection : Option Connection

pub record ConnectionDraftLookup : Type 0 where
  pub context : Option ConnectionMutationContext
  pub draft : Option ConnectionDraft

pub record ConnectionRevisionPage : Type 0 where
  pub items : List ConnectionRevisionMetadata
  pub next_before_revision : Option ℕ

pub record ConnectionRevisionPageLookup : Type 0 where
  pub context : Option ConnectionMutationContext
  pub page : ConnectionRevisionPage

pub record ConnectionRevisionLookup : Type 0 where
  pub context : Option ConnectionMutationContext
  pub revision : Option ConnectionRevision
