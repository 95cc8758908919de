-- ===== src/Tests.antt =====
-- A small control plane, on which the theorems are applied.
pub mod Requests
pub mod Orders
pub mod Listing
pub mod Authentication
pub mod Drafts
pub mod Answers
pub mod Projects
pub mod Problems
pub mod Workspaces
pub mod Workos
pub mod Routes
use bff.Prelude.{ℕ, Option, none, some, List, [], ◌∷◌}
use bff.Result.{Result, ok, err}
use bff.Text.{Text, codes}
use bff.Ids.{Draw}
use bff.Json.{JsonObject, str, field, end}
use bff.Json.{obj}
use bff.Json.Dumps.{dumps, encode}
use bff.Db.{
  UserRow, IdentityRow, SessionRow, RevisionRow, Db, WorkspaceRow, MembershipRow, ProjectRow,
  ConnectionRow, AccessRow, DraftRow,
}
use bff.Connections.Providers.{ConnectionProvider}
use bff.Connections.Service.{Platform}
use bff.Connections.Repository.Commands.{Caller}

abbrev pub workspace_row : WorkspaceRow
workspace_row = record {
  id = 1;
  name = codes "Shop";
  status = "ACTIVE";
  created_at = 1;
  updated_at = 1;
}

abbrev pub owner_row : MembershipRow
owner_row = record { id = 1; workspace_id = 1; user_id = 7; role = "OWNER"; ended_at = none }

abbrev pub builder_row : MembershipRow
builder_row = record { id = 2; workspace_id = 1; user_id = 8; role = "BUILDER"; ended_at = none }

abbrev pub project_row : ProjectRow
project_row = record {
  id = 20;
  workspace_id = 1;
  name = codes "Site";
  status = "ACTIVE";
  created_at = 1;
  updated_at = 1;
  archived_at = none;
}

abbrev pub draft_connection : ConnectionRow
draft_connection = record {
  id = 100;
  workspace_id = 1;
  name = codes "Orders";
  provider_key = codes "http";
  access_mode = "SELECTED_PROJECTS";
  status = "DRAFT";
  created_at = 2;
  updated_at = 2;
  archived_at = none;
}

abbrev pub active_connection : ConnectionRow
active_connection = record {
  id = 101;
  workspace_id = 1;
  name = codes "Stock";
  provider_key = codes "http";
  access_mode = "WORKSPACE";
  status = "ACTIVE";
  created_at = 3;
  updated_at = 3;
  archived_at = none;
}

abbrev pub configuration : JsonObject
configuration = field (codes "base_url") (str (codes "https://a.example")) end

abbrev pub draft_row : DraftRow
draft_row = record {
  connection_id = 100;
  workspace_id = 1;
  draft_json = configuration;
  updated_by_user_id = some 7;
  updated_at = 2;
}

abbrev pub revision_row : RevisionRow
revision_row = record {
  id = 500;
  workspace_id = 1;
  connection_id = 101;
  revision_number = 1;
  definition_schema_version = 1;
  config_json = configuration;
  config_hash = encode (dumps (obj configuration));
  created_by_user_id = some 7;
  created_at = 3;
}

abbrev pub user_row : UserRow
user_row = record {
  id = 7;
  email = codes "Ada@a.example";
  email_normalized = codes "ada@a.example";
  display_name = some (codes "Ada");
  status = "ACTIVE";
}

abbrev pub builder_user_row : UserRow
builder_user_row = record {
  id = 8;
  email = codes "bob@a.example";
  email_normalized = codes "bob@a.example";
  display_name = none;
  status = "ACTIVE";
}

abbrev pub identity_row : IdentityRow
identity_row = record {
  id = 30;
  user_id = 7;
  issuer = codes "iss";
  subject = codes "ada";
  status = "ACTIVE";
}

abbrev pub builder_identity_row : IdentityRow
builder_identity_row = record {
  id = 31;
  user_id = 8;
  issuer = codes "iss";
  subject = codes "bob";
  status = "ACTIVE";
}

abbrev pub session_row : SessionRow
session_row = record {
  id = 70;
  user_auth_identity_id = 30;
  provider_session_id = codes "s1";
  expires_at = 1000;
  revoked_at = none;
}

abbrev pub sample : Db
sample = record {
  now = 9;
  workspaces = workspace_row ∷ [];
  memberships = owner_row ∷ builder_row ∷ [];
  projects = project_row ∷ [];
  connections = draft_connection ∷ active_connection ∷ [];
  access =
      record {
        workspace_id = 1;
        connection_id = 100;
        project_id = 20;
        granted_at = 2;
        granted_by_user_id = some 7;
      }
      ∷ [];
  drafts = draft_row ∷ [];
  revisions = revision_row ∷ [];
  audit = [];
  platform_audit = [];
  users = user_row ∷ builder_user_row ∷ [];
  identities = identity_row ∷ builder_identity_row ∷ [];
  auth_sessions = session_row ∷ [];
}

abbrev pub http : ConnectionProvider
http = record { key = codes "http"; definition_schema_version = 1; canonicalize = λ c. ok c }

abbrev pub platform : Platform
platform = record {
  registry = record { providers = (http.key, http) ∷ [] };
  casefold = λ s. s;
  sha256 = λ bytes. bytes;
}

abbrev pub owner_caller : Caller
owner_caller = record {
  user_id = 7;
  auth_session_id = 70;
  workspace_id = 1;
  request_id = 71;
  trace_id = none;
}

abbrev pub builder_caller : Caller
builder_caller = record {
  user_id = 8;
  auth_session_id = 80;
  workspace_id = 1;
  request_id = 81;
  trace_id = none;
}

abbrev pub first_draw : Draw
first_draw = record { time_ns = 5_000_000; rand_a = 1; rand_b = 2 }

abbrev pub second_draw : Draw
second_draw = record { time_ns = 6_000_000; rand_a = 1; rand_b = 2 }
