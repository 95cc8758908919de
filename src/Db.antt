-- ===== src/Db.antt =====
-- The tables of the control-plane schema (apps/control-api/migrations/sql) that the modelled
-- repositories read and write, and the transactions of infrastructure/db/database.py. A column has
-- the type that the driver returns for it; a column under CHECK (... IN ...) holds its text.
pub mod Rules
use bff.Prelude.{
  ℕ, ◌+◌, String, Bool, true, false, Option, none, some, List, if◌then◌else◌, any, ◌==◌, ◌||◌,
}
use bff.Result.{Error, Result, ok, err}
use bff.Text.{Text}
use bff.Json.{JsonObject}

pub record WorkspaceRow : Type 0 where
  pub id : ℕ
  pub name : Text
  pub status : String
  pub created_at : ℕ
  pub updated_at : ℕ

pub record MembershipRow : Type 0 where
  pub id : ℕ
  pub workspace_id : ℕ
  pub user_id : ℕ
  pub role : String
  pub ended_at : Option ℕ

pub record ProjectRow : Type 0 where
  pub id : ℕ
  pub workspace_id : ℕ
  pub name : Text
  pub status : String
  pub created_at : ℕ
  pub updated_at : ℕ
  pub archived_at : Option ℕ

pub record ConnectionRow : Type 0 where
  pub id : ℕ
  pub workspace_id : ℕ
  pub name : Text
  pub provider_key : Text
  pub access_mode : String
  pub status : String
  pub created_at : ℕ
  pub updated_at : ℕ
  pub archived_at : Option ℕ

pub record AccessRow : Type 0 where
  pub workspace_id : ℕ
  pub connection_id : ℕ
  pub project_id : ℕ
  pub granted_at : ℕ
  pub granted_by_user_id : Option ℕ

pub record DraftRow : Type 0 where
  pub connection_id : ℕ
  pub workspace_id : ℕ
  pub draft_json : JsonObject
  pub updated_by_user_id : Option ℕ
  pub updated_at : ℕ

pub record RevisionRow : Type 0 where
  pub id : ℕ
  pub workspace_id : ℕ
  pub connection_id : ℕ
  pub revision_number : ℕ
  pub definition_schema_version : ℕ
  pub config_json : JsonObject
  pub config_hash : List ℕ
  pub created_by_user_id : Option ℕ
  pub created_at : ℕ

pub record AuditRow : Type 0 where
  pub id : ℕ
  pub workspace_id : ℕ
  pub project_id : Option ℕ
  pub actor_user_id : ℕ
  pub actor_role_snapshot : String
  pub action : String
  pub resource_type : String
  pub resource_id : ℕ
  pub resource_display_snapshot : Text
  pub before_json : Option JsonObject
  pub after_json : Option JsonObject
  pub change_json : Option JsonObject
  pub request_id : Text
  pub trace_id : Option Text
  pub session_id : Text

-- app.users
pub record UserRow : Type 0 where
  pub id : ℕ
  pub email : Text
  pub email_normalized : Text
  pub display_name : Option Text
  pub status : String

-- app.user_auth_identities
pub record IdentityRow : Type 0 where
  pub id : ℕ
  pub user_id : ℕ
  pub issuer : Text
  pub subject : Text
  pub status : String

-- app.auth_sessions
pub record SessionRow : Type 0 where
  pub id : ℕ
  pub user_auth_identity_id : ℕ
  pub provider_session_id : Text
  pub expires_at : ℕ
  pub revoked_at : Option ℕ

-- A row of app.audit_events whose scope is 'PLATFORM'.
pub record PlatformAuditRow : Type 0 where
  pub id : ℕ
  pub actor_user_id : ℕ
  pub effective_user_id : ℕ
  pub action : String
  pub resource_type : String
  pub resource_id : ℕ
  pub session_id : Text

-- `now` is the transaction's timestamp, which SQL's `now()` returns. The rows of app.audit_events are
-- in `audit` and `platform_audit`, by their scope.
pub record Db : Type 0 where
  pub now : ℕ
  pub workspaces : List WorkspaceRow
  pub memberships : List MembershipRow
  pub projects : List ProjectRow
  pub connections : List ConnectionRow
  pub access : List AccessRow
  pub drafts : List DraftRow
  pub revisions : List RevisionRow
  pub audit : List AuditRow
  pub platform_audit : List PlatformAuditRow
  pub users : List UserRow
  pub identities : List IdentityRow
  pub auth_sessions : List SessionRow

-- The primary key of app.audit_events.
abbrev pub has_event : ℕ → Db → Bool
has_event id db = any (λ a. a.id == id) db.audit || any (λ a. a.id == id) db.platform_audit

-- What runs inside `session.begin()`: the statements so far stay in the state beside an exception.
abbrev pub Tx : Type 0 → Type 0
Tx A = Db → Result A × Db

module _ {A : Type 0} where
  abbrev pub pure : A → Tx A
  pure a db = (ok a, db)

  -- A computation that touches no table and may raise.
  abbrev pub lift : Result A → Tx A
  lift r db = (r, db)

  -- A query.
  abbrev pub query : (Db → Result A) → Tx A
  query f db = (f db, db)

-- A statement that writes, and may violate a constraint; its result is what it returns.
abbrev pub execute : {A : Type 0} → (Db → Result (A × Db)) → Tx A
execute f db = elim (f db) [ ok (a, db') ↦ (ok a, db') | err e ↦ (err e, db) ]

infixl 5 ◌>>=◌ ◌>>◌
abbrev pub ◌>>=◌ : {A B : Type 0} → Tx A → (A → Tx B) → Tx B
◌>>=◌ m f db = let (r, db') = m db in elim r [ ok a ↦ f a db' | err e ↦ (err e, db') ]

abbrev pub ◌>>◌ : {B : Type 0} → Tx (Unit {0}) → Tx B → Tx B
m >> k = m >>= λ _. k

-- `async with session.begin()`: commit, or roll back and let the exception go on.
abbrev pub transaction : {A : Type 0} → Tx A → Tx A
transaction m db = let (r, db') = m db in elim r [ ok a ↦ (ok a, db') | err e ↦ (err e, db) ]
