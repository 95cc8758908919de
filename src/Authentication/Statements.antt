-- ===== src/Authentication/Statements.antt =====
-- The SQL of infrastructure/db/session_provisioning_repository.py and principal_repository.py, with the
-- keys and foreign keys of the tables. A timestamp counts microseconds.
use bff.Prelude.{
  ℕ, ◌+◌, ◌*◌, Bool, true, false, not, ◌&&◌, ◌||◌, Option, none, some, List, [], ◌∷◌, ◌++◌, ltb,
  ◌==◌, str_eq, if◌then◌else◌, filter, any, is_none,
}
use bff.Result.{Result, ok, err, integrity_error}
use bff.Text.{Text, text_eq}
use bff.Ids.{uuid_str}
use bff.Db.{Db, UserRow, IdentityRow, SessionRow, PlatformAuditRow, has_event}

-- `identities JOIN users ON users.id = identities.user_id`
unfoldable pub join_user : IdentityRow → List UserRow → List (IdentityRow × UserRow)
join_user i [] = []
join_user i (u ∷ us) = if u.id == i.user_id then (i, u) ∷ join_user i us else join_user i us

unfoldable pub join_users : List IdentityRow → List UserRow → List (IdentityRow × UserRow)
join_users [] us = []
join_users (i ∷ is) us = join_user i us ++ join_users is us

-- WHERE identities.issuer = :issuer AND identities.subject = :subject
abbrev pub is_identity : Text → Text → IdentityRow → Bool
is_identity issuer subject i = text_eq i.issuer issuer && text_eq i.subject subject

-- _FIND_IDENTITY, and _FIND_EXACT_IDENTITY, which shows two columns more
unfoldable pub select_identity : Text → Text → Db → List (IdentityRow × UserRow)
select_identity issuer subject db =
    join_users (filter (is_identity issuer subject) db.identities) db.users

abbrev pub is_active_row : IdentityRow × UserRow → Bool
is_active_row r = str_eq r.0.status "ACTIVE" && str_eq r.1.status "ACTIVE"

-- _LOCK_ACTIVE_IDENTITY
abbrev pub select_active_identity : ℕ → Text → Text → Db → List (IdentityRow × UserRow)
select_active_identity identity_id issuer subject db =
    filter (λ r. r.0.id == identity_id && is_active_row r) (select_identity issuer subject db)

-- The rows that the INSERTs make, with the defaults of their columns.
abbrev pub new_user : ℕ → Text → Text → Option Text → UserRow
new_user id email email_normalized display_name = record {
  id = id;
  email = email;
  email_normalized = email_normalized;
  display_name = display_name;
  status = "ACTIVE";
}

abbrev pub new_identity : ℕ → ℕ → Text → Text → IdentityRow
new_identity id user_id issuer subject = record {
  id = id;
  user_id = user_id;
  issuer = issuer;
  subject = subject;
  status = "ACTIVE";
}

abbrev pub new_session : ℕ → ℕ → Text → ℕ → SessionRow
new_session id identity_id provider_session_id expires_at = record {
  id = id;
  user_auth_identity_id = identity_id;
  provider_session_id = provider_session_id;
  expires_at = expires_at;
  revoked_at = none;
}

-- _INSERT_USER: the key of `email_normalized` makes it do nothing, and any other key an error
unfoldable pub insert_user : ℕ → Text → Text → Option Text → Db → Result (Option ℕ × Db)
insert_user id email email_normalized display_name db =
    if any (λ u. text_eq u.email_normalized email_normalized) db.users
    then ok (none, db)
    else if any (λ u. u.id == id) db.users
    then err integrity_error
    else ok (
      some id,
      record db { users = db.users ++ new_user id email email_normalized display_name ∷ [] },
    )

-- The foreign key of identities, and the CHECKs that a text is not empty.
abbrev pub has_user : ℕ → Db → Bool
has_user id db = any (λ u. u.id == id) db.users

abbrev pub is_empty : Text → Bool
is_empty [] = true
is_empty (c ∷ s) = false

-- _INSERT_IDENTITY
unfoldable pub insert_identity : ℕ → ℕ → Text → Text → Db → Result (Option ℕ × Db)
insert_identity id user_id issuer subject db =
    if is_empty issuer || is_empty subject
    then err integrity_error
    else if any (is_identity issuer subject) db.identities
    then ok (none, db)
    else if any (λ i. i.id == id) db.identities || not (has_user user_id db)
    then err integrity_error
    else ok (
      some id,
      record db { identities = db.identities ++ new_identity id user_id issuer subject ∷ [] },
    )

abbrev pub is_session : ℕ → Text → SessionRow → Bool
is_session identity_id provider_session_id s =
    s.user_auth_identity_id == identity_id && text_eq s.provider_session_id provider_session_id

abbrev pub has_identity : ℕ → Db → Bool
has_identity id db = any (λ i. i.id == id) db.identities

-- CURRENT_TIMESTAMP + (:ttl_seconds * INTERVAL '1 second')
abbrev pub expiry : ℕ → Db → ℕ
expiry ttl_seconds db = db.now + ttl_seconds * 1_000_000

-- _INSERT_SESSION, with CHECK (expires_at > created_at)
unfoldable pub insert_session : ℕ → ℕ → Text → ℕ → Db → Result (Option (ℕ × ℕ) × Db)
insert_session id identity_id provider_session_id ttl_seconds db =
    if is_empty provider_session_id || not (ltb db.now (expiry ttl_seconds db))
    then err integrity_error
    else if any (is_session identity_id provider_session_id) db.auth_sessions
    then ok (none, db)
    else if any (λ s. s.id == id) db.auth_sessions || not (has_identity identity_id db)
    then err integrity_error
    else ok (
      some (id, expiry ttl_seconds db),
      record db {
        auth_sessions =
            db.auth_sessions
            ++ new_session id identity_id provider_session_id (expiry ttl_seconds db) ∷ [];
      },
    )

-- _FIND_SESSION
abbrev pub select_session : ℕ → Text → Db → List SessionRow
select_session identity_id provider_session_id db =
    filter (is_session identity_id provider_session_id) db.auth_sessions

-- `revoked_at IS NULL AND expires_at > CURRENT_TIMESTAMP`
abbrev pub is_live : Db → SessionRow → Bool
is_live db s = is_none s.revoked_at && ltb db.now s.expires_at

-- The row of _INSERT_AUDIT
abbrev pub session_event : ℕ → ℕ → ℕ → PlatformAuditRow
session_event id user_id session_id = record {
  id = id;
  actor_user_id = user_id;
  effective_user_id = user_id;
  action = "AUTH_SESSION_CREATED";
  resource_type = "AUTH_SESSION";
  resource_id = session_id;
  session_id = uuid_str session_id;
}

-- _INSERT_AUDIT; its foreign keys are to the user
unfoldable pub insert_session_audit : PlatformAuditRow → Db → Result (Unit {0} × Db)
insert_session_audit a db =
    if has_event a.id db || not (has_user a.actor_user_id db)
    then err integrity_error
    else ok (tt, record db { platform_audit = db.platform_audit ++ a ∷ [] })

-- The rows of `JOIN app.auth_sessions ON user_auth_identity_id = identities.id`
unfoldable pub join_session :
    IdentityRow × UserRow → List SessionRow → List ((IdentityRow × UserRow) × SessionRow)
join_session r [] = []
join_session r (s ∷ ss) =
    if s.user_auth_identity_id == r.0.id then (r, s) ∷ join_session r ss else join_session r ss

unfoldable pub join_sessions :
    List (IdentityRow × UserRow) → List SessionRow → List ((IdentityRow × UserRow) × SessionRow)
join_sessions [] ss = []
join_sessions (r ∷ rs) ss = join_session r ss ++ join_sessions rs ss

-- _RESOLVE_ACTIVE_PRINCIPAL
unfoldable pub select_principal :
    Text → Text → Text → Db → List ((IdentityRow × UserRow) × SessionRow)
select_principal issuer subject provider_session_id db =
    filter
      (λ r.
        is_active_row r.0
        && (text_eq r.1.provider_session_id provider_session_id && is_live db r.1))
      (join_sessions (select_identity issuer subject db) db.auth_sessions)
