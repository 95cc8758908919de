-- ===== src/Authentication/Reads.antt =====
-- The queries of `SqlAlchemySessionProvisioningRepository`, and what is decoded from their rows.
use bff.Prelude.{ℕ, false, not, Option, none, some, if◌then◌else◌}
use mathlib.Core.Option
use bff.Result.{Error, Result, ok, err, session_provisioning_authentication, no_result, ◌>>=◌}
use bff.Db.{Db, UserRow, IdentityRow, SessionRow}
use bff.Connections.Repository.Queries.{one_or_none}
use bff.Authentication.Models.{
  VerifiedAccessToken, AuthenticatedPrincipal, ProvisioningIdentity, ProvisionedSession,
  ActiveIdentity,
}
use bff.Authentication.Statements.{
  select_identity, select_active_identity, is_active_row, select_session, is_live,
}

-- `find_identity`
abbrev pub identity_of : IdentityRow × UserRow → ProvisioningIdentity
identity_of r = record { identity_id = r.0.id; user_id = r.1.id; active = is_active_row r }

unfoldable pub find_identity : VerifiedAccessToken → Db → Result (Option ProvisioningIdentity)
find_identity token db = do
  row ← one_or_none (select_identity token.issuer token.subject db)
  ok (Option.map identity_of row)

-- `_find_exact_identity`
abbrev pub find_exact_identity : VerifiedAccessToken → Db → Result (Option (IdentityRow × UserRow))
find_exact_identity token db = one_or_none (select_identity token.issuer token.subject db)

-- `_active_identity_from_row`
abbrev pub active_identity_from_row : IdentityRow × UserRow → ActiveIdentity
active_identity_from_row r = record {
  identity_id = r.0.id;
  user_id = r.1.id;
  email = r.1.email;
  display_name = r.1.display_name;
}

-- `_require_active`
abbrev pub require_active : IdentityRow × UserRow → Result ActiveIdentity
require_active r =
    if not (is_active_row r)
    then err session_provisioning_authentication
    else ok (active_identity_from_row r)

abbrev pub require_locked : Option (IdentityRow × UserRow) → Result ActiveIdentity
require_locked none = err session_provisioning_authentication
require_locked (some r) = ok (active_identity_from_row r)

-- `_lock_active_identity`
unfoldable pub lock_active_identity : VerifiedAccessToken → ℕ → Db → Result ActiveIdentity
lock_active_identity token identity_id db = do
  row ← one_or_none (select_active_identity identity_id token.issuer token.subject db)
  require_locked row

-- `_principal`
abbrev pub principal : ActiveIdentity → ℕ → AuthenticatedPrincipal
principal identity session_id = record {
  user_id = identity.user_id;
  auth_session_id = session_id;
  email = identity.email;
  display_name = identity.display_name;
}

-- `existing.mappings().one()`
abbrev pub one : {A : Type 0} → Option A → Result A
one none = err no_result
one (some a) = ok a

-- The end of `_admit_session`, for the session that is there already.
abbrev pub reuse_session : Db → ActiveIdentity → SessionRow → Result ProvisionedSession
reuse_session db identity s =
    if not (is_live db s)
    then err session_provisioning_authentication
    else ok
        (record { principal = principal identity s.id; expires_at = s.expires_at; created = false })

unfoldable pub find_session : VerifiedAccessToken → ActiveIdentity → Db → Result ProvisionedSession
find_session token identity db = do
  row ← one_or_none (select_session identity.identity_id token.provider_session_id db)
  found ← one row
  reuse_session db identity found

-- The identity that is there already, or the exception that the caller raises without one.
abbrev pub or_missing : Error → Option (IdentityRow × UserRow) → Result ActiveIdentity
or_missing e none = err e
or_missing e (some r) = require_active r
