-- ===== src/Authentication/Principals.antt =====
-- `SqlAlchemyPrincipalRepository` of infrastructure/db/principal_repository.py.
use bff.Prelude.{Option}
use mathlib.Core.Option
use bff.Result.{Result, ok, ◌>>=◌}
use bff.Db.{Db, UserRow, IdentityRow, SessionRow}
use bff.Connections.Repository.Queries.{one_or_none}
use bff.Authentication.Models.{VerifiedAccessToken, AuthenticatedPrincipal}
use bff.Authentication.Statements.{select_principal}

abbrev pub principal_from_row : (IdentityRow × UserRow) × SessionRow → AuthenticatedPrincipal
principal_from_row r = record {
  user_id = r.0.1.id;
  auth_session_id = r.1.id;
  email = r.0.1.email;
  display_name = r.0.1.display_name;
}

unfoldable pub resolve_active_principal :
    VerifiedAccessToken → Db → Result (Option AuthenticatedPrincipal)
resolve_active_principal token db = do
  row ← one_or_none (select_principal token.issuer token.subject token.provider_session_id db)
  ok (Option.map principal_from_row row)
