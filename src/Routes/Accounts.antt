-- ===== src/Routes/Accounts.antt =====
-- api/routes/v1/auth.py, and identity.py.
use bff.Prelude.{ℕ, Option, none, some}
use bff.Result.{Error, err}
use bff.Text.{Text}
use bff.Db.{lift}
use bff.Authentication.Models.{AuthenticatedPrincipal}
use bff.Authentication.Repository.{Others, Draws}
use bff.Authentication.Service.{Provisioner, provision}
use bff.Routes.Handling.{
  Outcome, Handler, service, fail, ◌>>=◌, Reply, reply, Credentials, require_bearer_token,
}

-- `MeResponse` and `ProvisionedUserResponse`
pub record UserResponse : Type 0 where
  pub id : ℕ
  pub email : Text
  pub display_name : Option Text

pub record SessionProvisioningResponse : Type 0 where
  pub user : UserResponse
  pub expires_at : ℕ

abbrev pub user_response : AuthenticatedPrincipal → UserResponse
user_response principal = record {
  id = principal.user_id;
  email = principal.email;
  display_name = principal.display_name;
}

unfoldable pub get_me : AuthenticatedPrincipal → Handler (Reply UserResponse)
get_me principal = fail (Outcome.returned (reply (user_response principal)))

-- `provision_session`, where no provisioner may be configured
unfoldable pub provision_session :
    (Text → Text)
    → Option Provisioner
    → Others
    → Draws
    → ℕ
    → Option Credentials
    → Handler (Reply SessionProvisioningResponse)
provision_session casefold none others draws clock credentials = do
  token ← fail (require_bearer_token casefold credentials)
  service (lift (err Error.runtime_error))
provision_session casefold (some provisioner) others draws clock credentials = do
  token ← fail (require_bearer_token casefold credentials)
  result ← service (provision provisioner others draws clock token)
  fail (
      Outcome.returned
        (reply (record { user = user_response result.principal; expires_at = result.expires_at })))
