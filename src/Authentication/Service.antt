-- ===== src/Authentication/Service.antt =====
-- `AuthenticationService` of domains/authentication/service.py and `SessionProvisioningService` of
-- provisioning.py. The verifier of tokens and the provider of profiles are arguments. The verifier reads the
-- clock of the application, which is not that of the database: the time it reads is an argument, `clock`.
use bff.Prelude.{not, Option, none, some, ℕ, if◌then◌else◌}
use bff.Result.{
  Error, Result, ok, err, principal_authentication, access_token_verification,
  session_provisioning_authentication, email_verification_required, external_user_profile_not_found,
  external_user_profile_unavailable,
}
use bff.Text.{Text, text_eq}
use bff.Db.{Tx, lift, query, ◌>>=◌, ◌>>◌}
use bff.Authentication.Models.{
  VerifiedAccessToken, AuthenticatedPrincipal, ExternalUserProfile, ProvisioningIdentity,
  ProvisionedSession,
}
use bff.Authentication.Repository.{
  Others, Draws, meanwhile, admit_existing_identity, provision_new_identity,
}
use bff.Authentication.Reads.{find_identity}
use bff.Authentication.Principals.{resolve_active_principal}

-- `except AccessTokenVerificationError as error: raise ... from error`
abbrev pub verification_failed : {A : Type 0} → Error → Result A → Result A
verification_failed instead (ok a) = ok a
verification_failed instead (err access_token_verification) = err instead
verification_failed instead (err e) = err e

abbrev pub require_principal : Option AuthenticatedPrincipal → Result AuthenticatedPrincipal
require_principal none = err principal_authentication
require_principal (some p) = ok p

-- `AuthenticationService.authenticate`
unfoldable pub authenticate :
    (ℕ → Text → Result VerifiedAccessToken) → ℕ → Text → Tx AuthenticatedPrincipal
authenticate verify clock token = do
  verified ← lift (verification_failed principal_authentication (verify clock token))
  principal ← query (resolve_active_principal verified)
  lift (require_principal principal)

-- `except ExternalUserProfileNotFoundError as error: raise ... from error`
abbrev pub profile_not_found : {A : Type 0} → Result A → Result A
profile_not_found (ok a) = ok a
profile_not_found (err external_user_profile_not_found) = err session_provisioning_authentication
profile_not_found (err e) = err e

-- The tests of the profile that was fetched.
abbrev pub check_profile : VerifiedAccessToken → ExternalUserProfile → Result (Unit {0})
check_profile verified profile =
    if not (text_eq profile.subject verified.subject)
    then err external_user_profile_unavailable
    else if not profile.email_verified
    then err email_verification_required
    else ok tt

-- `SessionProvisioningService`
pub record Provisioner : Type 0 where
  pub verify : ℕ → Text → Result VerifiedAccessToken
  pub fetch_user : Text → Result ExternalUserProfile
  pub casefold : Text → Text
  pub absolute_ttl_seconds : ℕ

module _ (p : Provisioner) (others : Others) (draws : Draws) where
  abbrev pub provision_identity :
      VerifiedAccessToken → Option ProvisioningIdentity → Tx ProvisionedSession
  provision_identity verified (some identity) =
      if not identity.active
      then lift (err session_provisioning_authentication)
      else admit_existing_identity others draws verified identity p.absolute_ttl_seconds
  provision_identity verified none = do
    profile ← lift (profile_not_found (p.fetch_user verified.subject))
    lift (check_profile verified profile)
    provision_new_identity others p.casefold draws verified profile p.absolute_ttl_seconds

  -- `SessionProvisioningService.provision`
  unfoldable pub provision : ℕ → Text → Tx ProvisionedSession
  provision clock token = do
    verified ← lift (verification_failed session_provisioning_authentication (p.verify clock token))
    identity ← query (find_identity verified)
    meanwhile others.found
    provision_identity verified identity
