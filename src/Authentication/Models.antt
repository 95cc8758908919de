-- ===== src/Authentication/Models.antt =====
-- domains/authentication/models.py and provisioning_models.py, and `_ActiveIdentity` of
-- infrastructure/db/session_provisioning_repository.py.
use bff.Prelude.{ℕ, Bool, Option}
use bff.Text.{Text}

pub record VerifiedAccessToken : Type 0 where
  pub issuer : Text
  pub subject : Text
  pub provider_session_id : Text
  pub token_id : Text
  pub issued_at : ℕ
  pub expires_at : ℕ

pub record AuthenticatedPrincipal : Type 0 where
  pub user_id : ℕ
  pub auth_session_id : ℕ
  pub email : Text
  pub display_name : Option Text

pub record ExternalUserProfile : Type 0 where
  pub subject : Text
  pub email : Text
  pub email_verified : Bool
  pub display_name : Option Text

pub record ProvisioningIdentity : Type 0 where
  pub identity_id : ℕ
  pub user_id : ℕ
  pub active : Bool

pub record ProvisionedSession : Type 0 where
  pub principal : AuthenticatedPrincipal
  pub expires_at : ℕ
  pub created : Bool

-- `_ActiveIdentity`
pub record ActiveIdentity : Type 0 where
  pub identity_id : ℕ
  pub user_id : ℕ
  pub email : Text
  pub display_name : Option Text
