-- ===== src/Result.antt =====
-- The exceptions that the control API's domains raise, and results that may carry one. Messages are
-- left out: only the class of an exception is matched on.
use mathlib.Core.Path.{◌≡◌, refl}
use mathlib.Core.Bool.{Bool, true, false}
use bff.Prelude.{if◌then◌else◌}

-- domains/*/contracts.py, and the built-in exceptions that the domain code raises itself.
pub data Error : Type 0 where
  connection_workspace_not_found connection_not_found connection_project_not_found : Error
  connection_permission_denied connection_workspace_not_active : Error
  connection_state_conflict connection_configuration_invalid : Error
  project_workspace_not_found project_not_found project_permission_denied : Error
  project_workspace_not_active workspace_not_found : Error
  principal_authentication access_token_verification : Error
  session_provisioning_authentication email_verification_required account_link_required : Error
  external_user_profile_not_found external_user_profile_unavailable : Error
  provider_configuration value_error type_error overflow_error runtime_error key_error : Error
  -- `_IdentityRace`, which stays inside the session repository
  identity_race : Error
  os_error : Error
  -- raised by PyJWT, its client of signing keys, and httpx
  jwt_error jwk_client_error http_error : Error
  -- raised by the database driver
  integrity_error multiple_results no_result : Error

pub data Result {ℓ} (A : Type ℓ) : Type ℓ where
  ok : A → Result A
  err : Error → Result A

infixl 5 ◌>>=◌ ◌>>◌
abbrev pub ◌>>=◌ {ℓ κ} : {A : Type ℓ} {B : Type κ} → Result A → (A → Result B) → Result B
err e >>= next = err e
ok value >>= next = next value

abbrev pub ◌>>◌ {ℓ} : {B : Type ℓ} → Result (Unit {0}) → Result B → Result B
m >> k = m >>= λ _. k

-- A chain that succeeds has a first step that succeeds.
pub >>=_ok :
    {A B : Type 0} (m : Result A) (f : A → Result B) (b : B)
    → (m >>= f) ≡ ok b
    → (a : A) × ((m ≡ ok a) × (f a ≡ ok b))
>>=_ok (ok a) f b h = (a, (refl, h))
>>=_ok (err e) f b h = cc

-- What a guard lets through.
pub guard_ok :
    {A : Type 0} (b : Bool) (e : Error) (m : Result A) (a : A)
    → (if b then err e else m) ≡ ok a
    → (b ≡ false) × (m ≡ ok a)
guard_ok true e m a h = cc
guard_ok false e m a h = (refl, h)

pub ok-injective : {A : Type 0} {a b : A} → ok a ≡ ok b → a ≡ b
ok-injective h = cc
