-- ===== src/Workos/Tokens.antt =====
-- `WorkOSAccessTokenVerifier` of infrastructure/auth/workos.py. PyJWT and its client of signing keys
-- are arguments.
use bff.Prelude.{
  length, ℕ, ℤ, ltb, ltb_ℤ, Bool, false, not, ◌||◌, if◌then◌else◌, Option, some, List, [], ◌∷◌, any,
}
use bff.Result.{
  Error, Result, ok, err, ◌>>=◌, ◌>>◌, access_token_verification, provider_configuration,
  value_error, overflow_error, jwt_error, jwk_client_error,
}
use bff.Text.{Text, codes, text_eq}
use bff.Json.{Json, int, str, JsonObject, member}
use bff.Authentication.Models.{VerifiedAccessToken}
use bff.Workos.Times.{fromtimestamp}

-- `AuthenticationSettings`, as far as the verifier reads it
pub record AuthenticationSettings : Type 0 where
  pub issuer : Text
  pub client_id : Text
  pub max_bearer_token_length : ℕ
  pub jwt_leeway_seconds : ℕ

abbrev pub signing_algorithms : List Text
signing_algorithms = codes "RS256" ∷ []

abbrev pub required_claims : List Text
required_claims =
    codes "iss"
    ∷ codes "sub"
    ∷ codes "sid"
    ∷ codes "jti"
    ∷ codes "iat"
    ∷ codes "exp"
    ∷ codes "client_id"
    ∷ []

-- The options of `jwt.decode` that `_verify_sync` gives; the leeway is in seconds.
pub record DecodeOptions : Type 0 where
  pub algorithms : List Text
  pub issuer : Text
  pub leeway : ℕ
  pub required : List Text

-- `SigningKeyClient` and what the verifier calls of PyJWT, over the keys `K`. `decode` reads the clock: the time,
-- in microseconds, is its first argument.
pub record Jwt (K : Type 0) : Type 0 where
  pub get_unverified_header : Text → Result JsonObject
  pub get_signing_key : Text → Result K
  pub decode : ℕ → Text → K → DecodeOptions → Result JsonObject

abbrev pub failed {ℓ} : {A : Type ℓ} → Result A
failed = err access_token_verification

-- `isinstance(value, str) and value`
abbrev pub non_empty_string : Option Json → Result Text
non_empty_string (some (str [])) = failed
non_empty_string (some (str (c ∷ s))) = ok (c ∷ s)
non_empty_string _ = failed

-- `_required_non_empty_string`
unfoldable pub required_non_empty_string : JsonObject → Text → Result Text
required_non_empty_string payload claim = non_empty_string (member claim payload)

-- `isinstance(value, int) and not isinstance(value, bool)`
abbrev pub integer : Option Json → Result ℤ
integer (some (int n)) = ok n
integer _ = failed

-- `_required_timestamp`
unfoldable pub required_timestamp : JsonObject → Text → Result ℤ
required_timestamp payload claim = integer (member claim payload)

-- `algorithm not in WORKOS_SIGNING_ALGORITHMS`
abbrev pub is_signing_algorithm : Option Json → Bool
is_signing_algorithm (some (str s)) = any (text_eq s) signing_algorithms
is_signing_algorithm _ = false

-- `if condition: raise AccessTokenVerificationError`
abbrev pub refuse : Bool → Result (Unit {0})
refuse condition = if condition then failed else ok tt

-- The handlers of `_verify_sync`'s `try`, where `ProviderConfigurationError` is a `ValueError`
abbrev pub handled : Error → Error
handled jwt_error = access_token_verification
handled jwk_client_error = access_token_verification
handled value_error = access_token_verification
handled provider_configuration = access_token_verification
handled overflow_error = access_token_verification
handled e = e

abbrev pub guarded : {A : Type 0} → Result A → Result A
guarded (ok a) = ok a
guarded (err e) = err (handled e)

module _ (settings : AuthenticationSettings) where
  unfoldable pub claims_from_payload : JsonObject → Result VerifiedAccessToken
  claims_from_payload payload = do
    client_id ← required_non_empty_string payload (codes "client_id")
    refuse (not (text_eq client_id settings.client_id))
    issuer ← required_non_empty_string payload (codes "iss")
    subject ← required_non_empty_string payload (codes "sub")
    provider_session_id ← required_non_empty_string payload (codes "sid")
    token_id ← required_non_empty_string payload (codes "jti")
    issued_at_value ← required_timestamp payload (codes "iat")
    expires_at_value ← required_timestamp payload (codes "exp")
    refuse (not (ltb_ℤ issued_at_value expires_at_value))
    issued_at ← fromtimestamp issued_at_value
    expires_at ← fromtimestamp expires_at_value
    ok (record {
      issuer = issuer;
      subject = subject;
      provider_session_id = provider_session_id;
      token_id = token_id;
      issued_at = issued_at;
      expires_at = expires_at;
    })

  abbrev pub decode_options : DecodeOptions
  decode_options = record {
    algorithms = signing_algorithms;
    issuer = settings.issuer;
    leeway = settings.jwt_leeway_seconds;
    required = required_claims;
  }

  module _ {K : Type 0} (jwt : Jwt K) where
    unfoldable pub decoded_payload : ℕ → Text → Result JsonObject
    decoded_payload clock token = do
      header ← jwt.get_unverified_header token
      refuse (not (is_signing_algorithm (member (codes "alg") header)))
      kid ← non_empty_string (member (codes "kid") header)
      signing_key ← jwt.get_signing_key kid
      jwt.decode clock token signing_key decode_options

    unfoldable pub verify_sync : ℕ → Text → Result VerifiedAccessToken
    verify_sync clock token = guarded (decoded_payload clock token >>= claims_from_payload)

    unfoldable pub verify : ℕ → Text → Result VerifiedAccessToken
    verify clock token = do
      refuse (text_eq token [] || ltb settings.max_bearer_token_length (length token))
      verify_sync clock token
