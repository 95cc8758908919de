-- ===== src/Workos/Current.antt =====
-- The time at which `WorkOSAccessTokenVerifier` of infrastructure/auth/workos.py accepts a token.
use bff.Prelude.{ℕ, ◌+◌, ◌*◌, ◌≤◌, ◌<◌, ℤ, pos_part, neg_part, some, ◌≡◌, arith}
use bff.Result.{ok}
use bff.Text.{Text, codes}
use bff.Json.{int, JsonObject, member}
use bff.Authentication.Models.{VerifiedAccessToken}
use bff.Workos.Times.{unix_epoch, fromtimestamp_ok}
use bff.Workos.Tokens.{AuthenticationSettings, DecodeOptions, Jwt, verify}
use bff.Workos.Verified.{verify-IsVerified}

-- What PyJWT documents of the `exp` and `iat` of a payload that it has decoded: with the leeway of the options,
-- in seconds, the one is in the future and the other is not.
pub record ChecksTimes {K : Type 0} (jwt : Jwt K) : Type 0 where
  pub unexpired :
      (clock : ℕ) (token : Text) (key : K) (options : DecodeOptions) (payload : JsonObject) (n : ℤ)
      → jwt.decode clock token key options ≡ ok payload
      → member (codes "exp") payload ≡ some (int n)
      → clock + neg_part n * 1_000_000 < (pos_part n + unix_epoch + options.leeway) * 1_000_000
  pub issued :
      (clock : ℕ) (token : Text) (key : K) (options : DecodeOptions) (payload : JsonObject) (n : ℤ)
      → jwt.decode clock token key options ≡ ok payload
      → member (codes "iat") payload ≡ some (int n)
      → (pos_part n + unix_epoch) * 1_000_000 ≤ clock + (options.leeway + neg_part n) * 1_000_000

-- If PyJWT checks the times of a payload as it documents, a token is accepted only from the time at which
-- the result says it was issued until the time at which the result says it expires, with the settings' leeway
-- in seconds on either side.
pub verify-IsCurrent :
    {K : Type 0} (settings : AuthenticationSettings) (jwt : Jwt K)
    → ChecksTimes jwt
    → (clock : ℕ) (token : Text) (v : VerifiedAccessToken) → verify settings jwt clock token ≡ ok v
    → (v.issued_at ≤ clock + settings.jwt_leeway_seconds * 1_000_000)
      × (clock < v.expires_at + settings.jwt_leeway_seconds * 1_000_000)
verify-IsCurrent settings jwt checks clock token v h =
    let is = verify-IsVerified settings jwt clock token v h in
    let (a, b, (iat, (exp, (issued, expires)))) = is.claims.times in
    let begun = checks.issued clock token is.key _ is.payload a is.is_payload iat in
    let unexpired = checks.unexpired clock token is.key _ is.payload b is.is_payload exp in
    let x = fromtimestamp_ok a v.issued_at issued in
    let y = fromtimestamp_ok b v.expires_at expires in (omega arith, omega arith)
