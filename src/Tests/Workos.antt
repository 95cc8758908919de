-- ===== src/Tests/Workos.antt =====
-- The theorems on WorkOS tokens and profiles, at a concrete token and a concrete answer.
use bff.Prelude.{
  ℕ, ℤ, pos, true, ◌&&◌, ltb, leb, none, some, ◌≡◌, refl, sym, ◌⊎◌, ◌+◌, ◌*◌, ◌≤◌, ◌<◌, arith,
  if◌then◌else◌,
}
use bff.Result.{
  Error, Result, ok, err, ok-injective, access_token_verification, jwt_error, os_error,
}
use bff.Text.{Text, codes}
use bff.Json.{bool, int, str, obj, JsonObject, end, field, member}
use bff.Authentication.Models.{VerifiedAccessToken, ExternalUserProfile}
use bff.Workos.Tokens.{
  AuthenticationSettings, Jwt, verify, verify_sync, decoded_payload, claims_from_payload,
  required_non_empty_string, required_timestamp,
}
use bff.Workos.Times.{fromtimestamp, unix_epoch}
use bff.Text.{text_eq}
use bff.Text.Strip.{strip}
use bff.Workos.Profiles.{quote, profile_from_payload}
use bff.Workos.Verified.{IsVerified, verify-IsVerified}
use bff.Workos.Current.{ChecksTimes, verify-IsCurrent}
use bff.Workos.Raised.{RaisesJwtErrors, verify-raised}
use bff.Workos.Profiles.{HttpResponse, fetch_user}
use bff.Workos.Fetched.{IsFetched, fetch_user-IsFetched}

abbrev settings : AuthenticationSettings
settings = record {
  issuer = codes "i";
  client_id = codes "c";
  max_bearer_token_length = 9;
  jwt_leeway_seconds = 30;
}

abbrev header : JsonObject
header = field (codes "alg") (str (codes "RS256")) (field (codes "kid") (str (codes "k")) end)

abbrev payload : ℕ → JsonObject
payload expires = field (codes "iss") (str (codes "i")) (
    field (codes "sub") (str (codes "s")) (
      field (codes "sid") (str (codes "d")) (
        field (codes "jti") (str (codes "j")) (
          field (codes "iat") (int (pos 5)) (
            field (codes "exp") (int (pos expires))
              (field (codes "client_id") (str (codes "c")) end))))))

-- A signer whose tokens expire at a time.
abbrev jwt : ℕ → Jwt ℕ
jwt expires = record {
  get_unverified_header = λ token. ok header;
  get_signing_key = λ kid. ok 1;
  decode = λ clock token key options. ok (payload expires);
}

abbrev accepted : VerifiedAccessToken
accepted = record {
  issuer = codes "i";
  subject = codes "s";
  provider_session_id = codes "d";
  token_id = codes "j";
  issued_at = 62135596805_000_000;
  expires_at = 62135596808_000_000;
}

accepted_test : verify settings (jwt 8) 1 (codes "t") ≡ ok accepted
unfolding verify text_eq verify_sync decoded_payload claims_from_payload required_non_empty_string
    required_timestamp fromtimestamp
accepted_test = refl

verified_example : IsVerified settings (jwt 8) 1 (codes "t") accepted
verified_example = verify-IsVerified settings (jwt 8) 1 (codes "t") accepted accepted_test

-- Decoding that checks the times of the token, which is issued at 5 and expires at 8.
abbrev timed : Jwt ℕ
timed = record (jwt 8) {
  decode = λ clock token key options.
      if ltb clock ((8 + unix_epoch + options.leeway) * 1_000_000)
        && leb ((5 + unix_epoch) * 1_000_000) (clock + options.leeway * 1_000_000)
      then ok (payload 8)
      else err jwt_error;
}

claim_is :
    (claim : Text) (x : ℤ) (shown : JsonObject) (n : ℤ)
    → member claim (payload 8) ≡ some (int x)
    → ◌≡◌ {A = Result JsonObject} (ok (payload 8)) (ok shown)
    → member claim shown ≡ some (int n)
    → n ≡ x
claim_is claim x shown n there same h =
    let whole : payload 8 ≡ shown = ok-injective same in let read = rw (sym whole) at h in cc

timed-ChecksTimes : ChecksTimes timed
unfolding text_eq
timed-ChecksTimes = record {
  unexpired = λ clock token key options shown n h k.
      let n8 : n ≡ pos 8 = claim_is (codes "exp") (pos 8) shown n refl (ground arith) k in
      rw n8 (ground arith);
  issued = λ clock token key options shown n h k.
      let n5 : n ≡ pos 5 = claim_is (codes "iat") (pos 5) shown n refl (ground arith) k in
      rw n5 (ground arith);
}

timed_test : verify settings timed 62135596806_000_000 (codes "t") ≡ ok accepted
unfolding verify text_eq verify_sync decoded_payload claims_from_payload required_non_empty_string
    required_timestamp fromtimestamp
timed_test = refl

-- The leeway is over.
expired_test : verify settings timed 62135596838_000_000 (codes "t") ≡ err access_token_verification
unfolding verify text_eq verify_sync decoded_payload claims_from_payload required_non_empty_string
    required_timestamp fromtimestamp
expired_test = refl

current_example :
    (62135596805_000_000 ≤ 62135596806_000_000 + 30 * 1_000_000)
    × (62135596806_000_000 < 62135596808_000_000 + 30 * 1_000_000)
current_example =
    verify-IsCurrent settings timed timed-ChecksTimes 62135596806_000_000 (codes "t") accepted
      timed_test

jwt-raises : (expires : ℕ) → RaisesJwtErrors (jwt expires)
jwt-raises expires = record {
  header = λ token. tt;
  signing_key = λ kid. tt;
  decoding = λ clock token key options. tt;
}

-- A token that does not expire before it is issued is refused; one that expires later than the
-- platform can tell raises `OSError`.
refused_test : verify settings (jwt 5) 1 (codes "t") ≡ err access_token_verification
unfolding verify text_eq verify_sync decoded_payload claims_from_payload required_non_empty_string
    required_timestamp fromtimestamp
refused_test = refl

far_test : verify settings (jwt 100000000000000000) 1 (codes "t") ≡ err os_error
unfolding verify text_eq verify_sync decoded_payload claims_from_payload required_non_empty_string
    required_timestamp fromtimestamp
far_test = refl

raised_example :
    (◌≡◌ {A = Error} access_token_verification access_token_verification)
    ⊎ (◌≡◌ {A = Error} access_token_verification os_error)
raised_example =
    verify-raised settings (jwt 5) (jwt-raises 5) 1 (codes "t") access_token_verification
      refused_test

abbrev answer : HttpResponse
answer = record {
  status_code = 200;
  json = ok (
      obj (
        field (codes "id") (str (codes "u/1")) (
          field (codes "email") (str (codes " e ")) (
            field (codes "email_verified") (bool true)
              (field (codes "name") (str (codes " ")) end)))));
}

abbrev profile : ExternalUserProfile
profile = record {
  subject = codes "u/1";
  email = codes "e";
  email_verified = true;
  display_name = none;
}

profile_test : fetch_user (λ path. ok answer) (codes "u/1") ≡ ok profile
unfolding fetch_user quote profile_from_payload text_eq strip
profile_test = refl

fetched_example : IsFetched (λ path. ok answer) (codes "u/1") profile
fetched_example =
    fetch_user-IsFetched (λ path. ok answer) (codes "u/1") profile (omega arith) profile_test
