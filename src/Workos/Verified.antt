-- ===== src/Workos/Verified.antt =====
-- The tokens that `WorkOSAccessTokenVerifier` of infrastructure/auth/workos.py accepts.
use bff.Prelude.{
  ap, ℕ, ◌≤◌, ◌<◌, ℤ, ltb, ltb_ℤ, Bool, true, false, not, ◌||◌, Option, some, [], ◌∷◌, ◌≡◌, refl,
  arith, length,
}
use mathlib.Core.Path.{subst}
use bff.Result.{ok-injective, Result, ok, err, >>=_ok}
use bff.Text.{Text, codes, text_eq, text_eq_iff}
use bff.Json.{Json, int, str, JsonObject, member}
use bff.Authentication.Models.{VerifiedAccessToken}
use bff.Workos.Times.{fromtimestamp, fromtimestamp-lt}
use bff.Workos.Tokens.{
  AuthenticationSettings, Jwt, decode_options, non_empty_string, required_non_empty_string, integer,
  required_timestamp, is_signing_algorithm, refuse, guarded, claims_from_payload, decoded_payload,
  verify_sync, verify,
}

non_empty_string_ok :
    (o : Option Json) (s : Text) → non_empty_string o ≡ ok s → (o ≡ some (str s)) × (0 < length s)
non_empty_string_ok (some (str (c ∷ t))) s h = ground arith
non_empty_string_ok o s h = absurd cc

integer_ok : (o : Option Json) (n : ℤ) → integer o ≡ ok n → o ≡ some (int n)
integer_ok (some (int m)) n h = cc
integer_ok o n h = cc

-- A condition that is not refused fails.
refuse_ok : (b : Bool) {u : Unit {0}} → refuse b ≡ ok u → b ≡ false
refuse_ok true h = cc
refuse_ok false h = refl

refuse-not : (b : Bool) {u : Unit {0}} → refuse (not b) ≡ ok u → b ≡ true
refuse-not true h = refl
refuse-not false h = cc

bounds :
    (token : Text) (limit : ℕ)
    → (text_eq token [] || ltb limit (length token)) ≡ false
    → (0 < length token) × (length token ≤ limit)
unfolding text_eq
bounds [] limit h = cc
bounds (c ∷ s) limit h = ground arith

-- What the claims have, and how the result shows them
pub record Claims (settings : AuthenticationSettings) (payload : JsonObject)
    (v : VerifiedAccessToken) : Type 0 where
  pub client_id : member (codes "client_id") payload ≡ some (str settings.client_id)
  pub issuer : member (codes "iss") payload ≡ some (str v.issuer)
  pub subject : member (codes "sub") payload ≡ some (str v.subject)
  pub provider_session_id : member (codes "sid") payload ≡ some (str v.provider_session_id)
  pub token_id : member (codes "jti") payload ≡ some (str v.token_id)
  pub non_empty :
      (0 < length v.issuer)
      × ((0 < length v.subject) × ((0 < length v.provider_session_id) × (0 < length v.token_id)))
  pub times :
      (a : ℤ) × (b : ℤ) × ((member (codes "iat") payload ≡ some (int a))
        × ((member (codes "exp") payload ≡ some (int b))
            × ((fromtimestamp a ≡ ok v.issued_at) × (fromtimestamp b ≡ ok v.expires_at))))
  pub in_order : v.issued_at < v.expires_at

claims_from_payload-Claims :
    (settings : AuthenticationSettings) (payload : JsonObject) (v : VerifiedAccessToken)
    → claims_from_payload settings payload ≡ ok v
    → Claims settings payload v
unfolding claims_from_payload required_non_empty_string required_timestamp
claims_from_payload-Claims settings payload v h =
    let (client_id, (h1, k1)) =
      >>=_ok (non_empty_string (member (codes "client_id") payload)) _ v h in
    let (_, (h2, k2)) = >>=_ok (refuse (not (text_eq client_id settings.client_id))) _ v k1 in
    let (issuer, (h3, k3)) = >>=_ok (non_empty_string (member (codes "iss") payload)) _ v k2 in
    let (subject, (h4, k4)) = >>=_ok (non_empty_string (member (codes "sub") payload)) _ v k3 in
    let (sid, (h5, k5)) = >>=_ok (non_empty_string (member (codes "sid") payload)) _ v k4 in
    let (jti, (h6, k6)) = >>=_ok (non_empty_string (member (codes "jti") payload)) _ v k5 in
    let (a, (h7, k7)) = >>=_ok (integer (member (codes "iat") payload)) _ v k6 in
    let (b, (h8, k8)) = >>=_ok (integer (member (codes "exp") payload)) _ v k7 in
    let (_, (h9, k9)) = >>=_ok (refuse (not (ltb_ℤ a b))) _ v k8 in
    let (issued, (h10, k10)) = >>=_ok (fromtimestamp a) _ v k9 in
    let (expires, (h11, k11)) = >>=_ok (fromtimestamp b) _ v k10 in
    let w : VerifiedAccessToken = record {
      issuer = issuer;
      subject = subject;
      provider_session_id = sid;
      token_id = jti;
      issued_at = issued;
      expires_at = expires;
    } in
    let same : w ≡ v = ok-injective k11 in
    let (c1, _) = non_empty_string_ok _ client_id h1 in
    let (c3, n3) = non_empty_string_ok _ issuer h3 in
    let (c4, n4) = non_empty_string_ok _ subject h4 in
    let (c5, n5) = non_empty_string_ok _ sid h5 in
    let (c6, n6) = non_empty_string_ok _ jti h6 in
    let right : client_id ≡ settings.client_id =
      (text_eq_iff client_id settings.client_id).0 (refuse-not _ h2) in
    let whole : Claims settings payload w = record {
      client_id = rw right at c1;
      issuer = c3;
      subject = c4;
      provider_session_id = c5;
      token_id = c6;
      non_empty = (n3, (n4, (n5, n6)));
      times = (a, b, ((integer_ok _ a h7, (integer_ok _ b h8, (h10, h11)))));
      in_order = fromtimestamp-lt a b issued expires h10 h11 (refuse-not _ h9);
    } in
    subst (Claims settings payload) same whole

-- A header of the token that names RS256 and a key, by which the token decodes for the settings'
-- issuer, and the claims of its payload
pub record IsVerified {K : Type 0} (settings : AuthenticationSettings) (jwt : Jwt K) (clock : ℕ)
    (token : Text) (v : VerifiedAccessToken) : Type 0 where
  pub bounded : (0 < length token) × (length token ≤ settings.max_bearer_token_length)
  pub header : JsonObject
  pub is_header : jwt.get_unverified_header token ≡ ok header
  pub algorithm : member (codes "alg") header ≡ some (str (codes "RS256"))
  pub kid : Text
  pub is_kid : member (codes "kid") header ≡ some (str kid)
  pub key : K
  pub is_key : jwt.get_signing_key kid ≡ ok key
  pub payload : JsonObject
  pub is_payload : jwt.decode clock token key (decode_options settings) ≡ ok payload
  pub claims : Claims settings payload v

guarded_ok : {A : Type 0} (m : Result A) (a : A) → guarded m ≡ ok a → m ≡ ok a
guarded_ok (ok b) a h = h
guarded_ok (err e) a h = cc

is_signing_algorithm_ok :
    (o : Option Json) → is_signing_algorithm o ≡ true → o ≡ some (str (codes "RS256"))
is_signing_algorithm_ok (some (str s)) h =
    ap (λ s. some (str s)) ((text_eq_iff s (codes "RS256")).0 (ground arith))
is_signing_algorithm_ok o h = cc

-- A token that is accepted is not empty nor longer than the limit, and its header names RS256 and a
-- key, by which it was decoded for the settings' issuer; its payload has the settings' client, an
-- issuer, a subject, a session and an id that are not empty and are those of the result, and the
-- times of the result, of which the issue is before the expiry.
pub verify-IsVerified :
    {K : Type 0} (settings : AuthenticationSettings) (jwt : Jwt K) (clock : ℕ) (token : Text)
    (v : VerifiedAccessToken)
    → verify settings jwt clock token ≡ ok v
    → IsVerified settings jwt clock token v
unfolding verify verify_sync decoded_payload
verify-IsVerified settings jwt clock token v h =
    let (_, (h1, k1)) =
      >>=_ok (refuse (text_eq token [] || ltb settings.max_bearer_token_length (length token))) _ v
        h in
    let k2 = guarded_ok _ v k1 in
    let (payload, (k3, k4)) =
      >>=_ok (decoded_payload settings jwt clock token) (claims_from_payload settings) v k2 in
    let (header, (h5, k5)) = >>=_ok (jwt.get_unverified_header token) _ payload k3 in
    let (_, (h6, k6)) =
      >>=_ok (refuse (not (is_signing_algorithm (member (codes "alg") header)))) _ payload k5 in
    let (kid, (h7, k7)) = >>=_ok (non_empty_string (member (codes "kid") header)) _ payload k6 in
    let (key, (h8, k8)) = >>=_ok (jwt.get_signing_key kid) _ payload k7 in
    record {
      bounded = bounds token settings.max_bearer_token_length (refuse_ok _ h1);
      header = header;
      is_header = h5;
      algorithm = is_signing_algorithm_ok _ (refuse-not _ h6);
      kid = kid;
      is_kid = (non_empty_string_ok _ kid h7).0;
      key = key;
      is_key = h8;
      payload = payload;
      is_payload = k8;
      claims = claims_from_payload-Claims settings payload v k4;
    }
