-- ===== src/Workos/Fetched.antt =====
-- What `WorkOSUserProfileClient.fetch_user` requests and returns.
use bff.Prelude.{
  ◌∙◌, ap, ℕ, ◌<◌, Bool, true, false, not, Option, some, [], ◌∷◌, ◌++◌, ◌≡◌, refl, length, arith,
  Bool-cases, inl, inr,
}
use mathlib.Core.Path.{subst}
use bff.Result.{Error, Result, ok, err, >>=_ok, ok-injective}
use bff.Text.{Text, codes, text_eq, text_eq_iff, is_space}
use bff.Text.Strip.{strip}
use bff.Json.{Json, bool, str, obj, JsonObject, member}
use bff.Authentication.Models.{ExternalUserProfile}
use bff.Workos.Quoted.{IsText, IsSegment, quote-IsSegment}
use bff.Workos.Profiles.{
  quote, HttpResponse, require_string, require, require_bool, optional_string, require_object,
  normalized_display_name, profile_from_payload, fetch_user, unavailable_on, is_http_error,
  is_value_error, check_status,
}

-- What a payload has, and how the profile shows it
pub record IsProfile (subject : Text) (payload : JsonObject) (p : ExternalUserProfile)
    : Type 0 where
  pub same_subject : p.subject ≡ subject
  pub id : member (codes "id") payload ≡ some (str subject)
  pub email : Text
  pub is_email : member (codes "email") payload ≡ some (str email)
  pub trimmed : p.email ≡ strip is_space email
  pub non_empty : 0 < length p.email
  pub verified : member (codes "email_verified") payload ≡ some (bool p.email_verified)
  pub display_name : Option Text
  pub is_display_name : optional_string (member (codes "name") payload) ≡ ok display_name
  pub normalized : p.display_name ≡ normalized_display_name display_name

require_string_ok : (o : Option Json) (s : Text) → require_string o ≡ ok s → o ≡ some (str s)
require_string_ok (some (str t)) s h = cc
require_string_ok o s h = cc

require_bool_ok : (o : Option Json) (b : Bool) → require_bool o ≡ ok b → o ≡ some (bool b)
require_bool_ok (some (bool c)) b h = cc
require_bool_ok o b h = cc

require_ok : (b : Bool) {u : Unit {0}} → require b ≡ ok u → b ≡ true
require_ok true h = refl
require_ok false h = cc

present : (s : Text) → not (text_eq s []) ≡ true → 0 < length s
unfolding text_eq
present [] h = cc
present (c ∷ s) h = omega arith

profile_from_payload-IsProfile :
    (subject : Text) (payload : JsonObject) (p : ExternalUserProfile)
    → profile_from_payload subject payload ≡ ok p
    → IsProfile subject payload p
unfolding profile_from_payload
profile_from_payload-IsProfile subject payload p h =
    let (id, (h1, k1)) = >>=_ok (require_string (member (codes "id") payload)) _ p h in
    let (_, (h2, k2)) = >>=_ok (require (text_eq id subject)) _ p k1 in
    let (email, (h3, k3)) = >>=_ok (require_string (member (codes "email") payload)) _ p k2 in
    let (_, (h4, k4)) = >>=_ok (require (not (text_eq (strip is_space email) []))) _ p k3 in
    let (verified, (h5, k5)) =
      >>=_ok (require_bool (member (codes "email_verified") payload)) _ p k4 in
    let (name, (h6, k6)) = >>=_ok (optional_string (member (codes "name") payload)) _ p k5 in
    let same : id ≡ subject = (text_eq_iff id subject).0 (require_ok _ h2) in
    let w : ExternalUserProfile = record {
      subject = id;
      email = strip is_space email;
      email_verified = verified;
      display_name = normalized_display_name name;
    } in
    let whole : IsProfile subject payload w = record {
      same_subject = same;
      id = require_string_ok _ id h1 ∙ ap (λ s. some (str s)) same;
      email = email;
      is_email = require_string_ok _ email h3;
      trimmed = refl;
      non_empty = present _ (require_ok _ h4);
      verified = require_bool_ok _ verified h5;
      display_name = name;
      is_display_name = h6;
      normalized = refl;
    } in
    subst (IsProfile subject payload) (ok-injective k6) whole

-- What was requested for a profile, and what was answered
pub record IsFetched (get : Text → Result HttpResponse) (subject : Text) (p : ExternalUserProfile)
    : Type 0 where
  pub segment : Text
  pub is_segment : IsSegment segment
  pub quoted : quote subject ≡ ok segment
  pub response : HttpResponse
  pub answered : get (codes "/user_management/users/" ++ segment) ≡ ok response
  pub status : response.status_code ≡ 200
  pub payload : JsonObject
  pub is_payload : response.json ≡ ok (obj payload)
  pub profile : IsProfile subject payload p

unavailable_on_ok :
    {A : Type 0} (handles : Error → Bool) (m : Result A) (a : A)
    → unavailable_on handles m ≡ ok a
    → m ≡ ok a
unavailable_on_ok handles (ok b) a h = h
unavailable_on_ok handles (err e) a h = elim (Bool-cases (handles e)) [
  | inl q ↦ absurd (let bad = rw q at h in cc)
  | inr q ↦ absurd (let bad = rw q at h in cc)
]

check_status_ok : (status : ℕ) {u : Unit {0}} → check_status status ≡ ok u → status ≡ 200
check_status_ok status h = ground arith

require_object_ok : (j : Json) (m : JsonObject) → require_object j ≡ ok m → j ≡ obj m
require_object_ok (obj n) m h = cc
require_object_ok j m h = cc

-- For a subject of code points, a profile that `fetch_user` returns comes from an answer with status
-- 200 to the request for the subject, quoted with unreserved characters and percent signs alone; the
-- profile has the subject asked for, the trimmed email, which is not empty, whether that is verified,
-- and the trimmed name, unless that is absent or empty.
pub fetch_user-IsFetched :
    (get : Text → Result HttpResponse) (subject : Text) (p : ExternalUserProfile)
    → IsText subject
    → fetch_user get subject ≡ ok p
    → IsFetched get subject p
unfolding fetch_user
fetch_user-IsFetched get subject p text h =
    let (segment, (h1, k1)) = >>=_ok (quote subject) _ p h in
    let path = codes "/user_management/users/" ++ segment in
    let (response, (h2, k2)) = >>=_ok (unavailable_on is_http_error (get path)) _ p k1 in
    let (_, (h3, k3)) = >>=_ok (check_status response.status_code) _ p k2 in
    let (value, (h4, k4)) = >>=_ok (unavailable_on is_value_error response.json) _ p k3 in
    let (payload, (h5, k5)) = >>=_ok (require_object value) _ p k4 in
    record {
      segment = segment;
      is_segment = quote-IsSegment subject segment text h1;
      quoted = h1;
      response = response;
      answered = unavailable_on_ok is_http_error (get path) response h2;
      status = check_status_ok response.status_code h3;
      payload = payload;
      is_payload =
          unavailable_on_ok is_value_error response.json value h4
          ∙ ap ok (require_object_ok value payload h5);
      profile = profile_from_payload-IsProfile subject payload p k5;
    }
