-- ===== src/Workos/Profiles.antt =====
-- `WorkOSUserProfileClient` of infrastructure/auth/workos_profile.py, and `quote` of urllib.parse.
-- The HTTP client is an argument.
use bff.Prelude.{
  ◌-◌, ℕ, ◌+◌, ◌/◌, ◌%◌, ltb, leb, ◌==◌, Bool, true, false, not, ◌&&◌, ◌||◌, if◌then◌else◌, Option,
  none, some, List, [], ◌∷◌, ◌++◌,
}
use bff.Result.{
  Error, Result, ok, err, ◌>>=◌, ◌>>◌, value_error, http_error, external_user_profile_not_found,
  external_user_profile_unavailable,
}
use bff.Text.{Text, codes, text_eq, is_space}
use bff.Text.Strip.{strip}
use bff.Json.{Json, bool, str, obj, JsonObject, member}
use bff.Authentication.Models.{ExternalUserProfile}

-- A digit of `%XX`
abbrev pub hex_upper : ℕ → ℕ
hex_upper d = if ltb d 10 then b'0' + d else b'A' + (d - 10)

-- The characters that `quote` keeps when `safe` is empty
abbrev pub is_unreserved : ℕ → Bool
is_unreserved c =
    (leb b'a' c && leb c b'z')
    || (leb b'A' c && leb c b'Z')
    || (leb b'0' c && leb c b'9')
    || c == b'_'
    || c == b'.'
    || c == b'-'
    || c == b'~'

-- The bytes of a code point in UTF-8
abbrev pub utf8 : ℕ → List ℕ
utf8 c =
    if ltb c 0x80
    then c ∷ []
    else if ltb c 0x800
    then (0xc0 + c / 64) ∷ (0x80 + c % 64) ∷ []
    else if ltb c 0x10000
    then (0xe0 + c / 4096) ∷ (0x80 + c / 64 % 64) ∷ (0x80 + c % 64) ∷ []
    else (0xf0 + c / 262144) ∷ (0x80 + c / 4096 % 64) ∷ (0x80 + c / 64 % 64) ∷ (0x80 + c % 64) ∷ []

abbrev pub quote_byte : ℕ → Text
quote_byte b =
    if is_unreserved b then b ∷ [] else b'%' ∷ hex_upper (b / 16) ∷ hex_upper (b % 16) ∷ []

unfoldable pub quote_bytes : List ℕ → Text
quote_bytes [] = []
quote_bytes (b ∷ bytes) = quote_byte b ++ quote_bytes bytes

-- `quote(subject, safe="")`; UTF-8 has no surrogates.
unfoldable pub quote : Text → Result Text
quote [] = ok []
quote (c ∷ s) = do
  rest ← quote s
  if leb 0xd800 c && leb c 0xdfff then err value_error else ok (quote_bytes (utf8 c) ++ rest)

-- What the adapter reads of `httpx.Response`; `json` may raise `ValueError`.
pub record HttpResponse : Type 0 where
  pub status_code : ℕ
  pub json : Result Json

-- `except httpx.HTTPError` and `except ValueError`
abbrev pub unavailable_on : {A : Type 0} → (Error → Bool) → Result A → Result A
unavailable_on handles (ok a) = ok a
unavailable_on handles (err e) = if handles e then err external_user_profile_unavailable else err e

abbrev pub is_http_error : Error → Bool
is_http_error http_error = true
is_http_error _ = false

abbrev pub is_value_error : Error → Bool
is_value_error value_error = true
is_value_error Error.provider_configuration = true
is_value_error _ = false

abbrev pub unavailable {ℓ} : {A : Type ℓ} → Result A
unavailable = err external_user_profile_unavailable

-- `if condition: raise ExternalUserProfileUnavailableError`
abbrev pub require : Bool → Result (Unit {0})
require condition = if condition then ok tt else unavailable

abbrev pub require_object : Json → Result JsonObject
require_object (obj payload) = ok payload
require_object _ = unavailable

abbrev pub require_string : Option Json → Result Text
require_string (some (str s)) = ok s
require_string _ = unavailable

abbrev pub require_bool : Option Json → Result Bool
require_bool (some (bool b)) = ok b
require_bool _ = unavailable

-- `None`, also of a missing name, or a text
abbrev pub optional_string : Option Json → Result (Option Text)
optional_string none = ok none
optional_string (some Json.null) = ok none
optional_string (some (str s)) = ok (some s)
optional_string _ = unavailable

-- `text.strip()`, where an empty text is none
abbrev pub present_text : Text → Option Text
present_text [] = none
present_text (c ∷ s) = some (c ∷ s)

abbrev pub normalized_display_name : Option Text → Option Text
normalized_display_name none = none
normalized_display_name (some name) = present_text (strip is_space name)

abbrev pub check_status : ℕ → Result (Unit {0})
check_status status =
    if status == 404 then err external_user_profile_not_found else require (status == 200)

-- The payload's checks, in the order of the code
unfoldable pub profile_from_payload : Text → JsonObject → Result ExternalUserProfile
profile_from_payload subject payload = do
  returned_subject ← require_string (member (codes "id") payload)
  require (text_eq returned_subject subject)
  email ← require_string (member (codes "email") payload)
  require (not (text_eq (strip is_space email) []))
  email_verified ← require_bool (member (codes "email_verified") payload)
  display_name ← optional_string (member (codes "name") payload)
  ok (record {
    subject = returned_subject;
    email = strip is_space email;
    email_verified = email_verified;
    display_name = normalized_display_name display_name;
  })

module _ (get : Text → Result HttpResponse) where
  unfoldable pub fetch_user : Text → Result ExternalUserProfile
  fetch_user subject = do
    encoded_subject ← quote subject
    response ←
        unavailable_on is_http_error (get (codes "/user_management/users/" ++ encoded_subject))
    check_status response.status_code
    value ← unavailable_on is_value_error response.json
    payload ← require_object value
    profile_from_payload subject payload
