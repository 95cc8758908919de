-- ===== src/Routes/Handling.antt =====
-- Route handlers as computations on the tables that may raise what the framework handles, the
-- dependencies of api/dependencies/authentication.py, and the checks of request bodies.
use bff.Prelude.{ℕ, ltb, not, if◌then◌else◌, Option, none, some, List, [], ◌∷◌, ◌++◌, length}
use bff.Result.{Error, Result, ok, err, value_error}
use bff.Text.{Text, codes, text_eq}
use bff.Db.{Db, Tx}
use bff.Problems.Codes.{auth_invalid_credentials}
use bff.Problems.Pointer.{name}
use bff.Problems.Responses.{Headers}
use bff.Problems.Handlers.{RawPart, Raised, problem, domain, invalid_request, RequestError, part}
use bff.Authentication.Models.{VerifiedAccessToken, AuthenticatedPrincipal}
use bff.Authentication.Service.{authenticate}

pub data Outcome (A : Type 0) : Type 0 where
  returned : A → Outcome A
  raised : Raised → Outcome A

abbrev pub Handler : Type 0 → Type 0
Handler A = Db → Outcome A × Db

abbrev pub outcome : {A : Type 0} → Result A → Outcome A
outcome (ok a) = returned a
outcome (err e) = raised (domain e)

-- A call of a domain service
abbrev pub service : {A : Type 0} → Tx A → Handler A
service m db = (outcome (m db).0, (m db).1)

abbrev pub fail : {A : Type 0} → Outcome A → Handler A
fail o db = (o, db)

infixl 5 ◌>>=◌
abbrev pub ◌>>=◌ : {A B : Type 0} → Handler A → (A → Handler B) → Handler B
◌>>=◌ m f db = let (o, db') = m db in elim o [ returned a ↦ f a db' | raised e ↦ (raised e, db') ]

-- `HTTPAuthorizationCredentials`
pub record Credentials : Type 0 where
  pub scheme : Text
  pub credentials : Text

abbrev pub invalid_credentials : Raised
invalid_credentials =
    problem auth_invalid_credentials ((codes "WWW-Authenticate", codes "Bearer") ∷ [])

module _ (casefold : Text → Text) where
  unfoldable pub require_bearer_token : Option Credentials → Outcome Text
  require_bearer_token none = raised invalid_credentials
  require_bearer_token (some c) =
      if not (text_eq (casefold c.scheme) (codes "bearer"))
      then raised invalid_credentials
      else returned c.credentials

  -- `require_authenticated_principal`, for the verifier of the application's authenticator
  -- and the time that it reads
  unfoldable pub require_authenticated_principal :
      (ℕ → Text → Result VerifiedAccessToken)
      → ℕ
      → Option Credentials
      → Handler AuthenticatedPrincipal
  require_authenticated_principal verify clock credentials = do
    token ← fail (require_bearer_token credentials)
    service (authenticate verify clock token)

-- What a route returns: the status, the headers that it sets, and the body of its response model
pub record Reply (B : Type 0) : Type 0 where
  pub status_code : ℕ
  pub headers : Headers
  pub body : B

abbrev pub no_store : Text × Text
no_store = (codes "Cache-Control", codes "no-store")

-- `response.headers["Cache-Control"] = "no-store"`, with the default status
abbrev pub reply : {B : Type 0} → B → Reply B
reply body = record { status_code = 200; headers = no_store ∷ []; body = body }

-- `status_code=status.HTTP_201_CREATED`, with the `Location` of what was created
abbrev pub created : {B : Type 0} → Text → B → Reply B
created location body = record {
  status_code = 201;
  headers = (codes "Location", location) ∷ no_store ∷ [];
  body = body;
}

-- A body that pydantic has checked: a validator's `ValueError` is an item of the request's errors,
-- and another exception is raised.
pub data Checked (A : Type 0) : Type 0 where
  accepted : A → Checked A
  rejected : List RequestError → Checked A
  broken : Error → Checked A

abbrev pub body_error : List Text → Text → List RequestError
body_error fields kind =
    record { loc = part (name (codes "body")) ∷ located fields; error_type = kind } ∷ []
  where
    located : List Text → List RawPart
    located [] = []
    located (f ∷ fields) = part (name f) ∷ located fields

-- A validator at a field
unfoldable pub validator : {A : Type 0} → List Text → Result A → Checked A
validator fields (ok a) = accepted a
validator fields (err value_error) = rejected (body_error fields (codes "value_error"))
validator fields (err e) = broken e

-- `Field(min_length=1, max_length=...)` and the field's validator
unfoldable pub checked_text : Text → ℕ → (Text → Result Text) → Text → Checked Text
checked_text field_name max_length normalize value =
    if ltb (length value) 1
    then rejected (body_error (field_name ∷ []) (codes "string_too_short"))
    else if ltb max_length (length value)
    then rejected (body_error (field_name ∷ []) (codes "string_too_long"))
    else validator (field_name ∷ []) (normalize value)

-- The fields of one body: the errors of all of them are reported.
unfoldable pub both : {A B : Type 0} → Checked A → Checked B → Checked (A × B)
both (accepted a) (accepted b) = accepted (a, b)
both (accepted a) (rejected errors) = rejected errors
both (rejected errors) (accepted b) = rejected errors
both (rejected errors) (rejected more) = rejected (errors ++ more)
both (broken e) c = broken e
both c (broken e) = broken e

unfoldable pub checked : {A : Type 0} → Checked A → Outcome A
checked (accepted a) = returned a
checked (rejected errors) = raised (invalid_request errors)
checked (broken e) = raised (domain e)
