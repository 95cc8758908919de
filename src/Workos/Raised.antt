-- ===== src/Workos/Raised.antt =====
-- What `WorkOSAccessTokenVerifier` of infrastructure/auth/workos.py raises.
use bff.Prelude.{
  ℕ, [], ◌+◌, negsuc, Bool-cases, ◌∷◌, pos, ℤ, Bool, true, false, ◌≡◌, refl, ◌⊎◌, inl, inr, Option,
  none, some, ltb, ltb_ℤ, not, ◌||◌, length,
}
use bff.Result.{
  Error, Result, ok, err, ◌>>=◌, access_token_verification, value_error, os_error, jwt_error,
  jwk_client_error,
}
use bff.Text.{Text, codes, text_eq}
use mathlib.Core.Path.{subst}
use bff.Json.{obj, arr, bool, str, int, Json, JsonObject, member}
use bff.Workos.Times.{
  min_gmtime, unix_epoch, max_gmtime, max_time, time_limit, fromtimestamp, out_of_range,
}
use bff.Workos.Tokens.{
  DecodeOptions, AuthenticationSettings, Jwt, decode_options, non_empty_string,
  required_non_empty_string, integer, required_timestamp, is_signing_algorithm, refuse, handled,
  guarded, claims_from_payload, decoded_payload, verify_sync, verify,
}

module _ (P : Error → Type 0) where
  -- A computation raises nothing but errors that satisfy `P`.
  abbrev pub RaisesOnly : {A : Type 0} → Result A → Type 0
  RaisesOnly (ok a) = Unit
  RaisesOnly (err e) = P e

  RaisesOnly-bind :
      {A B : Type 0} (m : Result A) (f : A → Result B)
      → RaisesOnly m
      → ((a : A) → RaisesOnly (f a))
      → RaisesOnly (m >>= f)
  RaisesOnly-bind (ok a) f h k = k a
  RaisesOnly-bind (err e) f h k = h

  RaisesOnly-err : {A : Type 0} (m : Result A) (e : Error) → m ≡ err e → RaisesOnly m → P e
  RaisesOnly-err (ok a) e same h = cc
  RaisesOnly-err (err f) e same h = let equal : f ≡ e = cc in subst P equal h

-- The errors of PyJWT and its client of signing keys
abbrev pub IsJwtError : Error → Type 0
IsJwtError jwt_error = Unit
IsJwtError jwk_client_error = Unit
IsJwtError value_error = Unit
IsJwtError _ = ⊥

abbrev Expected : Error → Type 0
Expected e = (handled e ≡ access_token_verification) ⊎ (e ≡ os_error)

non_empty_string-RaisesOnly : (o : Option Json) → RaisesOnly Expected (non_empty_string o)
non_empty_string-RaisesOnly (some (str [])) = inl refl
non_empty_string-RaisesOnly (some (str (c ∷ s))) = tt
non_empty_string-RaisesOnly none = inl refl
non_empty_string-RaisesOnly (some Json.null) = inl refl
non_empty_string-RaisesOnly (some (bool b)) = inl refl
non_empty_string-RaisesOnly (some (int n)) = inl refl
non_empty_string-RaisesOnly (some (arr l)) = inl refl
non_empty_string-RaisesOnly (some (obj m)) = inl refl

integer-RaisesOnly : (o : Option Json) → RaisesOnly Expected (integer o)
integer-RaisesOnly (some (int n)) = tt
integer-RaisesOnly none = inl refl
integer-RaisesOnly (some Json.null) = inl refl
integer-RaisesOnly (some (bool b)) = inl refl
integer-RaisesOnly (some (str s)) = inl refl
integer-RaisesOnly (some (arr l)) = inl refl
integer-RaisesOnly (some (obj m)) = inl refl

refuse-RaisesOnly : (b : Bool) → RaisesOnly Expected (refuse b)
refuse-RaisesOnly true = inl refl
refuse-RaisesOnly false = tt

out_of_range-Expected : (a : ℤ) → Expected (out_of_range a)
out_of_range-Expected (pos n) = elim (Bool-cases (ltb n time_limit)) [
  | inl e ↦ elim (Bool-cases (ltb max_gmtime n)) [
    | inl q ↦ rw (e, q) (inr refl)
    | inr q ↦ rw (e, q) (inl refl)
  ]
  | inr e ↦ rw e (inl refl)
]
out_of_range-Expected (negsuc n) = elim (Bool-cases (ltb n time_limit)) [
  | inl e ↦ elim (Bool-cases (ltb min_gmtime (n + 1))) [
    | inl q ↦ rw (e, q) (inr refl)
    | inr q ↦ rw (e, q) (inl refl)
  ]
  | inr e ↦ rw e (inl refl)
]

fromtimestamp-RaisesOnly : (a : ℤ) → RaisesOnly Expected (fromtimestamp a)
unfolding fromtimestamp
fromtimestamp-RaisesOnly (pos n) = elim (Bool-cases (ltb max_time n)) [
  | inl e ↦ rw e (out_of_range-Expected (pos n))
  | inr e ↦ rw e tt
]
fromtimestamp-RaisesOnly (negsuc n) = elim (Bool-cases (ltb n unix_epoch)) [
  | inl e ↦ rw e tt
  | inr e ↦ rw e (out_of_range-Expected (negsuc n))
]

IsJwtError-Expected : (e : Error) → IsJwtError e → Expected e
IsJwtError-Expected jwt_error h = inl refl
IsJwtError-Expected jwk_client_error h = inl refl
IsJwtError-Expected value_error h = inl refl
IsJwtError-Expected e h = elim h [ ]

RaisesOnly-imp :
    {A : Type 0} (P Q : Error → Type 0) (m : Result A)
    → ((e : Error) → P e → Q e)
    → RaisesOnly P m
    → RaisesOnly Q m
RaisesOnly-imp P Q (ok a) f h = tt
RaisesOnly-imp P Q (err e) f h = f e h

claims_from_payload-RaisesOnly :
    (settings : AuthenticationSettings) (payload : JsonObject)
    → RaisesOnly Expected (claims_from_payload settings payload)
unfolding claims_from_payload required_non_empty_string required_timestamp
claims_from_payload-RaisesOnly settings payload = text (codes "client_id") _ (λ client_id.
    step (refuse (not (text_eq client_id settings.client_id))) _ (refuse-RaisesOnly _) (λ u.
      text (codes "iss") _ (λ issuer. text (codes "sub") _ (λ subject. text (codes "sid") _ (λ sid.
        text (codes "jti") _ (λ jti. time (codes "iat") _ (λ a. time (codes "exp") _ (λ b.
          step (refuse (not (ltb_ℤ a b))) _ (refuse-RaisesOnly _) (λ w.
            step (fromtimestamp a) _ (fromtimestamp-RaisesOnly a) (λ issued.
              step (fromtimestamp b) _ (fromtimestamp-RaisesOnly b) (λ expires. tt)))))))))))
  where
    step :
        {A B : Type 0} (m : Result A) (f : A → Result B)
        → RaisesOnly Expected m
        → ((a : A) → RaisesOnly Expected (f a))
        → RaisesOnly Expected (m >>= f)
    step = RaisesOnly-bind Expected

    text :
        {B : Type 0} (claim : Text) (f : Text → Result B)
        → ((a : Text) → RaisesOnly Expected (f a))
        → RaisesOnly Expected (non_empty_string (member claim payload) >>= f)
    text claim f k =
        step (non_empty_string (member claim payload)) f (non_empty_string-RaisesOnly _) k

    time :
        {B : Type 0} (claim : Text) (f : ℤ → Result B)
        → ((a : ℤ) → RaisesOnly Expected (f a))
        → RaisesOnly Expected (integer (member claim payload) >>= f)
    time claim f k = step (integer (member claim payload)) f (integer-RaisesOnly _) k

-- What PyJWT and its client document: they raise only their own errors and `ValueError`.
pub record RaisesJwtErrors {K : Type 0} (jwt : Jwt K) : Type 0 where
  pub header : (token : Text) → RaisesOnly IsJwtError (jwt.get_unverified_header token)
  pub signing_key : (kid : Text) → RaisesOnly IsJwtError (jwt.get_signing_key kid)
  pub decoding :
      (clock : ℕ) (token : Text) (key : K) (options : DecodeOptions)
      → RaisesOnly IsJwtError (jwt.decode clock token key options)

module _ {K : Type 0} (settings : AuthenticationSettings) (jwt : Jwt K)
    (raises : RaisesJwtErrors jwt) where
  decoded_payload-RaisesOnly :
      (clock : ℕ) (token : Text) → RaisesOnly Expected (decoded_payload settings jwt clock token)
  unfolding decoded_payload
  decoded_payload-RaisesOnly clock token =
      expected (jwt.get_unverified_header token) _ (raises.header token) (λ header.
        RaisesOnly-bind Expected (refuse (not (is_signing_algorithm (member (codes "alg") header))))
          _ (refuse-RaisesOnly _)
          (λ u.
            RaisesOnly-bind Expected (non_empty_string (member (codes "kid") header)) _
              (non_empty_string-RaisesOnly _)
              (λ kid. expected (jwt.get_signing_key kid) _ (raises.signing_key kid) (λ key.
                RaisesOnly-imp IsJwtError Expected
                  (jwt.decode clock token key (decode_options settings)) IsJwtError-Expected
                  (raises.decoding clock token key (decode_options settings))))))
    where
      expected :
          {A B : Type 0} (m : Result A) (f : A → Result B)
          → RaisesOnly IsJwtError m
          → ((a : A) → RaisesOnly Expected (f a))
          → RaisesOnly Expected (m >>= f)
      expected m f h k =
          RaisesOnly-bind Expected m f (RaisesOnly-imp IsJwtError Expected m IsJwtError-Expected h)
            k

  abbrev Refusal : Error → Type 0
  Refusal e = (e ≡ access_token_verification) ⊎ (e ≡ os_error)

  Expected-handled : (e : Error) → Expected e → Refusal (handled e)
  Expected-handled e (inl h) = inl h
  Expected-handled e (inr h) = inr (rw h refl)

  guarded-RaisesOnly :
      {A : Type 0} (m : Result A) → RaisesOnly Expected m → RaisesOnly Refusal (guarded m)
  guarded-RaisesOnly (ok a) h = tt
  guarded-RaisesOnly (err e) h = Expected-handled e h

  verify-RaisesOnly :
      (clock : ℕ) (token : Text) → RaisesOnly Refusal (verify settings jwt clock token)
  unfolding verify verify_sync
  verify-RaisesOnly clock token =
      RaisesOnly-bind Refusal
        (refuse (text_eq token [] || ltb settings.max_bearer_token_length (length token))) _
        (refused _)
        (λ u.
          guarded-RaisesOnly
            (decoded_payload settings jwt clock token >>= claims_from_payload settings)
            (RaisesOnly-bind Expected (decoded_payload settings jwt clock token)
              (claims_from_payload settings) (decoded_payload-RaisesOnly clock token)
              (claims_from_payload-RaisesOnly settings)))
    where
      refused : (b : Bool) → RaisesOnly Refusal (refuse b)
      refused true = inl refl
      refused false = tt

  -- If PyJWT and its client of keys raise nothing but their own errors and `ValueError`, whatever is
  -- raised for a token is an `AccessTokenVerificationError`, or an `OSError`, which is not handled.
  pub verify-raised :
      (clock : ℕ) (token : Text) (e : Error)
      → verify settings jwt clock token ≡ err e
      → (e ≡ access_token_verification) ⊎ (e ≡ os_error)
  verify-raised clock token e h =
      RaisesOnly-err Refusal (verify settings jwt clock token) e h (verify-RaisesOnly clock token)
