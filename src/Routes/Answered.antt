-- ===== src/Routes/Answered.antt =====
-- The calls of Routes/Calls, from the credentials to the answer.
use bff.Prelude.{Bool-cases, ℕ, Option, none, some, ◌≡◌, refl, ◌⊎◌, inl, inr}
use mathlib.Core.Path.{subst}
use bff.Result.{Result, ok, err}
use bff.Text.{Text, text_eq, codes}
use bff.Db.{Db}
use bff.Authentication.Models.{VerifiedAccessToken, AuthenticatedPrincipal}
use bff.Authentication.Service.{authenticate}
use bff.Connections.Service.{Platform}
use bff.Problems.Handlers.{Raised}
use bff.Problems.Responses.{RequestContext, Response}
use bff.Problems.Dispatch.{Find, ByKeys, respond}
use bff.Problems.Refusals.{IsOurs, IsErrorStatus, respond-Refuses}
use bff.Routes.Handling.{
  outcome, Outcome, returned, raised, service, fail, ◌>>=◌, Reply, Credentials,
  require_bearer_token, require_authenticated_principal, invalid_credentials,
}
use bff.Routes.Quiet.{IsQuiet, fail-IsQuiet, bind-IsQuiet}
use bff.Routes.Reads.{authenticate-rests}
use bff.Routes.Quietly.{route-IsQuiet}
use bff.Routes.Calls.{Call, Body, route, serve}

Outcome-cases :
    {A : Type 0} (o : Outcome A) → ((a : A) × (o ≡ returned a)) ⊎ ((e : Raised) × (o ≡ raised e))
Outcome-cases (returned a) = inl (a, refl)
Outcome-cases (raised e) = inr (e, refl)

module _ (p : Platform) (verify : ℕ → Text → Result VerifiedAccessToken) (clock : ℕ) where
  bearer_ours :
      (credentials : Option Credentials) (e : Raised)
      → require_bearer_token p.casefold credentials ≡ raised e
      → IsOurs e
  unfolding require_bearer_token
  bearer_ours none e h = let same : invalid_credentials ≡ e = cc in subst IsOurs same tt
  bearer_ours (some c) e h = elim (Bool-cases (text_eq (p.casefold c.scheme) (codes "bearer"))) [
    | inl q ↦ absurd (let bad = rw q at h in cc)
    | inr q ↦
        (let bad = rw q at h in let same : invalid_credentials ≡ e = cc in subst IsOurs same tt)
  ]

  serve-IsQuiet :
      (request : Option RequestContext) (credentials : Option Credentials) (call : Call)
      → IsQuiet (serve p request verify clock credentials call)
  unfolding serve require_authenticated_principal
  serve-IsQuiet request credentials call =
      served (require_bearer_token p.casefold credentials) (bearer_ours credentials)
    where
      served :
          (o : Outcome Text)
          → ((e : Raised) → o ≡ raised e → IsOurs e)
          → IsQuiet (
              (fail o >>= λ token. service (authenticate verify clock token)) >>= λ principal.
              route p request call principal)
      served (returned token) ours =
          bind-IsQuiet (authenticate verify clock token) (route p request call)
            (authenticate-rests verify clock token) (λ k. route-IsQuiet p request k call)
      served (raised e) ours =
          fail-IsQuiet (raised e) (route p request call)
            (λ x h. (let same : e ≡ x = cc in subst IsOurs same (ours e refl)))
            (λ k. route-IsQuiet p request k call)

  -- The bearer token of a caller authenticates the principal.
  abbrev pub IsCaller : Option Credentials → Db → AuthenticatedPrincipal → Type 0
  IsCaller credentials db principal =
      (token : Text) × ((require_bearer_token p.casefold credentials ≡ returned token)
        × ((authenticate verify clock token db).0 ≡ ok principal))

  served-IsCaller :
      (request : Option RequestContext) (credentials : Option Credentials) (call : Call) (db : Db)
      (r : Reply Body)
      → (serve p request verify clock credentials call db).0 ≡ returned r
      → (principal : AuthenticatedPrincipal) × IsCaller credentials db principal
  unfolding serve require_authenticated_principal
  served-IsCaller request credentials call db r h =
      go (require_bearer_token p.casefold credentials) refl h
    where
      caller :
          (out : Result AuthenticatedPrincipal × Db)
          → (((λ (d : Db). (outcome out.0, out.1)) >>= route p request call) db).0 ≡ returned r
          → (principal : AuthenticatedPrincipal) × (out.0 ≡ ok principal)
      caller (ok principal, d) h = (principal, refl)
      caller (err e, d) h = absurd (let bad = h in cc)

      go :
          (o : Outcome Text)
          → require_bearer_token p.casefold credentials ≡ o
          → (((fail o >>= λ token. service (authenticate verify clock token)) >>= λ principal.
                route p request call principal)
              db).0
            ≡ returned r
          → (principal : AuthenticatedPrincipal) × IsCaller credentials db principal
      go (returned token) e h =
          let (principal, known) = caller (authenticate verify clock token db) h in
          (principal, (token, (e, known)))
      go (raised x) e h = absurd (let bad = h in cc)

-- A call returns a reply, and then its bearer token authenticates a principal; or it raises an
-- exception, which is answered with a status from 400 to 599, and the tables are as they were. So it
-- is for every call but those of the two lists with cursors and of session provisioning, whoever makes
-- it, in the context of the request and under a framework that looks handlers up in its documented
-- order.
pub serve-answered :
    (p : Platform) (verify : ℕ → Text → Result VerifiedAccessToken) (clock : ℕ) (find : Find)
    → ByKeys find
    → (phrase : ℕ → Option Text) (context : RequestContext) (credentials : Option Credentials)
      (call : Call) (db : Db)
    → ((r : Reply Body) × (((serve p (some context) verify clock credentials call db).0
            ≡ returned r)
          × ((principal : AuthenticatedPrincipal) × IsCaller p verify clock credentials db
                principal)))
      ⊎ ((e : Raised) × (((serve p (some context) verify clock credentials call db).0 ≡ raised e)
            × (((serve p (some context) verify clock credentials call db).1 ≡ db)
                × ((r : Response) × ((respond find p.casefold phrase (some context) e ≡ ok r)
                      × IsErrorStatus r.status_code)))))
serve-answered p verify clock find by_keys phrase context credentials call db =
    elim (Outcome-cases (serve p (some context) verify clock credentials call db).0) [
      | inl (r, h) ↦
          inl (r, (h, served-IsCaller p verify clock (some context) credentials call db r h))
      | inr (e, h) ↦
          (let (ours, same) =
              (serve-IsQuiet p verify clock (some context) credentials call).quiet db e h in
            inr (e, (h, (same, respond-Refuses find by_keys p.casefold phrase context e ours))))
    ]
