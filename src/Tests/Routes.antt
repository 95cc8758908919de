-- ===== src/Tests/Routes.antt =====
-- The theorems on the routes, at a call to the small control plane.
use bff.Prelude.{ℕ, Option, none, some, ◌≡◌, refl, ◌⊎◌}
use bff.Result.{Result, ok}
use bff.Text.{Text, codes}
use bff.Authentication.Models.{VerifiedAccessToken, AuthenticatedPrincipal}
use bff.Problems.Handlers.{Raised}
use bff.Problems.Responses.{RequestContext, Response}
use bff.Problems.Dispatch.{Find, first_registered, keys, respond}
use bff.Problems.Refusals.{IsErrorStatus}
use bff.Routes.Handling.{Outcome, returned, raised, Reply, Credentials}
use bff.Routes.Calls.{Call, Body, serve}
use bff.Routes.Calls.{route}
use bff.Routes.Accounts.{get_me}
use bff.Routes.Handling.{require_authenticated_principal, require_bearer_token}
use bff.Text.{text_eq}
use bff.Authentication.Service.{authenticate}
use bff.Authentication.Principals.{resolve_active_principal}
use bff.Authentication.Statements.{
  select_principal, join_sessions, select_identity, join_users, join_user, join_session,
}
use bff.Routes.Answered.{IsCaller, serve-answered}
use bff.Tests.{sample, platform}

abbrev verify : ℕ → Text → Result VerifiedAccessToken
verify clock token = ok (record {
  issuer = codes "iss";
  subject = token;
  provider_session_id = codes "s1";
  token_id = codes "t";
  issued_at = 0;
  expires_at = 99;
})

abbrev find : Find
find = λ table exc. first_registered table (keys exc)

abbrev no_phrase : ℕ → Option Text
no_phrase = λ status. none

abbrev context : RequestContext
context = record { request_id = 7; trace_id = none; started_at = 0 }

abbrev ada : Option Credentials
ada = some (record { scheme = codes "bearer"; credentials = codes "ada" })

abbrev call : Call
call = Call.get_workspace 1

answered_example :
    ((r : Reply Body) × (((serve platform (some context) verify 5 ada call sample).0 ≡ returned r)
        × ((principal : AuthenticatedPrincipal) × IsCaller platform verify 5 ada sample principal)))
    ⊎ ((e : Raised) × (((serve platform (some context) verify 5 ada call sample).0 ≡ raised e)
          × (((serve platform (some context) verify 5 ada call sample).1 ≡ sample)
              × ((r : Response) × ((respond find platform.casefold no_phrase (some context) e
                      ≡ ok r)
                    × IsErrorStatus r.status_code)))))
answered_example =
    serve-answered platform verify 5 find (λ table exc. refl) no_phrase context ada call sample

abbrev status_of : Outcome (Reply Body) → ℕ
status_of (returned r) = r.status_code
status_of (raised e) = 0

served_test : status_of (serve platform (some context) verify 5 ada Call.get_me sample).0 ≡ 200
unfolding serve require_authenticated_principal require_bearer_token text_eq authenticate
    resolve_active_principal select_principal join_sessions select_identity join_users join_user
    join_session route get_me
served_test = refl
