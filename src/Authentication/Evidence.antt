-- ===== src/Authentication/Evidence.antt =====
-- What a successful `authenticate` rests on.
use mathlib.Core.Option
use bff.Authentication.Authenticated.{verified_token, authenticates}
use bff.Authentication.Admitted.{Admitted}
use bff.Authentication.Consistency.{IsConsistent}
use bff.Authentication.Unique.{resolve-principal}
use bff.Authentication.Reads.{active_identity_from_row}
use bff.Prelude.{
  ℕ, ◌↔◌, false, ◌==◌, ◌≡◌, refl, sym, ap, ◌∙◌, Bool, true, ◌&&◌, Option, none, some, List, [], ◌∷◌,
  In, All, All-append, All-imp, map-All, filter-In, All-lookup, arith,
}
use bff.Result.{principal_authentication, Result, ok, >>=_ok}
use bff.Text.{Text, text_eq, text_eq_iff}
use bff.Db.{Db, UserRow, IdentityRow, SessionRow}
use bff.Db.Rules.{Post, Post-ok, lift_rule, query_rule, query_last}
use bff.Connections.Rows.{single}
use bff.Connections.Repository.Queries.{one_or_none}
use bff.Authentication.Models.{VerifiedAccessToken, AuthenticatedPrincipal, ProvisionedSession}
use bff.Authentication.Statements.{
  is_active_row, is_live, join_sessions, select_principal, select_identity,
}
use bff.Authentication.Joins.{IsRow, select_identity-IsRow, join_session-filter}
use bff.Authentication.Principals.{resolve_active_principal, principal_from_row}
use bff.Authentication.Service
use bff.Authentication.Service.{verification_failed, require_principal}

abbrev AccountRow : Type 0
AccountRow = (IdentityRow × UserRow) × SessionRow

-- The rows of one identity, its user and a session of it.
abbrev Joined : Text → Text → Db → AccountRow → Type 0
Joined issuer subject db (r, s) =
    IsRow issuer subject db r × (In s db.auth_sessions × (s.user_auth_identity_id ≡ r.0.id))

join-Joined :
    (issuer subject : Text) (db : Db) (rs : List (IdentityRow × UserRow))
    → All (IsRow issuer subject db) rs
    → All (Joined issuer subject db) (join_sessions rs db.auth_sessions)
unfolding join_sessions
join-Joined issuer subject db [] h = tt
join-Joined issuer subject db (r ∷ rs) h =
    All-append (Joined issuer subject db) _ (join_sessions rs db.auth_sessions)
      (rw (join_session-filter r db.auth_sessions) (
        map-All (Joined issuer subject db) (λ s. (r, s)) _
          (All-imp _ _ _ (λ s e. (h.0, (e.1, ground arith)))
            (filter-In (λ s. s.user_auth_identity_id == r.0.id) db.auth_sessions))))
      (join-Joined issuer subject db rs h.1)

-- The admission that the token of `v` has, and the principal that it shows.
pub record IsAdmitted (v : VerifiedAccessToken) (q : AuthenticatedPrincipal) (db : Db)
    : Type 0 where
  pub row : IdentityRow × UserRow
  pub session : SessionRow
  pub stored : IsRow v.issuer v.subject db row
  pub active : is_active_row row ≡ true
  pub open_session : In session db.auth_sessions
  pub of_identity : session.user_auth_identity_id ≡ row.0.id
  pub of_token : session.provider_session_id ≡ v.provider_session_id
  pub live : is_live db session ≡ true
  pub shown : q ≡ principal_from_row (row, session)

abbrev passes : VerifiedAccessToken → Db → AccountRow → Bool
passes v db r =
    is_active_row r.0 && (text_eq r.1.provider_session_id v.provider_session_id && is_live db r.1)

-- The row that the query finds.
selected :
    (v : VerifiedAccessToken) (db : Db) (r : AccountRow)
    → select_principal v.issuer v.subject v.provider_session_id db ≡ r ∷ []
    → (passes v db r ≡ true) × Joined v.issuer v.subject db r
unfolding select_principal
selected v db r h =
    let rows = join_sessions (select_identity v.issuer v.subject db) db.auth_sessions in
    let found = (rw h at (filter-In (passes v db) rows)).0 in
    (
      found.0,
      All-lookup (Joined v.issuer v.subject db) rows
          (join-Joined v.issuer v.subject db _ (select_identity-IsRow v.issuer v.subject db))
          found.1,
    )

admitted :
    (v : VerifiedAccessToken) (q : AuthenticatedPrincipal) (db : Db) (r : AccountRow)
    → select_principal v.issuer v.subject v.provider_session_id db ≡ r ∷ []
    → principal_from_row r ≡ q
    → IsAdmitted v q db
admitted v q db r h k =
    let (pass, (stored, (there, of_identity))) = selected v db r h in
    record {
      row = r.0;
      session = r.1;
      stored = stored;
      active = ground arith;
      open_session = there;
      of_identity = of_identity;
      of_token = ground (arith, text_eq_iff r.1.provider_session_id v.provider_session_id);
      live = ground arith;
      shown = sym k;
    }

module _ (verify : ℕ → Text → Result VerifiedAccessToken) (clock : ℕ) (token : Text) where
  -- What a success has found.
  abbrev Rests : Db → AuthenticatedPrincipal → Db → Type 0
  Rests db q d =
      (d ≡ db) × ((v : VerifiedAccessToken) × ((verify clock token ≡ ok v) × IsAdmitted v q db))

  found_one :
      (found : Option AuthenticatedPrincipal) (q : AuthenticatedPrincipal)
      → ok none ≡ ok found
      → require_principal found ≡ ok q
      → ⊥
  found_one none q j k = cc
  found_one (some p) q j k = cc

  found_shown :
      (r : AccountRow) (found : Option AuthenticatedPrincipal) (q : AuthenticatedPrincipal)
      → ok (some (principal_from_row r)) ≡ ok found
      → require_principal found ≡ ok q
      → principal_from_row r ≡ q
  found_shown r none q j k = absurd (cc)
  found_shown r (some p) q j k = cc

  shown_row :
      (v : VerifiedAccessToken) (q : AuthenticatedPrincipal) (db : Db)
      (found : Option AuthenticatedPrincipal)
      → resolve_active_principal v db ≡ ok found
      → require_principal found ≡ ok q
      → IsAdmitted v q db
  unfolding resolve_active_principal
  shown_row v q db found h k =
      let rows = select_principal v.issuer v.subject v.provider_session_id db in
      let (row, (read, j)) = >>=_ok (one_or_none rows) _ found h in go row read j
    where
      go :
          (row : Option AccountRow)
          → one_or_none (select_principal v.issuer v.subject v.provider_session_id db) ≡ ok row
          → ok (Option.map principal_from_row row) ≡ ok found
          → IsAdmitted v q db
      go none read j = absurd (found_one found q j k)
      go (some r) read j = admitted v q db r (single _ r read) (found_shown r found q j k)

  authenticate-Rests : (db : Db) → Post (Rests db) (Service.authenticate verify clock token) db
  unfolding Service.authenticate
  authenticate-Rests db =
      lift_rule (Rests db) db (verification_failed principal_authentication (verify clock token)) _
        λ v e. query_rule (Rests db) db (resolve_active_principal v) _ λ found h.
          query_last (Rests db) db (λ _. require_principal found)
            (λ q k.
              (refl, (v, (verified_token _ (verify clock token) v e, shown_row v q db found h k))))

  -- The session that an admission would be provisioned as.
  abbrev as_session :
      (v : VerifiedAccessToken) (q : AuthenticatedPrincipal) (db : Db)
      → IsAdmitted v q db
      → ProvisionedSession
  as_session v q db m = record { principal = q; expires_at = m.session.expires_at; created = false }

  IsAdmitted-Admitted :
      (v : VerifiedAccessToken) (q : AuthenticatedPrincipal) (db : Db) (m : IsAdmitted v q db)
      → Admitted v (as_session v q db m) db
  IsAdmitted-Admitted v q db m = record {
    identity = active_identity_from_row m.row;
    known = record { row = m.row; stored = m.stored; active = m.active; shown = refl };
    session = m.session;
    open_session = m.open_session;
    of_identity = m.of_identity;
    of_token = m.of_token;
    unrevoked = ground (arith, m.live);
    same_expiry = refl;
    same_principal = m.shown;
  }

  -- Under the keys of the tables a token authenticates as a principal exactly if it verifies, and its
  -- subject is an identity, active as its user, whose session of the token is not revoked and has not expired;
  -- the principal is what these rows show, and nothing is changed.
  pub authenticate_iff :
      (q : AuthenticatedPrincipal) (db d : Db)
      → IsConsistent none db
      → (Service.authenticate verify clock token db ≡ (ok q, d)) ↔ (
          (d ≡ db)
          × ((v : VerifiedAccessToken) × ((verify clock token ≡ ok v) × IsAdmitted v q db)))
  authenticate_iff q db d keys = (
    λ h. Post-ok (Rests db) (Service.authenticate verify clock token) db (authenticate-Rests db) h,
    λ (same, (v, (e, m))).
        authenticates verify clock token v q db e (
          resolve-principal v (as_session v q db m) db keys (IsAdmitted-Admitted v q db m)
            (ground (arith, m.live)))
        ∙ ap (λ x. (ok q, x)) (sym same),
  )
