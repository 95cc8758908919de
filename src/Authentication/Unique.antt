-- ===== src/Authentication/Unique.antt =====
-- Under the keys of the tables, the queries of the accounts find the row of an admitted session alone.
use bff.Prelude.{
  ◌≡◌, refl, sym, ap, ◌∙◌, Bool, true, ◌&&◌, ◌==◌, ◌<◌, none, some, List, [], ◌∷◌, map, filter,
  filter-filter, filter_unique, arith,
}
use mathlib.Core.List.{append-nil}
use bff.Result.{ok}
use bff.Text.{Text, text_eq, text_eq_iff}
use bff.Db.{Db, UserRow, IdentityRow, SessionRow}
use bff.Authentication.Models.{VerifiedAccessToken, ProvisionedSession, ActiveIdentity}
use bff.Authentication.Statements.{
  is_session, join_users, select_identity, is_identity, is_active_row, is_live, join_sessions,
  select_principal,
}
use bff.Authentication.Joins.{IsRow, join_user-filter, join_session-filter}
use bff.Authentication.Consistency.{IsConsistent, same_subject, same_session}
use bff.Authentication.Admitted.{Admitted}
use bff.Authentication.Reads.{principal}
use bff.Authentication.Principals.{resolve_active_principal, principal_from_row}

filter-map :
    {A B : Type 0} (p : B → Bool) (f : A → B) (xs : List A)
    → filter p (map f xs) ≡ map f (filter (λ x. p (f x)) xs)
filter-map p f [] = refl
filter-map p f (x ∷ xs) = ground (arith, filter-map p f xs)

module _ (issuer subject : Text) (db : Db) (keys : IsConsistent none db) (r : IdentityRow × UserRow)
    (stored : IsRow issuer subject db r) where
  one_identity : filter (is_identity issuer subject) db.identities ≡ r.0 ∷ []
  one_identity =
      filter_unique same_subject (is_identity issuer subject)
        (λ y z h k. ground (
          arith,
          text_eq_iff y.issuer issuer,
          text_eq_iff z.issuer issuer,
          text_eq_iff y.subject subject,
          text_eq_iff z.subject subject,
          text_eq_iff y.issuer z.issuer,
          text_eq_iff y.subject z.subject,
        ))
        db.identities r.0 keys.subjects stored.identity
        (ground (
          arith,
          stored.same_issuer,
          stored.same_subject,
          text_eq_iff r.0.issuer issuer,
          text_eq_iff r.0.subject subject,
        ))

  one_user : filter (λ u. u.id == r.0.user_id) db.users ≡ r.1 ∷ []
  one_user =
      filter_unique (λ u v. u.id == v.id) (λ u. u.id == r.0.user_id) (λ y z h k. ground arith)
        db.users r.1 keys.user_ids stored.user (ground (arith, stored.joined))

  -- With unique subjects and users the query finds one row.
  pub select_identity-row : select_identity issuer subject db ≡ r ∷ []
  unfolding select_identity join_users
  select_identity-row = rw (one_identity, join_user-filter r.0 db.users, one_user) refl

module _ (token : VerifiedAccessToken) (r : ProvisionedSession) (db : Db)
    (keys : IsConsistent none db) (m : Admitted token r db) where
  pub is_session-found :
      is_session m.identity.identity_id token.provider_session_id m.session ≡ true
  is_session-found = ground (
    arith,
    m.of_identity,
    m.of_token,
    text_eq_iff m.session.provider_session_id token.provider_session_id,
  )

  -- With unique sessions of an identity the query finds one row.
  pub one_session :
      filter (is_session m.identity.identity_id token.provider_session_id) db.auth_sessions
      ≡ m.session ∷ []
  one_session =
      filter_unique same_session (is_session m.identity.identity_id token.provider_session_id)
        (λ y z h k. ground (
          arith,
          text_eq_iff y.provider_session_id token.provider_session_id,
          text_eq_iff z.provider_session_id token.provider_session_id,
          text_eq_iff y.provider_session_id z.provider_session_id,
        ))
        db.auth_sessions m.session keys.sessions m.open_session is_session-found

  abbrev row : IdentityRow × UserRow
  row = m.known.row

  abbrev of_row : SessionRow → Bool
  of_row s =
      s.user_auth_identity_id == row.0.id
      && (is_active_row row
          && (text_eq s.provider_session_id token.provider_session_id && is_live db s))

  same : (y z : SessionRow) → of_row y ≡ true → of_row z ≡ true → same_session y z ≡ true
  same y z h k = ground (
    arith,
    text_eq_iff y.provider_session_id token.provider_session_id,
    text_eq_iff z.provider_session_id token.provider_session_id,
    text_eq_iff y.provider_session_id z.provider_session_id,
  )

  found : db.now < r.expires_at → of_row m.session ≡ true
  found h =
      let this : m.session.user_auth_identity_id ≡ row.0.id =
        m.of_identity ∙ ap (λ (a : ActiveIdentity). a.identity_id) m.known.shown in
      let active = m.known.active in
      let expires = m.same_expiry in
      let unrevoked = m.unrevoked in
      let provider = m.of_token in
      let text = (text_eq_iff m.session.provider_session_id token.provider_session_id).1 provider in
      ground arith

  pub select_principal-row :
      db.now < r.expires_at
      → select_principal token.issuer token.subject token.provider_session_id db
        ≡ (row, m.session) ∷ []
  unfolding select_principal join_sessions
  select_principal-row h =
      rw (select_identity-row token.issuer token.subject db keys row m.known.stored) (
        rw (append-nil, join_session-filter row db.auth_sessions, filter-map, filter-filter)
          (ap (map (λ s. (row, s))) (
            filter_unique same_session of_row same db.auth_sessions m.session keys.sessions
              m.open_session (found h))))

  -- What the repository returns for the token of the session.
  pub resolve-principal :
      db.now < r.expires_at → resolve_active_principal token db ≡ ok (some r.principal)
  unfolding resolve_active_principal
  resolve-principal h = rw (select_principal-row h) (ap (λ p. ok (some p)) shown)
    where
      shown : principal_from_row (row, m.session) ≡ r.principal
      shown =
          ap (λ (a : ActiveIdentity). principal a m.session.id) (sym m.known.shown)
          ∙ sym m.same_principal
