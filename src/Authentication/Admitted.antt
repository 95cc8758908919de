-- ===== src/Authentication/Admitted.antt =====
-- What `provision` has established when it succeeds, beside others that only add accounts: a row of an
-- active identity with its user, and a session of it.
use bff.Prelude.{
  All-lookup, ℕ, ◌≡◌, refl, true, false, ◌&&◌, ◌==◌, Option, none, some, In, filter-In, arith,
}
use mathlib.Core.Path.{subst}
use bff.Result.{ok, >>=_ok}
use bff.Text.{Text, text_eq_iff}
use bff.Db.{Db, UserRow, IdentityRow, SessionRow}
use bff.Connections.Rows.{single}
use bff.Connections.Repository.Queries.{one_or_none}
use bff.Authentication.Models.{VerifiedAccessToken, ProvisionedSession, ActiveIdentity}
use bff.Authentication.Statements.{
  select_identity, select_active_identity, is_active_row, is_live, select_session, is_session,
  new_user, new_identity, new_session,
}
use bff.Authentication.Reads.{
  principal, find_exact_identity, find_session, lock_active_identity, require_active,
  require_locked, active_identity_from_row, reuse_session, one,
}
use bff.Authentication.Joins.{IsRow, select_identity-IsRow}

-- `a` is what the row of an active identity of the token shows.
pub record Known (token : VerifiedAccessToken) (a : ActiveIdentity) (db : Db) : Type 0 where
  pub row : IdentityRow × UserRow
  pub stored : IsRow token.issuer token.subject db row
  pub active : is_active_row row ≡ true
  pub shown : a ≡ active_identity_from_row row

pub record Admitted (token : VerifiedAccessToken) (r : ProvisionedSession) (db : Db) : Type 0 where
  pub identity : ActiveIdentity
  pub known : Known token identity db
  pub session : SessionRow
  pub open_session : In session db.auth_sessions
  pub of_identity : session.user_auth_identity_id ≡ identity.identity_id
  pub of_token : session.provider_session_id ≡ token.provider_session_id
  pub unrevoked : session.revoked_at ≡ none
  pub same_expiry : session.expires_at ≡ r.expires_at
  pub same_principal : r.principal ≡ principal identity session.id

abbrev pub reused_session : ActiveIdentity → SessionRow → ProvisionedSession
reused_session a s = record {
  principal = principal a s.id;
  expires_at = s.expires_at;
  created = false;
}

module _ (token : VerifiedAccessToken) (db : Db) where
  exact-IsRow :
      (r : IdentityRow × UserRow)
      → find_exact_identity token db ≡ ok (some r)
      → IsRow token.issuer token.subject db r
  exact-IsRow r h =
      (rw (single (select_identity token.issuer token.subject db) r h) at
        (select_identity-IsRow token.issuer token.subject db)).0

  pub require_active-Known :
      (r : IdentityRow × UserRow) (a : ActiveIdentity)
      → find_exact_identity token db ≡ ok (some r)
      → require_active r ≡ ok a
      → Known token a db
  require_active-Known r a h k = record {
    row = r;
    stored = exact-IsRow r h;
    active = ground arith;
    shown = ground arith;
  }

  pub lock-Known :
      (id : ℕ) (a : ActiveIdentity) → lock_active_identity token id db ≡ ok a → Known token a db
  unfolding lock_active_identity
  lock-Known id a h =
      let rows = select_active_identity id token.issuer token.subject db in
      let (found, (read, k)) = >>=_ok (one_or_none rows) require_locked a h in locked found read k
    where
      locked :
          (found : Option (IdentityRow × UserRow))
          → one_or_none (select_active_identity id token.issuer token.subject db) ≡ ok found
          → require_locked found ≡ ok a
          → Known token a db
      locked none read k = absurd (cc)
      locked (some r) read k =
          let is =
            (rw (single (select_active_identity id token.issuer token.subject db) r read) at (
              filter-In (λ x. x.0.id == id && is_active_row x)
                (select_identity token.issuer token.subject db))).0 in
          record {
            row = r;
            stored = All-lookup _ _ (select_identity-IsRow token.issuer token.subject db) is.1;
            active = ground arith;
            shown = ground arith;
          }

  -- The session that is there already.
  pub find_session-Admitted :
      (a : ActiveIdentity) (r : ProvisionedSession)
      → find_session token a db ≡ ok r
      → Known token a db
      → Admitted token r db
  unfolding find_session
  find_session-Admitted a r h k =
      let rows = select_session a.identity_id token.provider_session_id db in
      let (found, (read, h1)) = >>=_ok (one_or_none rows) _ r h in
      let (s, (there, h2)) = >>=_ok (one found) _ r h1 in reused found s read there h2
    where
      reused :
          (found : Option SessionRow) (s : SessionRow)
          → one_or_none (select_session a.identity_id token.provider_session_id db) ≡ ok found
          → one found ≡ ok s
          → reuse_session db a s ≡ ok r
          → Admitted token r db
      reused none s read there q = absurd (cc)
      reused (some t) s read there q =
          let is =
            (rw (single (select_session a.identity_id token.provider_session_id db) t read) at (
              filter-In (is_session a.identity_id token.provider_session_id) db.auth_sessions)).0 in
          let same : t ≡ s = cc in
          let live : is_live db s ≡ true = ground arith in
          let ours =
            subst (λ x. is_session a.identity_id token.provider_session_id x ≡ true) same is.0 in
          let shown : ok (reused_session a s) ≡ ok r = ground arith in
          record {
            identity = a;
            known = k;
            session = s;
            open_session = subst (λ x. In x db.auth_sessions) same is.1;
            of_identity = ground arith;
            of_token = ground (arith, text_eq_iff s.provider_session_id token.provider_session_id);
            unrevoked = ground arith;
            same_expiry = cc;
            same_principal = cc;
          }

  -- The session that has been inserted.
  pub insert_session-Admitted :
      (a : ActiveIdentity) (id expires_at : ℕ)
      → In (new_session id a.identity_id token.provider_session_id expires_at) db.auth_sessions
      → Known token a db
      → Admitted token
          (record { principal = principal a id; expires_at = expires_at; created = true })
          db
  insert_session-Admitted a id expires_at there k = record {
    identity = a;
    known = k;
    session = new_session id a.identity_id token.provider_session_id expires_at;
    open_session = there;
    of_identity = refl;
    of_token = refl;
    unrevoked = refl;
    same_expiry = refl;
    same_principal = refl;
  }

  -- The identity that has been inserted, of a user that is there.
  pub insert_identity-Known :
      (id user_id : ℕ) (email normalized : Text) (display : Option Text)
      → In (new_user user_id email normalized display) db.users
      → In (new_identity id user_id token.issuer token.subject) db.identities
      → Known token
          (record { identity_id = id; user_id = user_id; email = email; display_name = display })
          db
  insert_identity-Known id user_id email normalized display user identity = record {
    row = (
      new_identity id user_id token.issuer token.subject,
      new_user user_id email normalized display,
    );
    stored = record {
      identity = identity;
      user = user;
      joined = refl;
      same_issuer = refl;
      same_subject = refl;
    };
    active = refl;
    shown = refl;
  }

-- The rows of `db` stay.
pub record Stays (db d : Db) : Type 0 where
  pub users : (u : UserRow) → In u db.users → In u d.users
  pub identities : (i : IdentityRow) → In i db.identities → In i d.identities
  pub sessions : (s : SessionRow) → In s db.auth_sessions → In s d.auth_sessions

module _ (token : VerifiedAccessToken) (db d : Db) (stays : Stays db d) where
  pub Known-stays : (a : ActiveIdentity) → Known token a db → Known token a d
  Known-stays a k = record {
    row = k.row;
    stored = record {
      identity = stays.identities _ k.stored.identity;
      user = stays.users _ k.stored.user;
      joined = k.stored.joined;
      same_issuer = k.stored.same_issuer;
      same_subject = k.stored.same_subject;
    };
    active = k.active;
    shown = k.shown;
  }

  pub Admitted-stays : (r : ProvisionedSession) → Admitted token r db → Admitted token r d
  Admitted-stays r m = record {
    identity = m.identity;
    known = Known-stays m.identity m.known;
    session = m.session;
    open_session = stays.sessions _ m.open_session;
    of_identity = m.of_identity;
    of_token = m.of_token;
    unrevoked = m.unrevoked;
    same_expiry = m.same_expiry;
    same_principal = m.same_principal;
  }
