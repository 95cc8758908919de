-- ===== src/Authentication/Effects.antt =====
-- What `provision` has changed when it succeeds with nothing else going on.
use bff.Prelude.{
  filter-In, ◌<◌, In, arith, ℕ, ◌≡◌, refl, ap, ◌∙◌, true, false, ◌||◌, Option, none, some, [], ◌∷◌,
  ◌++◌, any, inl, inr,
}
use mathlib.Core.Path.{subst}
use bff.Connections.Repository.Queries.{one_or_none}
use bff.Result.{>>=_ok, Error, ok, err, identity_race, account_link_required}
use bff.Text.{text_eq_iff, Text, text_eq, is_space}
use bff.Text.Strip.{strip}
use bff.Ids.{uuid7}
use bff.Connections.Rows.{single}
use bff.Db.{SessionRow, Db, UserRow, IdentityRow, lift}
use bff.Db.Rules.{Post, lift_rule, query_rule, execute_rule, query_last, pure_rule}
use bff.Authentication.Models.{
  VerifiedAccessToken, ExternalUserProfile, ProvisionedSession, ActiveIdentity,
}
use bff.Authentication.Statements.{
  is_live, insert_user, insert_identity, insert_session, insert_session_audit, session_event,
  is_empty, new_user, new_identity, new_session, select_session, is_session, is_identity, expiry,
}
use bff.Authentication.Inserts.{
  insert_user-cases, insert_identity-cases, insert_session-cases, insert_session_audit-ok,
}
use bff.Authentication.Reads.{
  reuse_session, principal, find_exact_identity, find_session, or_missing, require_active, one,
}
use bff.Authentication.Repository.{
  Draws, won, admit_session, finish_admission, give_identity, candidate,
}
use bff.Authentication.Rules.{meanwhile_rule}
use bff.Authentication.Admitted.{reused_session, Known, require_active-Known}
use bff.Authentication.Replay.{alone}

-- A new user with an identity, under an email that no user has.
pub record SignedUp (casefold : Text → Text) (token : VerifiedAccessToken)
    (profile : ExternalUserProfile) (db : Db) (a : ActiveIdentity) (d : Db) : Type 0 where
  pub email : Text
  pub stripped : email ≡ strip is_space profile.email
  pub named : (is_empty email || is_empty (casefold email)) ≡ false
  pub email_new : any (λ u. text_eq u.email_normalized (casefold email)) db.users ≡ false
  pub subject_new : any (is_identity token.issuer token.subject) db.identities ≡ false
  pub identity : a ≡ record {
    identity_id = a.identity_id;
    user_id = a.user_id;
    email = email;
    display_name = profile.display_name;
  }
  pub state : d ≡ record db {
    users = db.users ++ new_user a.user_id email (casefold email) profile.display_name ∷ [];
    identities =
        db.identities ++ new_identity a.identity_id a.user_id token.issuer token.subject ∷ [];
  }

-- `r` shows the session `s` of the tables: the one of the identity for the session of the token, which is
-- neither revoked nor expired.
pub record Shows (token : VerifiedAccessToken) (a : ActiveIdentity) (db : Db)
    (r : ProvisionedSession) (s : SessionRow) : Type 0 where
  pub stored : In s db.auth_sessions
  pub of_identity : s.user_auth_identity_id ≡ a.identity_id
  pub of_token : s.provider_session_id ≡ token.provider_session_id
  pub unrevoked : s.revoked_at ≡ none
  pub unexpired : db.now < s.expires_at
  pub shown :
      r ≡ record { principal = principal a s.id; expires_at = s.expires_at; created = false }

-- A session that was there, or a new one with its audit event.
pub data Opened (token : VerifiedAccessToken) (ttl : ℕ) (a : ActiveIdentity) (db : Db)
    (r : ProvisionedSession) (d : Db) : Type 0 where
  reused : (s : SessionRow) → Shows token a db r s → d ≡ db → Opened token ttl a db r d
  opened :
      (id event : ℕ)
      → any (is_session a.identity_id token.provider_session_id) db.auth_sessions ≡ false
      → r ≡ record { principal = principal a id; expires_at = expiry ttl db; created = true }
      → d ≡ record db {
        auth_sessions =
            db.auth_sessions
            ++ new_session id a.identity_id token.provider_session_id (expiry ttl db) ∷ [];
        platform_audit = db.platform_audit ++ session_event event a.user_id id ∷ [];
      }
      → Opened token ttl a db r d

module _ (draws : Draws) (token : VerifiedAccessToken) (ttl : ℕ) (a : ActiveIdentity)
    (db : Db) where
  abbrev pub O : ProvisionedSession → Db → Type 0
  O r d = Opened token ttl a db r d

  selected-Shows :
      (r : ProvisionedSession) (s : SessionRow)
      → is_session a.identity_id token.provider_session_id s ≡ true
      → In s db.auth_sessions
      → reuse_session db a s ≡ ok r
      → Shows token a db r s
  selected-Shows r s ours stored h =
      let live : is_live db s ≡ true = ground arith in
      let whole : ok (reused_session a s) ≡ ok r = ground arith in
      record {
        stored = stored;
        of_identity = ground arith;
        of_token = ground (arith, text_eq_iff s.provider_session_id token.provider_session_id);
        unrevoked = ground arith;
        unexpired = ground arith;
        shown = cc;
      }

  found-Opened :
      (r : ProvisionedSession) (found : Option SessionRow) (s : SessionRow)
      → one_or_none (select_session a.identity_id token.provider_session_id db) ≡ ok found
      → one found ≡ ok s
      → reuse_session db a s ≡ ok r
      → O r db
  found-Opened r none s read there h = absurd (cc)
  found-Opened r (some t) s read there h =
      let (ours, stored) =
        (rw (single (select_session a.identity_id token.provider_session_id db) t read) at
          (filter-In (is_session a.identity_id token.provider_session_id) db.auth_sessions)).0 in
      let same : s ≡ t = cc in
      reused t (selected-Shows r t ours stored (subst (λ x. reuse_session db a x ≡ ok r) same h))
        refl

  reused-Opened : (r : ProvisionedSession) → find_session token a db ≡ ok r → O r db
  unfolding find_session
  reused-Opened r h =
      let rows = select_session a.identity_id token.provider_session_id db in
      let (found, (read, h1)) = >>=_ok (one_or_none rows) _ r h in
      let (s, (there, h2)) = >>=_ok (one found) _ r h1 in found-Opened r found s read there h2

  finish-Opened :
      (id : ℕ) (r : Option (ℕ × ℕ)) (d : Db)
      → insert_session id a.identity_id token.provider_session_id ttl db ≡ ok (r, d)
      → Post O (finish_admission draws token a r) d
  finish-Opened id r d e =
      elim (insert_session-cases id a.identity_id token.provider_session_id ttl db d r e) [
        | inl (p, q) ↦ rw (p, q) (query_last O db (find_session token a) reused-Opened)
        | inr (new, (_, (p, q))) ↦
            rw (p, q)
              (lift_rule O _ (uuid7 draws.audit) _ λ event _.
                execute_rule O _ (insert_session_audit (session_event event a.user_id id)) _
                  λ u d' h. pure_rule O d' _ (
                    opened id event new refl
                      (insert_session_audit-ok (session_event event a.user_id id) _ d' u h)))
      ]

  pub admit_session-Opened : Post O (admit_session alone draws token a ttl) db
  unfolding admit_session
  admit_session-Opened = lift_rule O db (uuid7 draws.session) _ λ id _.
      execute_rule O db (insert_session id a.identity_id token.provider_session_id ttl) _ λ r d e.
        meanwhile_rule O d alone.session_tried (finish_admission draws token a r)
          (finish-Opened id r d e)

-- The identity that is admitted: one that was there, or that of a new user.
pub data Resolved (casefold : Text → Text) (token : VerifiedAccessToken)
    (profile : ExternalUserProfile) (db : Db) (a : ActiveIdentity) (d : Db) : Type 0 where
  existing : Known token a db → d ≡ db → Resolved casefold token profile db a d
  signed_up : SignedUp casefold token profile db a d → Resolved casefold token profile db a d

module _ (casefold : Text → Text) (draws : Draws) (token : VerifiedAccessToken)
    (profile : ExternalUserProfile) (db : Db) where
  abbrev pub R : ActiveIdentity → Db → Type 0
  R a d = Resolved casefold token profile db a d

  pub missing-Resolved :
      (e : Error) (row : Option (IdentityRow × UserRow)) (d : Db)
      → d ≡ db
      → find_exact_identity token d ≡ ok row
      → Post R (lift (or_missing e row)) d
  missing-Resolved e none d same h = query_last R d (λ _. err e) (λ a k. absurd (cc))
  missing-Resolved e (some r) d same h =
      query_last R d (λ _. require_active r)
        (λ a k. existing (subst (Known token a) same (require_active-Known token d r a h k)) same)

  abbrev pub email : Text
  email = strip is_space profile.email

  module _ (named : (is_empty email || is_empty (casefold email)) ≡ false) where
    given :
        (id u : ℕ) (d1 d : Db) (r : Option ℕ)
        → any (λ x. text_eq x.email_normalized (casefold email)) db.users ≡ false
        → d1 ≡ record db {
          users = db.users ++ new_user u email (casefold email) profile.display_name ∷ [];
        }
        → insert_identity id u token.issuer token.subject d1 ≡ ok (r, d)
        → Post R
            (lift (
              won
                (record {
                  identity_id = id;
                  user_id = u;
                  email = email;
                  display_name = profile.display_name;
                })
                r))
            d
    given id u d1 d r fresh was e =
        elim (insert_identity-cases id u token.issuer token.subject d1 d r e) [
          | inl (p, q) ↦ rw p (query_last R d (λ _. err identity_race) (λ a k. absurd (cc)))
          | inr (new, (_, (p, q))) ↦ rw p (
              pure_rule R d _ (
                signed_up (record {
                  email = email;
                  stripped = refl;
                  named = named;
                  email_new = fresh;
                  subject_new =
                      subst (λ x. any (is_identity token.issuer token.subject) x.identities ≡ false)
                        was new;
                  identity = refl;
                  state =
                      q
                      ∙ ap
                          (λ (x : Db). record x {
                            identities =
                                x.identities ++ new_identity id u token.issuer token.subject ∷ [];
                          })
                          was;
                })))
        ]

    after_user :
        (u : ℕ) (r : Option ℕ) (d : Db)
        → insert_user u email (casefold email) profile.display_name db ≡ ok (r, d)
        → Post R (give_identity draws token email profile.display_name r) d
    after_user u r d e =
        elim (insert_user-cases u email (casefold email) profile.display_name db d r e) [
          | inl (p, q) ↦ rw p (
              query_rule R d (find_exact_identity token) _
                λ row h. missing-Resolved account_link_required row d q h)
          | inr (fresh, (_, (p, q))) ↦ rw p (
              lift_rule R d (uuid7 draws.identity) _ λ id _.
                execute_rule R d (insert_identity id u token.issuer token.subject) _
                  λ s d' k. given id u d d' s fresh q k)
        ]

    pub candidate-Resolved :
        Post R (candidate alone draws token email (casefold email) profile.display_name) db
    unfolding candidate
    candidate-Resolved = lift_rule R db (uuid7 draws.user) _ λ u _.
        execute_rule R db (insert_user u email (casefold email) profile.display_name) _ λ r d e.
          meanwhile_rule R d alone.user_inserted
            (give_identity draws token email profile.display_name r) (after_user u r d e)
