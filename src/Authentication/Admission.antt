-- ===== src/Authentication/Admission.antt =====
-- What is admitted by `provision`, beside others that only add accounts.
use bff.Prelude.{ℕ, ◌≡◌, refl, ◌||◌, Option, none, some, In, Bool-cases, inl, inr}
use mathlib.Core.List.Memᴰ
use bff.Result.{account_link_required, runtime_error, Error, ok, err, identity_race, value_error}
use bff.Text.{Text, is_space}
use bff.Text.Strip.{strip}
use bff.Ids.{uuid7}
use bff.Db.{Db, UserRow, IdentityRow, lift}
use bff.Db.Rules.{Post, lift_rule, query_rule, execute_rule, query_last, pure_rule, bind_rule}
use bff.Authentication.Models.{
  VerifiedAccessToken, ExternalUserProfile, ProvisioningIdentity, ProvisionedSession,
  ActiveIdentity,
}
use bff.Authentication.Statements.{
  insert_user, insert_identity, insert_session, insert_session_audit, session_event, is_empty,
  new_user, new_session,
}
use bff.Authentication.Inserts.{
  insert_user-cases, insert_identity-cases, insert_session-cases, insert_session_audit-ok,
}
use bff.Authentication.Reads.{
  find_exact_identity, find_session, lock_active_identity, or_missing, require_active,
}
use bff.Authentication.Repository.{
  Others, Draws, won, admit_session, finish_admission, admit_existing_identity, give_identity,
  candidate, resolve_race, create_identity_or_resolve_race, resolve_identity,
  provision_new_identity,
}
use bff.Authentication.Rules.{meanwhile_rule, among_rule, except_race_rule}
use bff.Authentication.Admitted.{
  Known, Admitted, Stays, Known-stays, Admitted-stays, require_active-Known, lock-Known,
  find_session-Admitted, insert_session-Admitted, insert_identity-Known,
}

-- Other transactions that leave the rows that are there.
pub record OnlyAdd (o : Others) : Type 0 where
  pub looked : (db : Db) → Stays db (o.looked db)
  pub user_inserted : (db : Db) → Stays db (o.user_inserted db)
  pub race_lost : (db : Db) → Stays db (o.race_lost db)
  pub session_tried : (db : Db) → Stays db (o.session_tried db)

module _ (o : Others) (adds : OnlyAdd o) (draws : Draws) (token : VerifiedAccessToken) where
  abbrev Q : ProvisionedSession → Db → Type 0
  Q r d = Admitted token r d

  abbrev K : ActiveIdentity → Db → Type 0
  K a d = Known token a d

  -- The session that an INSERT has made, if it has made one.
  abbrev Inserted : ActiveIdentity → Option (ℕ × ℕ) → Db → Type 0
  Inserted a none d = Unit {0}
  Inserted a (some (id, expires)) d =
      In (new_session id a.identity_id token.provider_session_id expires) d.auth_sessions

  finish-Admitted :
      (a : ActiveIdentity) (r : Option (ℕ × ℕ)) (db : Db)
      → Known token a db
      → Inserted a r db
      → Post Q (finish_admission draws token a r) db
  finish-Admitted a none db k i =
      query_last Q db (find_session token a) (λ r e. find_session-Admitted token db a r e k)
  finish-Admitted a (some (id, expires)) db k i = lift_rule Q db (uuid7 draws.audit) _ λ event _.
      execute_rule Q db (insert_session_audit (session_event event a.user_id id)) _ λ u d e.
        pure_rule Q d _ (
          Admitted-stays token db d
            (rw (insert_session_audit-ok (session_event event a.user_id id) db d u e)
              (record { users = λ _ h. h; identities = λ _ h. h; sessions = λ _ h. h }))
            _ (insert_session-Admitted token db a id expires i k))

  inserted :
      (a : ActiveIdentity) (id ttl : ℕ) (db d : Db) (r : Option (ℕ × ℕ))
      → insert_session id a.identity_id token.provider_session_id ttl db ≡ ok (r, d)
      → Stays db d × Inserted a r d
  inserted a id ttl db d r e =
      elim (insert_session-cases id a.identity_id token.provider_session_id ttl db d r e) [
        | inl (p, q) ↦
            rw (p, q) (record { users = λ _ h. h; identities = λ _ h. h; sessions = λ _ h. h }, tt)
        | inr (_, (_, (p, q))) ↦
            rw (p, q)
              (
                record {
                  users = λ _ h. h;
                  identities = λ _ h. h;
                  sessions = λ _ h. Memᴰ.append_left _ h;
                },
                Memᴰ.append_right db.auth_sessions (In.head refl),
              )
      ]

  Inserted-stays :
      (a : ActiveIdentity) (r : Option (ℕ × ℕ)) (db d : Db)
      → Stays db d
      → Inserted a r db
      → Inserted a r d
  Inserted-stays a none db d s i = tt
  Inserted-stays a (some (id, expires)) db d s i = s.sessions _ i

  admit_session-Admitted :
      (a : ActiveIdentity) (ttl : ℕ) (db : Db)
      → Known token a db
      → Post Q (admit_session o draws token a ttl) db
  unfolding admit_session
  admit_session-Admitted a ttl db k = lift_rule Q db (uuid7 draws.session) _ λ id _.
      execute_rule Q db (insert_session id a.identity_id token.provider_session_id ttl) _ λ r d e.
        let (stays, there) = inserted a id ttl db d r e in
        let e' = o.session_tried d in
        meanwhile_rule Q d o.session_tried (finish_admission draws token a r) (
          finish-Admitted a r e'
            (Known-stays token d e' (adds.session_tried d) a (Known-stays token db d stays a k))
            (Inserted-stays a r d e' (adds.session_tried d) there))

  existing-Known :
      (row : Option (IdentityRow × UserRow)) (e : Error) (a : ActiveIdentity) (db : Db)
      → find_exact_identity token db ≡ ok row
      → or_missing e row ≡ ok a
      → Known token a db
  existing-Known none e a db h k = absurd (cc)
  existing-Known (some r) e a db h k = require_active-Known token db r a h k

  -- The user that an INSERT has made, if it has made one.
  abbrev Pending : Text → Text → Option Text → Option ℕ → Db → Type 0
  Pending email normalized display none d = Unit {0}
  Pending email normalized display (some u) d = In (new_user u email normalized display) d.users

  pending :
      (u : ℕ) (email normalized : Text) (display : Option Text) (db d : Db) (r : Option ℕ)
      → insert_user u email normalized display db ≡ ok (r, d)
      → Pending email normalized display r (o.user_inserted d)
  pending u email normalized display db d r e =
      elim (insert_user-cases u email normalized display db d r e) [
        | inl (p, q) ↦ rw p tt
        | inr (_, (_, (p, q))) ↦
            rw p ((adds.user_inserted d).users _ (rw q (Memᴰ.append_right db.users (In.head refl))))
      ]

  given :
      (id u : ℕ) (email normalized : Text) (display : Option Text) (db d : Db) (r : Option ℕ)
      → insert_identity id u token.issuer token.subject db ≡ ok (r, d)
      → In (new_user u email normalized display) db.users
      → Post K
          (lift (
            won
              (record { identity_id = id; user_id = u; email = email; display_name = display })
              r))
          d
  given id u email normalized display db d r e user =
      elim (insert_identity-cases id u token.issuer token.subject db d r e) [
        | inl (p, q) ↦ rw p (query_last K d (λ _. err identity_race) (λ x lost. absurd (cc)))
        | inr (_, (_, (p, q))) ↦
            rw (p, q)
              (pure_rule K _ _ (
                insert_identity-Known token _ id u email normalized display user
                  (Memᴰ.append_right db.identities (In.head refl))))
      ]

  give_identity-Known :
      (email normalized : Text) (display : Option Text) (r : Option ℕ) (db : Db)
      → Pending email normalized display r db
      → Post K (give_identity draws token email display r) db
  give_identity-Known email normalized display none db i =
      query_rule K db (find_exact_identity token) _ λ row e.
        query_last K db (λ _. or_missing account_link_required row)
          (λ a k. existing-Known row account_link_required a db e k)
  give_identity-Known email normalized display (some u) db i =
      lift_rule K db (uuid7 draws.identity) _ λ id _.
        execute_rule K db (insert_identity id u token.issuer token.subject) _
          λ r d e. given id u email normalized display db d r e i

  candidate-Known :
      (email normalized : Text) (display : Option Text) (db : Db)
      → Post K (candidate o draws token email normalized display) db
  unfolding candidate
  candidate-Known email normalized display db = lift_rule K db (uuid7 draws.user) _ λ u _.
      execute_rule K db (insert_user u email normalized display) _ λ r d e.
        meanwhile_rule K d o.user_inserted (give_identity draws token email display r) (
          give_identity-Known email normalized display r (o.user_inserted d)
            (pending u email normalized display db d r e))

  resolve_race-Known : (db : Db) → Post K (resolve_race o token) db
  unfolding resolve_race
  resolve_race-Known db = meanwhile_rule K db o.race_lost _ (
      query_rule K (o.race_lost db) (find_exact_identity token) _ λ row e.
        query_last K (o.race_lost db) (λ _. or_missing runtime_error row)
          (λ a k. existing-Known row runtime_error a (o.race_lost db) e k))

  resolve_identity-Known :
      (casefold : Text → Text) (profile : ExternalUserProfile)
      (row : Option (IdentityRow × UserRow)) (before db : Db)
      → Stays before db
      → find_exact_identity token before ≡ ok row
      → Post K (resolve_identity o casefold draws token profile row) db
  unfolding create_identity_or_resolve_race
  resolve_identity-Known casefold profile none before db stays h =
      let email = strip is_space profile.email in
      elim (Bool-cases (is_empty email || is_empty (casefold email))) [
        | inl bad ↦ rw bad (query_last K db (λ _. err value_error) (λ x e. absurd (cc)))
        | inr good ↦ rw good (
            except_race_rule K db o.user_inserted
              (candidate o draws token email (casefold email) profile.display_name)
              (resolve_race o token)
              (candidate-Known email (casefold email) profile.display_name db)
              (resolve_race-Known (o.user_inserted db)))
      ]
  resolve_identity-Known casefold profile (some r) before db stays h =
      query_last K db (λ _. require_active r)
        (λ a e. Known-stays token before db stays a (require_active-Known token before r a h e))

  pub provision_new-Admitted :
      (casefold : Text → Text) (profile : ExternalUserProfile) (ttl : ℕ) (db : Db)
      → Post Q (provision_new_identity o casefold draws token profile ttl) db
  unfolding provision_new_identity
  provision_new-Admitted casefold profile ttl db = among_rule Q db _ _ (
      query_rule Q db (find_exact_identity token) _ λ row e. meanwhile_rule Q db o.looked _ (
        bind_rule K Q (o.looked db) (resolve_identity o casefold draws token profile row) _
          (resolve_identity-Known casefold profile row db (o.looked db) (adds.looked db) e)
          (λ a d k. admit_session-Admitted a ttl d k)))

  pub admit_existing-Admitted :
      (identity : ProvisioningIdentity) (ttl : ℕ) (db : Db)
      → Post Q (admit_existing_identity o draws token identity ttl) db
  unfolding admit_existing_identity
  admit_existing-Admitted identity ttl db = among_rule Q db _ _ (
      query_rule Q db (lock_active_identity token identity.identity_id) _ λ a e.
        meanwhile_rule Q db o.looked (admit_session o draws token a ttl) (
          admit_session-Admitted a ttl (o.looked db) (
            Known-stays token db (o.looked db) (adds.looked db) a
              (lock-Known token db identity.identity_id a e))))
