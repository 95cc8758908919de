-- ===== src/Authentication/Consistency.antt =====
-- The keys and foreign keys of app.users, app.user_auth_identities and app.auth_sessions as an
-- invariant, and that no user is left without an identity.
use bff.Prelude.{
  any-append, inl, inr, ℕ, Bool, true, false, ◌||◌, ◌==◌, Option, none, some, List, [], ◌∷◌, ◌++◌,
  ◌≡◌, All, All-imp, All-append, any, arith,
}
use bff.Prelude.{DistinctBy, DistinctBy-append, any-append_left}
use bff.Result.{ok}
use bff.Text.{Text, text_eq}
use bff.Db.{Db, UserRow, IdentityRow, SessionRow, PlatformAuditRow}
use bff.Authentication.Inserts.{
  insert_user-cases, insert_identity-cases, insert_session-cases, insert_session_audit-ok,
}
use bff.Authentication.Statements.{
  new_identity, insert_user, insert_identity, insert_session, insert_session_audit, has_user,
  has_identity, is_identity, is_session,
}

abbrev same_email : UserRow → UserRow → Bool
same_email u v = text_eq u.email_normalized v.email_normalized

abbrev pub same_subject : IdentityRow → IdentityRow → Bool
same_subject i j = is_identity j.issuer j.subject i

abbrev pub same_session : SessionRow → SessionRow → Bool
same_session s t = is_session t.user_auth_identity_id t.provider_session_id s

abbrev pub is_pending : Option ℕ → ℕ → Bool
is_pending none id = false
is_pending (some p) id = p == id

-- `u` has an identity, unless it is the pending one.
abbrev IsOwned : Option ℕ → List IdentityRow → UserRow → Type 0
IsOwned pending identities u =
    (is_pending pending u.id || any (λ i. i.user_id == u.id) identities) ≡ true

-- `pending` is a user that a transaction has inserted, and whose identity it will insert next.
pub record IsConsistent (pending : Option ℕ) (db : Db) : Type 0 where
  pub user_ids : DistinctBy (λ (u v : UserRow). u.id == v.id) db.users
  pub emails : DistinctBy same_email db.users
  pub identity_ids : DistinctBy (λ (i j : IdentityRow). i.id == j.id) db.identities
  pub subjects : DistinctBy same_subject db.identities
  pub session_ids : DistinctBy (λ (s t : SessionRow). s.id == t.id) db.auth_sessions
  pub sessions : DistinctBy same_session db.auth_sessions
  pub users_exist : All (λ i. has_user i.user_id db ≡ true) db.identities
  pub identities_exist : All (λ s. has_identity s.user_auth_identity_id db ≡ true) db.auth_sessions
  pub owned : All (IsOwned pending db.identities) db.users

-- The pending user after an INSERT INTO users.
pub insert_user-IsConsistent :
    (id : ℕ) (email normalized : Text) (display : Option Text) (db d : Db) (r : Option ℕ)
    → insert_user id email normalized display db ≡ ok (r, d)
    → IsConsistent none db
    → IsConsistent r d
insert_user-IsConsistent id email normalized display db d r h v =
    elim (insert_user-cases id email normalized display db d r h) [
      | inl (p, q) ↦ rw (p, q) v
      | inr (new, (fresh, (p, q))) ↦
          rw (p, q)
            (record {
              user_ids = DistinctBy-append _ db.users _ fresh v.user_ids;
              emails = DistinctBy-append _ db.users _ new v.emails;
              identity_ids = v.identity_ids;
              subjects = v.subjects;
              session_ids = v.session_ids;
              sessions = v.sessions;
              users_exist = All-imp _ _ _ (λ i e. any-append_left _ db.users _ e) v.users_exist;
              identities_exist = v.identities_exist;
              owned =
                  All-append _ db.users _ (All-imp _ _ _ (λ u e. ground arith) v.owned)
                    (ground arith, tt);
            })
    ]

IsOwned-now :
    (id user_id : ℕ) (issuer subject : Text) (identities : List IdentityRow) (u : UserRow)
    → IsOwned (some user_id) identities u
    → IsOwned none (identities ++ new_identity id user_id issuer subject ∷ []) u
IsOwned-now id user_id issuer subject identities u h = ground (
  arith,
  any-append (λ i. i.user_id == u.id) identities (new_identity id user_id issuer subject ∷ []),
)

-- The pending user has an identity after an INSERT INTO user_auth_identities.
pub insert_identity-IsConsistent :
    (id user_id : ℕ) (issuer subject : Text) (db d : Db) (i : ℕ)
    → insert_identity id user_id issuer subject db ≡ ok (some i, d)
    → IsConsistent (some user_id) db
    → IsConsistent none d
insert_identity-IsConsistent id user_id issuer subject db d i h v =
    elim (insert_identity-cases id user_id issuer subject db d (some i) h) [
      | inl (p, q) ↦ cc
      | inr (new, (fresh, (p, q))) ↦ rw q (record {
        user_ids = v.user_ids;
        emails = v.emails;
        identity_ids = DistinctBy-append _ db.identities _ (ground arith) v.identity_ids;
        subjects = DistinctBy-append _ db.identities _ new v.subjects;
        session_ids = v.session_ids;
        sessions = v.sessions;
        users_exist = All-append _ db.identities _ v.users_exist (ground arith, tt);
        identities_exist =
            All-imp _ _ _ (λ s e. any-append_left _ db.identities _ e) v.identities_exist;
        owned = All-imp _ _ _ (IsOwned-now id user_id issuer subject db.identities) v.owned;
      })
    ]

pub insert_session-IsConsistent :
    (id identity_id : ℕ) (provider : Text) (ttl : ℕ) (db d : Db) (r : Option (ℕ × ℕ))
    → insert_session id identity_id provider ttl db ≡ ok (r, d)
    → IsConsistent none db
    → IsConsistent none d
insert_session-IsConsistent id identity_id provider ttl db d r h v =
    elim (insert_session-cases id identity_id provider ttl db d r h) [
      | inl (p, q) ↦ rw q v
      | inr (new, (fresh, (p, q))) ↦ rw q (record {
        user_ids = v.user_ids;
        emails = v.emails;
        identity_ids = v.identity_ids;
        subjects = v.subjects;
        session_ids = DistinctBy-append _ db.auth_sessions _ (ground arith) v.session_ids;
        sessions = DistinctBy-append _ db.auth_sessions _ new v.sessions;
        users_exist = v.users_exist;
        identities_exist = All-append _ db.auth_sessions _ v.identities_exist (ground arith, tt);
        owned = v.owned;
      })
    ]

pub insert_session_audit-IsConsistent :
    (a : PlatformAuditRow) (db d : Db) (r : Unit {0})
    → insert_session_audit a db ≡ ok (r, d)
    → IsConsistent none db
    → IsConsistent none d
insert_session_audit-IsConsistent a db d r h v = rw (insert_session_audit-ok a db d r h) (record {
  user_ids = v.user_ids;
  emails = v.emails;
  identity_ids = v.identity_ids;
  subjects = v.subjects;
  session_ids = v.session_ids;
  sessions = v.sessions;
  users_exist = v.users_exist;
  identities_exist = v.identities_exist;
  owned = v.owned;
})
