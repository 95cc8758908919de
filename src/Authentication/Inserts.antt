-- ===== src/Authentication/Inserts.antt =====
-- What the INSERTs of Authentication/Statements have done when they succeed.
use bff.Prelude.{
  ℕ, Bool, true, false, not, ◌||◌, ◌==◌, Option, none, some, [], ◌∷◌, ◌++◌, ltb, any, arith, ◌≡◌,
  refl, sym, ap, ◌⊎◌, inl, inr, if◌then◌else◌,
}
use bff.Result.{Error, Result, ok, err, integrity_error, guard_ok}
use bff.Text.{Text, text_eq}
use bff.Db.Rules.{state_of}
use bff.Db.{Db, PlatformAuditRow, has_event}
use bff.Authentication.Statements.{
  insert_user, insert_identity, insert_session, insert_session_audit, has_user, has_identity,
  is_identity, is_session, new_user, new_identity, new_session, expiry, is_empty,
}

-- The form of an INSERT ... ON CONFLICT DO NOTHING.
abbrev conflict : {A : Type 0} → Bool → Bool → Error → A → Db → Db → Result (Option A × Db)
conflict taken bad e a db added =
    if taken then ok (none, db) else if bad then err e else ok (some a, added)

-- The two ways in which an INSERT ... ON CONFLICT DO NOTHING succeeds.
insert_cases :
    {A : Type 0} (taken bad : Bool) (e : Error) (a : A) (db added d : Db) (r : Option A)
    → conflict taken bad e a db added ≡ ok (r, d)
    → ((r ≡ none) × (d ≡ db)) ⊎ ((taken ≡ false) × ((bad ≡ false) × ((r ≡ some a) × (d ≡ added))))
insert_cases true bad e a db added d r h = inl (ground arith, ground arith)
insert_cases false true e a db added d r h = cc
insert_cases false false e a db added d r h = inr (refl, (refl, (ground arith, ground arith)))

abbrev Outcome : {A : Type 0} → Bool → Bool → Option A → A → Db → Db → Db → Type 0
Outcome taken bad r a db added d =
    ((r ≡ none) × (d ≡ db)) ⊎ ((taken ≡ false) × ((bad ≡ false) × ((r ≡ some a) × (d ≡ added))))

pub insert_user-cases :
    (id : ℕ) (email normalized : Text) (display : Option Text) (db d : Db) (r : Option ℕ)
    → insert_user id email normalized display db ≡ ok (r, d)
    → Outcome
        (any (λ u. text_eq u.email_normalized normalized) db.users)
        (any (λ u. u.id == id) db.users)
        r
        id
        db
        (record db { users = db.users ++ new_user id email normalized display ∷ [] })
        d
unfolding insert_user
insert_user-cases id email normalized display db d r h =
    insert_cases (any (λ u. text_eq u.email_normalized normalized) db.users)
      (any (λ u. u.id == id) db.users) integrity_error id db
      (record db { users = db.users ++ new_user id email normalized display ∷ [] }) d r h

pub insert_identity-cases :
    (id user_id : ℕ) (issuer subject : Text) (db d : Db) (r : Option ℕ)
    → insert_identity id user_id issuer subject db ≡ ok (r, d)
    → Outcome
        (any (is_identity issuer subject) db.identities)
        (any (λ i. i.id == id) db.identities || not (has_user user_id db))
        r
        id
        db
        (record db { identities = db.identities ++ new_identity id user_id issuer subject ∷ [] })
        d
unfolding insert_identity
insert_identity-cases id user_id issuer subject db d r h =
    let added : Db = record db {
      identities = db.identities ++ new_identity id user_id issuer subject ∷ [];
    } in
    let taken : Bool = any (is_identity issuer subject) db.identities in
    let bad : Bool = any (λ i. i.id == id) db.identities || not (has_user user_id db) in
    let (_, inner) =
      guard_ok (is_empty issuer || is_empty subject) integrity_error
        (conflict taken bad integrity_error id db added) _ h in
    insert_cases taken bad integrity_error id db added d r inner

pub insert_session-cases :
    (id identity_id : ℕ) (provider : Text) (ttl : ℕ) (db d : Db) (r : Option (ℕ × ℕ))
    → insert_session id identity_id provider ttl db ≡ ok (r, d)
    → Outcome
        (any (is_session identity_id provider) db.auth_sessions)
        (any (λ s. s.id == id) db.auth_sessions || not (has_identity identity_id db))
        r
        (id, expiry ttl db)
        db
        (record db {
          auth_sessions =
              db.auth_sessions ++ new_session id identity_id provider (expiry ttl db) ∷ [];
        })
        d
unfolding insert_session
insert_session-cases id identity_id provider ttl db d r h =
    let added : Db = record db {
      auth_sessions = db.auth_sessions ++ new_session id identity_id provider (expiry ttl db) ∷ [];
    } in
    let taken : Bool = any (is_session identity_id provider) db.auth_sessions in
    let bad : Bool = any (λ s. s.id == id) db.auth_sessions || not (has_identity identity_id db) in
    let (_, inner) =
      guard_ok (is_empty provider || not (ltb db.now (expiry ttl db))) integrity_error
        (conflict taken bad integrity_error (id, expiry ttl db) db added) _ h in
    insert_cases taken bad integrity_error (id, expiry ttl db) db added d r inner

pub insert_session_audit-ok :
    (a : PlatformAuditRow) (db d : Db) (r : Unit {0})
    → insert_session_audit a db ≡ ok (r, d)
    → d ≡ record db { platform_audit = db.platform_audit ++ a ∷ [] }
unfolding insert_session_audit
insert_session_audit-ok a db d r h =
    let (_, inner) =
      guard_ok (has_event a.id db || not (has_user a.actor_user_id db)) integrity_error
        (ok (tt, record db { platform_audit = db.platform_audit ++ a ∷ [] })) _ h in
    ap (state_of db) (sym inner)
