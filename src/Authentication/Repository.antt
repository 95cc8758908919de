-- ===== src/Authentication/Repository.antt =====
-- `SqlAlchemySessionProvisioningRepository` of infrastructure/db/session_provisioning_repository.py.
-- Other transactions may commit between two statements of a method: `Others` has one function for
-- each such place, which stands for all that they do there.
use bff.Prelude.{ℕ, true, ◌||◌, Option, none, some, if◌then◌else◌}
use bff.Result.{
  account_link_required, runtime_error, Result, Error, ok, err, value_error, identity_race,
}
use bff.Text.{Text, is_space}
use bff.Text.Strip.{strip}
use bff.Ids.{Draw, uuid7}
use bff.Db.{Db, Tx, UserRow, IdentityRow, pure, lift, query, execute, ◌>>=◌, ◌>>◌}
use bff.Authentication.Models.{
  VerifiedAccessToken, ExternalUserProfile, ProvisioningIdentity, ProvisionedSession,
  ActiveIdentity,
}
use bff.Authentication.Statements.{
  insert_user, insert_identity, is_empty, insert_session, session_event, insert_session_audit,
}
use bff.Authentication.Reads.{
  principal, find_session, lock_active_identity, find_exact_identity, require_active, or_missing,
}

-- What other transactions do after `find_identity` has committed, after the first query of a
-- transaction, after INSERT INTO users, before the identity of a race is read, and after INSERT INTO
-- auth_sessions.
pub record Others : Type 0 where
  pub found : Db → Db
  pub looked : Db → Db
  pub user_inserted : Db → Db
  pub race_lost : Db → Db
  pub session_tried : Db → Db

abbrev pub meanwhile : (Db → Db) → Tx (Unit {0})
meanwhile f db = (ok tt, f db)

-- A transaction, or a savepoint, beside others: after an exception only what they did is left.
abbrev pub transaction_among : {A : Type 0} → (Db → Db) → Tx A → Tx A
transaction_among others m db =
    let (r, db') = m db in elim r [ ok a ↦ (ok a, db') | err e ↦ (err e, others db) ]

-- The values that the method's calls of `uuid7` read.
pub record Draws : Type 0 where
  pub user : Draw
  pub identity : Draw
  pub session : Draw
  pub audit : Draw

abbrev pub finish_admission :
    Draws → VerifiedAccessToken → ActiveIdentity → Option (ℕ × ℕ) → Tx ProvisionedSession
finish_admission draws token identity none = query (find_session token identity)
finish_admission draws token identity (some (session_id, expires_at)) = do
  audit_id ← lift (uuid7 draws.audit)
  execute (insert_session_audit (session_event audit_id identity.user_id session_id))
  pure (record {
    principal = principal identity session_id;
    expires_at = expires_at;
    created = true;
  })

-- `_admit_session`
unfoldable pub admit_session :
    Others → Draws → VerifiedAccessToken → ActiveIdentity → ℕ → Tx ProvisionedSession
admit_session others draws token identity ttl_seconds = do
  session_id ← lift (uuid7 draws.session)
  inserted ←
      execute (insert_session session_id identity.identity_id token.provider_session_id ttl_seconds)
  meanwhile others.session_tried
  finish_admission draws token identity inserted

-- `admit_existing_identity`
unfoldable pub admit_existing_identity :
    Others → Draws → VerifiedAccessToken → ProvisioningIdentity → ℕ → Tx ProvisionedSession
admit_existing_identity others draws token identity ttl_seconds =
    transaction_among (λ db. others.session_tried (others.looked db))
      (do
        active ← query (lock_active_identity token identity.identity_id)
        meanwhile others.looked
        admit_session others draws token active ttl_seconds)

-- `if inserted_identity.scalar_one_or_none() is None: raise _IdentityRace`
abbrev pub won : ActiveIdentity → Option ℕ → Result ActiveIdentity
won identity none = err identity_race
won identity (some id) = ok identity

-- The body of the savepoint in `_create_identity_or_resolve_race`.
abbrev pub give_identity :
    Draws → VerifiedAccessToken → Text → Option Text → Option ℕ → Tx ActiveIdentity
give_identity draws token email display_name none = do
  existing ← query (find_exact_identity token)
  lift (or_missing account_link_required existing)
give_identity draws token email display_name (some user_id) = do
  identity_id ← lift (uuid7 draws.identity)
  inserted ← execute (insert_identity identity_id user_id token.issuer token.subject)
  lift (
      won
        (record {
          identity_id = identity_id;
          user_id = user_id;
          email = email;
          display_name = display_name;
        })
        inserted)

unfoldable pub candidate :
    Others → Draws → VerifiedAccessToken → Text → Text → Option Text → Tx ActiveIdentity
candidate others draws token email email_normalized display_name = do
  user_id ← lift (uuid7 draws.user)
  inserted ← execute (insert_user user_id email email_normalized display_name)
  meanwhile others.user_inserted
  give_identity draws token email display_name inserted

-- `except _IdentityRace`
abbrev pub on_race : {A : Type 0} → Error → Tx A → Tx A
on_race identity_race handler = handler
on_race e handler = lift (err e)

abbrev pub except_race : {A : Type 0} → Tx A → Tx A → Tx A
except_race m handler db =
    let (r, db') = m db in elim r [ ok a ↦ (ok a, db') | err e ↦ on_race e handler db' ]

unfoldable pub resolve_race : Others → VerifiedAccessToken → Tx ActiveIdentity
resolve_race others token = do
  meanwhile others.race_lost
  existing ← query (find_exact_identity token)
  lift (or_missing runtime_error existing)

-- `_create_identity_or_resolve_race`
unfoldable pub create_identity_or_resolve_race :
    Others → (Text → Text) → Draws → VerifiedAccessToken → ExternalUserProfile → Tx ActiveIdentity
create_identity_or_resolve_race others casefold draws token profile =
    let email = strip is_space profile.email in
    let email_normalized = casefold email in
    if is_empty email || is_empty email_normalized
    then lift (err value_error)
    else except_race
        (transaction_among others.user_inserted
          (candidate others draws token email email_normalized profile.display_name))
        (resolve_race others token)

-- The identity that `provision_new_identity` admits.
abbrev pub resolve_identity :
    Others
    → (Text → Text)
    → Draws
    → VerifiedAccessToken
    → ExternalUserProfile
    → Option (IdentityRow × UserRow)
    → Tx ActiveIdentity
resolve_identity others casefold draws token profile (some r) = lift (require_active r)
resolve_identity others casefold draws token profile none =
    create_identity_or_resolve_race others casefold draws token profile

-- `provision_new_identity`
unfoldable pub provision_new_identity :
    Others
    → (Text → Text)
    → Draws
    → VerifiedAccessToken
    → ExternalUserProfile
    → ℕ
    → Tx ProvisionedSession
provision_new_identity others casefold draws token profile ttl_seconds =
    transaction_among
      (λ db. others.session_tried (others.race_lost (others.user_inserted (others.looked db))))
      (do
        existing ← query (find_exact_identity token)
        meanwhile others.looked
        active ← resolve_identity others casefold draws token profile existing
        admit_session others draws token active ttl_seconds)
