-- ===== src/Authentication/Provisioned.antt =====
-- `provision` keeps the keys of the accounts' tables beside any other transactions that keep them.
use bff.Prelude.{◌||◌, ℕ, ◌≡◌, refl, ap, ◌∙◌, Option, none, some, Bool-cases, inl, inr}
use bff.Result.{
  account_link_required, runtime_error, session_provisioning_authentication, ok, err, identity_race,
  value_error,
}
use bff.Text.{Text, is_space}
use bff.Text.Strip.{strip}
use bff.Ids.{uuid7}
use bff.Db.{Db, IdentityRow, UserRow, lift}
use bff.Db.Rules.{Post, lift_rule, query_rule, execute_rule, query_last, pure_rule, bind_rule}
use bff.Authentication.Models.{
  VerifiedAccessToken, ExternalUserProfile, ProvisioningIdentity, ActiveIdentity,
}
use bff.Authentication.Statements.{
  is_empty, insert_user, insert_identity, insert_session, insert_session_audit, session_event,
}
use bff.Authentication.Reads.{
  find_identity, find_exact_identity, find_session, lock_active_identity, or_missing,
  require_active,
}
use bff.Authentication.Repository.{
  Others, Draws, won, admit_session, finish_admission, admit_existing_identity, give_identity,
  candidate, resolve_race, create_identity_or_resolve_race, resolve_identity,
  provision_new_identity,
}
use bff.Authentication.Rules.{
  Leaves-state, meanwhile-Leaves, query-Leaves, fails-Leaves, lift-Leaves, among-Leaves, Leaves,
  meanwhile_rule, among-Leaves, except_race_rule,
}
use bff.Authentication.Consistency.{
  IsConsistent, insert_user-IsConsistent, insert_identity-IsConsistent, insert_session-IsConsistent,
  insert_session_audit-IsConsistent,
}
use bff.Authentication.Service
use bff.Authentication.Service.{
  check_profile, profile_not_found, verification_failed, Provisioner, provision_identity,
}

-- What other transactions do keeps the keys, also while a user is pending.
abbrev Keeps : (Db → Db) → Type 0
Keeps f = (pending : Option ℕ) (db : Db) → IsConsistent pending db → IsConsistent pending (f db)

pub record AreConsistent (o : Others) : Type 0 where
  pub found : Keeps o.found
  pub looked : Keeps o.looked
  pub user_inserted : Keeps o.user_inserted
  pub race_lost : Keeps o.race_lost
  pub session_tried : Keeps o.session_tried

-- The keys hold after a success.
abbrev Kept : {A : Type 0} → A → Db → Type 0
Kept a d = IsConsistent none d

won-Kept :
    (identity : ActiveIdentity) (r : Option ℕ) (d : Db)
    → ((j : ℕ) → r ≡ some j → IsConsistent none d)
    → Post Kept (lift (won identity r)) d
won-Kept identity none d h = query_last Kept d (λ _. err identity_race) (λ x e. absurd (cc))
won-Kept identity (some j) d h = pure_rule Kept d identity (h j refl)

module _ (o : Others) (keeps : AreConsistent o) (draws : Draws) (token : VerifiedAccessToken) where
  finish-Kept :
      (identity : ActiveIdentity) (r : Option (ℕ × ℕ)) (db : Db)
      → IsConsistent none db
      → Post Kept (finish_admission draws token identity r) db
  finish-Kept identity none db v = query_last Kept db (find_session token identity) (λ r _. v)
  finish-Kept identity (some (i, expires)) db v = lift_rule Kept db (uuid7 draws.audit) _ λ a _.
      execute_rule Kept db (insert_session_audit (session_event a identity.user_id i)) _
        λ u d e. pure_rule Kept d _ (insert_session_audit-IsConsistent _ db d u e v)

  admit_session-Kept :
      (identity : ActiveIdentity) (ttl : ℕ) (db : Db)
      → IsConsistent none db
      → Post Kept (admit_session o draws token identity ttl) db
  unfolding admit_session
  admit_session-Kept identity ttl db v = lift_rule Kept db (uuid7 draws.session) _ λ i _.
      execute_rule Kept db (insert_session i identity.identity_id token.provider_session_id ttl) _
        λ r d e. meanwhile_rule Kept d o.session_tried (finish_admission draws token identity r) (
          finish-Kept identity r (o.session_tried d) (
            keeps.session_tried none d (
              insert_session-IsConsistent i identity.identity_id token.provider_session_id ttl db d
                r e v)))

  give_identity-Kept :
      (email : Text) (display : Option Text) (r : Option ℕ) (db : Db)
      → IsConsistent r db
      → Post Kept (give_identity draws token email display r) db
  give_identity-Kept email display none db v =
      query_rule Kept db (find_exact_identity token) _
        λ row _. query_last Kept db (λ _. or_missing account_link_required row) (λ _ _. v)
  give_identity-Kept email display (some u) db v = lift_rule Kept db (uuid7 draws.identity) _ λ i _.
      execute_rule Kept db (insert_identity i u token.issuer token.subject) _ λ r d e.
        won-Kept _ r d (λ j is.
          insert_identity-IsConsistent i u token.issuer token.subject db d j
            (e ∙ ap (λ x. ok (x, d)) is) v)

  candidate-Kept :
      (email normalized : Text) (display : Option Text) (db : Db)
      → IsConsistent none db
      → Post Kept (candidate o draws token email normalized display) db
  unfolding candidate
  candidate-Kept email normalized display db v = lift_rule Kept db (uuid7 draws.user) _ λ i _.
      execute_rule Kept db (insert_user i email normalized display) _ λ r d e.
        meanwhile_rule Kept d o.user_inserted (give_identity draws token email display r) (
          give_identity-Kept email display r (o.user_inserted d) (
            keeps.user_inserted r d
              (insert_user-IsConsistent i email normalized display db d r e v)))

  resolve_race-Kept : (db : Db) → IsConsistent none db → Post Kept (resolve_race o token) db
  unfolding resolve_race
  resolve_race-Kept db v = meanwhile_rule Kept db o.race_lost _ (
      query_rule Kept (o.race_lost db) (find_exact_identity token) _ λ row _.
        query_last Kept (o.race_lost db) (λ _. or_missing runtime_error row)
          (λ _ _. keeps.race_lost none db v))

  create-Kept :
      (casefold : Text → Text) (profile : ExternalUserProfile) (db : Db)
      → IsConsistent none db
      → Post Kept (create_identity_or_resolve_race o casefold draws token profile) db
  unfolding create_identity_or_resolve_race
  create-Kept casefold profile db v =
      let email = strip is_space profile.email in
      elim (Bool-cases (is_empty email || is_empty (casefold email))) [
        | inl bad ↦ rw bad (query_last Kept db (λ _. err value_error) (λ _ _. v))
        | inr good ↦ rw good (
            except_race_rule Kept db o.user_inserted
              (candidate o draws token email (casefold email) profile.display_name)
              (resolve_race o token)
              (candidate-Kept email (casefold email) profile.display_name db v)
              (resolve_race-Kept (o.user_inserted db) (keeps.user_inserted none db v)))
      ]

  resolve_identity-Kept :
      (casefold : Text → Text) (profile : ExternalUserProfile)
      (row : Option (IdentityRow × UserRow)) (db : Db)
      → IsConsistent none db
      → Post Kept (resolve_identity o casefold draws token profile row) db
  resolve_identity-Kept casefold profile none db v = create-Kept casefold profile db v
  resolve_identity-Kept casefold profile (some r) db v =
      query_last Kept db (λ _. require_active r) (λ _ _. v)

  provision_new-Leaves :
      (casefold : Text → Text) (profile : ExternalUserProfile) (ttl : ℕ) (db : Db)
      → IsConsistent none db
      → Leaves (IsConsistent none) (provision_new_identity o casefold draws token profile ttl) db
  unfolding provision_new_identity
  provision_new-Leaves casefold profile ttl db v =
      among-Leaves (IsConsistent none) db _ _
        (query_rule Kept db (find_exact_identity token) _ λ row _.
          meanwhile_rule Kept db o.looked _ (
            bind_rule Kept Kept (o.looked db) (resolve_identity o casefold draws token profile row)
              _ (resolve_identity-Kept casefold profile row (o.looked db) (keeps.looked none db v))
              (λ active d w. admit_session-Kept active ttl d w)))
        (keeps.session_tried none _
          (keeps.race_lost none _ (keeps.user_inserted none _ (keeps.looked none db v))))

  admit_existing-Leaves :
      (identity : ProvisioningIdentity) (ttl : ℕ) (db : Db)
      → IsConsistent none db
      → Leaves (IsConsistent none) (admit_existing_identity o draws token identity ttl) db
  unfolding admit_existing_identity
  admit_existing-Leaves identity ttl db v =
      among-Leaves (IsConsistent none) db _ _
        (query_rule Kept db (lock_active_identity token identity.identity_id) _ λ active _.
          meanwhile_rule Kept db o.looked (admit_session o draws token active ttl)
            (admit_session-Kept active ttl (o.looked db) (keeps.looked none db v)))
        (keeps.session_tried none _ (keeps.looked none db v))

module _ (p : Provisioner) (o : Others) (keeps : AreConsistent o) (draws : Draws) where
  after_lookup :
      (v : VerifiedAccessToken) (identity : Option ProvisioningIdentity) (db : Db)
      → IsConsistent none db
      → Leaves (IsConsistent none) (provision_identity p o draws v identity) db
  unfolding admit_existing_identity
  after_lookup v (some identity) db h = elim (Bool-cases identity.active) [
    | inl active ↦
        rw active (admit_existing-Leaves o keeps draws v identity p.absolute_ttl_seconds db h)
    | inr inactive ↦ rw inactive (fails-Leaves (IsConsistent none) db _ h)
  ]
  after_lookup v none db h =
      lift-Leaves (IsConsistent none) db (profile_not_found (p.fetch_user v.subject)) _ h
        λ profile _.
          lift-Leaves (IsConsistent none) db (check_profile v profile) _ h λ _ _.
            provision_new-Leaves o keeps draws v p.casefold profile p.absolute_ttl_seconds db h

  -- Whatever `provision` does and whatever other transactions do at its every wait, the keys and
  -- foreign keys of the accounts hold afterwards, and no user is left without an identity.
  pub provision-IsConsistent :
      (clock : ℕ) (token : Text) (db : Db)
      → IsConsistent none db
      → IsConsistent none (Service.provision p o draws clock token db).1
  unfolding Service.provision
  provision-IsConsistent clock token db h =
      Leaves-state (IsConsistent none) db (Service.provision p o draws clock token) (
        lift-Leaves (IsConsistent none) db
          (verification_failed session_provisioning_authentication (p.verify clock token)) _ h
          λ v _. query-Leaves (IsConsistent none) db (find_identity v) _ h λ identity _.
            meanwhile-Leaves (IsConsistent none) db o.found
              (provision_identity p o draws v identity)
              (after_lookup v identity (o.found db) (keeps.found none db h)))
