-- ===== src/Authentication/Changes.antt =====
-- What a successful `provision` has changed, with nothing else going on.
use bff.Prelude.{ℕ, arith, ◌≡◌, refl, true, ◌||◌, Option, none, some, Bool-cases, inl, inr}
use bff.Result.{Result, ok, err, value_error, runtime_error, session_provisioning_authentication}
use bff.Result.{external_user_profile_not_found}
use bff.Text.{text_eq_iff, Text, is_space}
use bff.Text.Strip.{strip}
use bff.Db.{Db, UserRow, IdentityRow}
use bff.Db.Rules.{Post, Post-ok, Post-imp, lift_rule, query_rule, query_last, bind_rule}
use bff.Authentication.Models.{
  VerifiedAccessToken, ExternalUserProfile, ProvisioningIdentity, ProvisionedSession,
  ActiveIdentity,
}
use bff.Authentication.Statements.{is_empty}
use bff.Authentication.Reads.{find_identity, find_exact_identity, lock_active_identity}
use bff.Authentication.Repository.{
  Draws, admit_session, admit_existing_identity, candidate, resolve_race,
  create_identity_or_resolve_race, resolve_identity, provision_new_identity,
}
use bff.Authentication.Rules.{among_rule, except_race_rule}
use bff.Authentication.Admitted.{Known, lock-Known}
use bff.Authentication.Authenticated.{verified_token}
use bff.Authentication.Replay.{alone}
use bff.Authentication.Service
use bff.Authentication.Service.{
  Provisioner, provision_identity, verification_failed, profile_not_found, check_profile,
}
use bff.Authentication.Effects.{
  SignedUp, Opened, Resolved, existing, signed_up, admit_session-Opened, candidate-Resolved,
  missing-Resolved,
}

found_profile :
    (x : Result ExternalUserProfile) (profile : ExternalUserProfile)
    → profile_not_found x ≡ ok profile
    → x ≡ ok profile
found_profile (ok a) profile h = h
found_profile (err external_user_profile_not_found) profile h = absurd (cc)
found_profile (err _) profile h = absurd (cc)

-- A profile that may sign up.
pub record IsTrusted (p : Provisioner) (v : VerifiedAccessToken) (profile : ExternalUserProfile)
    : Type 0 where
  pub fetched : p.fetch_user v.subject ≡ ok profile
  pub same_subject : profile.subject ≡ v.subject
  pub verified_email : profile.email_verified ≡ true

-- The identity that was admitted: a known one, or that of a new user with a trusted profile.
pub data Identified (p : Provisioner) (v : VerifiedAccessToken) (db : Db) (a : ActiveIdentity)
    (e : Db) : Type 0 where
  known : Known v a db → e ≡ db → Identified p v db a e
  new :
      (profile : ExternalUserProfile)
      → IsTrusted p v profile
      → SignedUp p.casefold v profile db a e
      → Identified p v db a e

pub record Changed (p : Provisioner) (clock : ℕ) (token : Text) (db : Db) (r : ProvisionedSession)
    (d : Db) : Type 0 where
  pub verified : VerifiedAccessToken
  pub is_verified : p.verify clock token ≡ ok verified
  pub identity : ActiveIdentity
  pub between : Db
  pub identified : Identified p verified db identity between
  pub session : Opened verified p.absolute_ttl_seconds identity between r d

module _ (p : Provisioner) (draws : Draws) (v : VerifiedAccessToken) (db : Db) where
  abbrev Done : ProvisionedSession → Db → Type 0
  Done r d =
      (a : ActiveIdentity) × ((e : Db) × (Identified p v db a e
          × Opened v p.absolute_ttl_seconds a e r d))

  resolved-Resolved :
      (profile : ExternalUserProfile) (row : Option (IdentityRow × UserRow))
      → find_exact_identity v db ≡ ok row
      → Post
          (λ a e. Resolved p.casefold v profile db a e)
          (resolve_identity alone p.casefold draws v profile row)
          db
  unfolding create_identity_or_resolve_race resolve_race
  resolved-Resolved profile (some r) h =
      missing-Resolved p.casefold draws v profile db runtime_error (some r) db refl h
  resolved-Resolved profile none h =
      let R : ActiveIdentity → Db → Type 0 = λ a e. Resolved p.casefold v profile db a e in
      let email = strip is_space profile.email in
      elim (Bool-cases (is_empty email || is_empty (p.casefold email))) [
        | inl bad ↦ rw bad (query_last R db (λ _. err value_error) (λ x e. absurd (cc)))
        | inr good ↦ rw good (
            except_race_rule R db alone.user_inserted
              (candidate alone draws v email (p.casefold email) profile.display_name)
              (resolve_race alone v) (candidate-Resolved p.casefold draws v profile db good)
              (query_rule R db (find_exact_identity v) _ λ row k.
                missing-Resolved p.casefold draws v profile db runtime_error row db refl k))
      ]

  identified :
      (profile : ExternalUserProfile) (a : ActiveIdentity) (e : Db)
      → IsTrusted p v profile
      → Resolved p.casefold v profile db a e
      → Identified p v db a e
  identified profile a e t (existing k same) = known k same
  identified profile a e t (signed_up s) = new profile t s

  admitted :
      (a : ActiveIdentity) (e : Db)
      → Identified p v db a e
      → Post Done (admit_session alone draws v a p.absolute_ttl_seconds) e
  admitted a e i =
      Post-imp e _ (λ r d. Opened v p.absolute_ttl_seconds a e r d) Done (λ r d s. (a, (e, (i, s))))
        (admit_session-Opened draws v p.absolute_ttl_seconds a e)

  new-Done :
      (profile : ExternalUserProfile)
      → IsTrusted p v profile
      → Post Done
          (provision_new_identity alone p.casefold draws v profile p.absolute_ttl_seconds)
          db
  unfolding provision_new_identity
  new-Done profile t = among_rule Done db _ _ (
      query_rule Done db (find_exact_identity v) _ λ row h.
        bind_rule (λ a e. Resolved p.casefold v profile db a e) Done db
          (resolve_identity alone p.casefold draws v profile row) _
          (resolved-Resolved profile row h) (λ a e s. admitted a e (identified profile a e t s)))

  existing-Done :
      (identity : ProvisioningIdentity)
      → Post Done (admit_existing_identity alone draws v identity p.absolute_ttl_seconds) db
  unfolding admit_existing_identity
  existing-Done identity = among_rule Done db _ _ (
      query_rule Done db (lock_active_identity v identity.identity_id) _
        λ a h. admitted a db (known (lock-Known v db identity.identity_id a h) refl))

  trusted :
      (profile : ExternalUserProfile) (u : Unit {0})
      → profile_not_found (p.fetch_user v.subject) ≡ ok profile
      → check_profile v profile ≡ ok u
      → IsTrusted p v profile
  trusted profile u h k = record {
    fetched = found_profile (p.fetch_user v.subject) profile h;
    same_subject = ground (arith, text_eq_iff profile.subject v.subject);
    verified_email = ground arith;
  }

  looked-Done :
      (identity : Option ProvisioningIdentity)
      → Post Done (provision_identity p alone draws v identity) db
  unfolding admit_existing_identity
  looked-Done (some identity) = elim (Bool-cases identity.active) [
    | inl active ↦ rw active (existing-Done identity)
    | inr inactive ↦
        rw inactive
          (query_last Done db (λ _. err session_provisioning_authentication) (λ x e. absurd (cc)))
  ]
  looked-Done none = lift_rule Done db (profile_not_found (p.fetch_user v.subject)) _ λ profile h.
      lift_rule Done db (check_profile v profile) _ λ u k. new-Done profile (trusted profile u h k)

module _ (p : Provisioner) (draws : Draws) (clock : ℕ) (token : Text) where
  change :
      (db : Db)
      → Post (λ r d. Changed p clock token db r d) (Service.provision p alone draws clock token) db
  unfolding Service.provision
  change db =
      let Q : ProvisionedSession → Db → Type 0 = λ r d. Changed p clock token db r d in
      lift_rule Q db
        (verification_failed session_provisioning_authentication (p.verify clock token)) _
        λ v e. query_rule Q db (find_identity v) _ λ identity _.
          Post-imp db _ (Done p draws v db) Q
            (λ r d (a, (m, (i, s))). record {
              verified = v;
              is_verified = verified_token _ (p.verify clock token) v e;
              identity = a;
              between = m;
              identified = i;
              session = s;
            })
            (looked-Done p draws v db identity)

  -- Where `provision` succeeds with nothing else going on, it has admitted the identity of a verified token: one
  -- whose rows are there and active, or that of one new user, whose profile the provider gave for the
  -- token's subject with a verified email, which stripped and casefolded was no user's, while the token's
  -- subject was no identity. And either nothing else has changed, and it returns as not created the id and the
  -- expiry of a stored session of that identity for the session that the token names, neither revoked nor
  -- expired; or there was no such session, revoked or not, and it returns one new session, stored with one audit
  -- event. No other row of any table has changed.
  pub provision-Changed :
      (db d : Db) (r : ProvisionedSession)
      → Service.provision p alone draws clock token db ≡ (ok r, d)
      → Changed p clock token db r d
  provision-Changed db d r h =
      Post-ok (λ s e. Changed p clock token db s e) (Service.provision p alone draws clock token) db
        (change db) h
