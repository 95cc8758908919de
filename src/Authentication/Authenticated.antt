-- ===== src/Authentication/Authenticated.antt =====
-- `authenticate` after `provision`.
use bff.Prelude.{inr, inl, Bool-cases, ℕ, ◌≡◌, refl, ap, ◌<◌, Option, none, some}
use bff.Result.{
  access_token_verification, session_provisioning_authentication, Error, Result, ok, err,
}
use bff.Text.{Text}
use bff.Db.{Db}
use bff.Authentication.Models.{VerifiedAccessToken, AuthenticatedPrincipal, ProvisionedSession}
use bff.Authentication.Statements.{join_users, select_identity, join_sessions, select_principal}
use bff.Authentication.Consistency.{IsConsistent}
use bff.Authentication.Admitted.{Admitted, Admitted-stays}
use bff.Db.Rules.{Post, Post-ok, Post-imp, lift_rule, query_rule, query_last}
use mathlib.Core.Path.{subst}
use bff.Authentication.Models.{ProvisioningIdentity}
use bff.Authentication.Reads.{find_identity}
use bff.Authentication.Repository.{Others, Draws, admit_existing_identity}
use bff.Authentication.Rules.{meanwhile_rule}
use bff.Authentication.Provisioned.{AreConsistent, provision-IsConsistent}
use bff.Authentication.Admission.{OnlyAdd, provision_new-Admitted, admit_existing-Admitted}
use bff.Authentication.Service
use bff.Authentication.Service.{
  Provisioner, provision_identity, verification_failed, profile_not_found, check_profile,
}
use bff.Authentication.Principals.{resolve_active_principal}
use bff.Authentication.Unique.{resolve-principal}

-- The same at a later time.
pub later-IsConsistent :
    (pending : Option ℕ) (db : Db) (later : ℕ)
    → IsConsistent pending db
    → IsConsistent pending (record db { now = later })
later-IsConsistent pending db later v = record {
  user_ids = v.user_ids;
  emails = v.emails;
  identity_ids = v.identity_ids;
  subjects = v.subjects;
  session_ids = v.session_ids;
  sessions = v.sessions;
  users_exist = v.users_exist;
  identities_exist = v.identities_exist;
  owned = v.owned;
}

later-Admitted :
    (token : VerifiedAccessToken) (r : ProvisionedSession) (db : Db) (later : ℕ)
    → Admitted token r db
    → Admitted token r (record db { now = later })
later-Admitted token r db later m =
    Admitted-stays token db (record db { now = later })
      (record { users = λ _ h. h; identities = λ _ h. h; sessions = λ _ h. h }) r m

pub verified_token :
    {A : Type 0} (e : Error) (x : Result A) (v : A) → verification_failed e x ≡ ok v → x ≡ ok v
verified_token e (ok a) v h = h
verified_token e (err access_token_verification) v h = absurd (cc)
verified_token e (err _) v h = absurd (cc)

pub authenticates :
    (verify : ℕ → Text → Result VerifiedAccessToken) (clock : ℕ) (token : Text)
    (v : VerifiedAccessToken) (q : AuthenticatedPrincipal) (db : Db)
    → verify clock token ≡ ok v
    → resolve_active_principal v db ≡ ok (some q)
    → Service.authenticate verify clock token db ≡ (ok q, db)
unfolding Service.authenticate resolve_active_principal select_principal join_sessions
    select_identity join_users
authenticates verify clock token v q db e h = rw (e, h) refl

-- At the time `then` the verifier gives of the token the claims that it gave at `clock`: a token that has
-- expired by then does not.
abbrev pub StillVerifies : Provisioner → Text → ℕ → ℕ → Type 0
StillVerifies p token clock then =
    (v : VerifiedAccessToken) → p.verify clock token ≡ ok v → p.verify then token ≡ ok v

module _ (p : Provisioner) (o : Others) (keeps : AreConsistent o) (adds : OnlyAdd o) (draws : Draws)
    (clock : ℕ) (token : Text) where
  -- The session was admitted for the token that was verified.
  abbrev AdmittedFor : ProvisionedSession → Db → Type 0
  AdmittedFor r d = (v : VerifiedAccessToken) × ((p.verify clock token ≡ ok v) × Admitted v r d)

  identity-Admitted :
      (v : VerifiedAccessToken) (identity : Option ProvisioningIdentity) (db : Db)
      → Post (λ r d. Admitted v r d) (provision_identity p o draws v identity) db
  unfolding admit_existing_identity
  identity-Admitted v (some identity) db = elim (Bool-cases identity.active) [
    | inl active ↦
        rw active (admit_existing-Admitted o adds draws v identity p.absolute_ttl_seconds db)
    | inr inactive ↦ rw inactive (
        query_last (Admitted v) db (λ _. err session_provisioning_authentication)
          (λ x e. absurd (cc)))
  ]
  identity-Admitted v none db =
      lift_rule (Admitted v) db (profile_not_found (p.fetch_user v.subject)) _ λ profile _.
        lift_rule (Admitted v) db (check_profile v profile) _
          λ _ _. provision_new-Admitted o adds draws v p.casefold profile p.absolute_ttl_seconds db

  provision-AdmittedFor : (db : Db) → Post AdmittedFor (Service.provision p o draws clock token) db
  unfolding Service.provision
  provision-AdmittedFor db =
      lift_rule AdmittedFor db
        (verification_failed session_provisioning_authentication (p.verify clock token)) _
        λ v e. query_rule AdmittedFor db (find_identity v) _ λ identity _.
          meanwhile_rule AdmittedFor db o.found (provision_identity p o draws v identity) (
            Post-imp (o.found db) _ (λ r d. Admitted v r d) AdmittedFor
              (λ r d m. (v, (verified_token _ (p.verify clock token) v e, m)))
              (identity-Admitted v identity (o.found db)))

  -- What a success leaves, at any later time.
  pub provision-later :
      (db d : Db) (r : ProvisionedSession) (later : ℕ)
      → IsConsistent none db
      → Service.provision p o draws clock token db ≡ (ok r, d)
      → (v : VerifiedAccessToken) × ((p.verify clock token ≡ ok v)
          × (IsConsistent none (record d { now = later })
              × Admitted v r (record d { now = later })))
  provision-later db d r later keys h =
      let (v, (e, m)) =
        Post-ok AdmittedFor (Service.provision p o draws clock token) db (provision-AdmittedFor db)
          h in
      let kept : IsConsistent none d =
        subst (IsConsistent none) (ap (λ (x : Result ProvisionedSession × Db). x.1) h)
          (provision-IsConsistent p o keeps draws clock token db keys) in
      (v, (e, (later-IsConsistent none d later kept, later-Admitted v r d later m)))

  -- Where `provision` succeeds beside transactions that only add accounts and keep the keys, the token
  -- authenticates as the principal of the session that was returned, on the tables as they were left, at any
  -- later time when the verifier still accepts the token, with the claims that it had, and the session has
  -- not expired.
  pub provision-authenticate :
      (db d : Db) (r : ProvisionedSession) (then later : ℕ)
      → IsConsistent none db
      → Service.provision p o draws clock token db ≡ (ok r, d)
      → StillVerifies p token clock then
      → later < r.expires_at
      → Service.authenticate p.verify then token (record d { now = later })
        ≡ (ok r.principal, record d { now = later })
  provision-authenticate db d r then later keys h accepted before =
      let (v, (e, (kept, m))) = provision-later db d r later keys h in
      authenticates p.verify then token v r.principal (record d { now = later }) (accepted v e)
        (resolve-principal v r (record d { now = later }) kept m before)
