-- ===== src/Authentication/Replay.antt =====
-- `provision` for a token whose session is there already.
use bff.Prelude.{
  Option, none, ℕ, ◌≡◌, refl, sym, ap, ◌∙◌, true, false, ◌<◌, ltb, some, any, any_of_In, arith,
}
use bff.Result.{Result, ok, session_provisioning_authentication}
use bff.Text.{Text}
use bff.Ids.{uuid7}
use bff.Db.{Db, Tx, query, execute, ◌>>=◌, ◌>>◌}
use bff.Db.Rules.{lift_step, query_step, execute_step}
use bff.Authentication.Models.{ProvisioningIdentity, VerifiedAccessToken, ProvisionedSession}
use bff.Authentication.Statements.{is_empty, insert_session, is_session, is_live, expiry}
use bff.Authentication.Reads.{find_identity, lock_active_identity, find_session, identity_of}
use bff.Authentication.Repository.{
  finish_admission, meanwhile, Others, Draws, transaction_among, admit_session,
  admit_existing_identity,
}
use bff.Authentication.Consistency.{IsConsistent}
use bff.Authentication.Provisioned.{AreConsistent}
use bff.Authentication.Admission.{OnlyAdd}
use bff.Authentication.Authenticated.{StillVerifies, provision-later}
use bff.Authentication.Admitted.{Admitted}
use bff.Authentication.Unique.{select_identity-row, one_session, is_session-found}
use bff.Authentication.Service
use bff.Authentication.Service.{Provisioner, provision_identity, verification_failed}

-- Nothing happens meanwhile.
abbrev pub alone : Others
alone = record {
  found = λ db. db;
  looked = λ db. db;
  user_inserted = λ db. db;
  race_lost = λ db. db;
  session_tried = λ db. db;
}

module _ (token : VerifiedAccessToken) (r : ProvisionedSession) (db : Db)
    (keys : IsConsistent none db) (m : Admitted token r db) where
  find_identity-found : find_identity token db ≡ ok (some (identity_of m.known.row))
  unfolding find_identity
  find_identity-found =
      rw (select_identity-row token.issuer token.subject db keys m.known.row m.known.stored) refl

  lock-found : lock_active_identity token m.known.row.0.id db ≡ ok m.identity
  unfolding lock_active_identity
  lock-found =
      rw (select_identity-row token.issuer token.subject db keys m.known.row m.known.stored)
        (ground (arith, m.known.active, m.known.shown))

  find_session-found :
      db.now < r.expires_at → find_session token m.identity db ≡ ok (record r { created = false })
  unfolding find_session
  find_session-found h = rw (one_session token r db keys m) (
      let live : is_live db m.session ≡ true = ground (arith, m.unrevoked, m.same_expiry) in
      rw live (ground (arith, m.same_principal, m.same_expiry)))

  taken : any (is_session m.identity.identity_id token.provider_session_id) db.auth_sessions ≡ true
  taken = any_of_In _ db.auth_sessions m.open_session (is_session-found token r db keys m)

  insert_session-taken :
      (id ttl : ℕ)
      → is_empty token.provider_session_id ≡ false
      → 0 < ttl
      → insert_session id m.identity.identity_id token.provider_session_id ttl db ≡ ok (none, db)
  unfolding insert_session
  insert_session-taken id ttl named positive =
      let later : ltb db.now (expiry ttl db) ≡ true = ground arith in rw (named, later, taken) refl

  after_insert : Draws → Option (ℕ × ℕ) → Tx ProvisionedSession
  after_insert draws out =
      meanwhile alone.session_tried >> finish_admission draws token m.identity out

  session_again :
      (draws : Draws) (id ttl : ℕ)
      → uuid7 draws.session ≡ ok id
      → is_empty token.provider_session_id ≡ false
      → 0 < ttl
      → db.now < r.expires_at
      → admit_session alone draws token m.identity ttl db ≡ (ok (record r { created = false }), db)
  unfolding admit_session after_insert
  session_again draws id ttl drawn named positive h =
      lift_step
        (λ i.
          execute (insert_session i m.identity.identity_id token.provider_session_id ttl)
          >>= after_insert draws)
        db (uuid7 draws.session) id drawn
      ∙ execute_step (after_insert draws) db
          (insert_session id m.identity.identity_id token.provider_session_id ttl) none db
          (insert_session-taken id ttl named positive)
      ∙ ap (λ x. (x, db)) (find_session-found h)

  admitted_again :
      (draws : Draws) (id ttl : ℕ)
      → uuid7 draws.session ≡ ok id
      → is_empty token.provider_session_id ≡ false
      → 0 < ttl
      → db.now < r.expires_at
      → admit_existing_identity alone draws token (identity_of m.known.row) ttl db
        ≡ (ok (record r { created = false }), db)
  unfolding admit_existing_identity
  admitted_again draws id ttl drawn named positive h =
      ap (λ (x : Result ProvisionedSession × Db). transaction_among (λ y. y) (λ _. x) db)
        (query_step (λ a. meanwhile alone.looked >> admit_session alone draws token a ttl) db
            (lock_active_identity token m.known.row.0.id) m.identity lock-found
          ∙ session_again draws id ttl drawn named positive h)

  known_again :
      (p : Provisioner) (draws : Draws) (id : ℕ)
      → uuid7 draws.session ≡ ok id
      → is_empty token.provider_session_id ≡ false
      → 0 < p.absolute_ttl_seconds
      → db.now < r.expires_at
      → provision_identity p alone draws token (some (identity_of m.known.row)) db
        ≡ (ok (record r { created = false }), db)
  unfolding admit_existing_identity
  known_again p draws id drawn named positive h =
      rw m.known.active (admitted_again draws id p.absolute_ttl_seconds drawn named positive h)

  provisioned_again :
      (p : Provisioner) (draws : Draws) (clock : ℕ) (text : Text) (id : ℕ)
      → p.verify clock text ≡ ok token
      → uuid7 draws.session ≡ ok id
      → is_empty token.provider_session_id ≡ false
      → 0 < p.absolute_ttl_seconds
      → db.now < r.expires_at
      → Service.provision p alone draws clock text db ≡ (ok (record r { created = false }), db)
  unfolding Service.provision
  provisioned_again p draws clock text id verified drawn named positive h =
      lift_step after_verify db
        (verification_failed session_provisioning_authentication (p.verify clock text)) token
        (rw verified refl)
      ∙ query_step (after_find token) db (find_identity token) (some (identity_of m.known.row))
          find_identity-found
      ∙ known_again p draws id drawn named positive h
    where
      after_find : VerifiedAccessToken → Option ProvisioningIdentity → Tx ProvisionedSession
      after_find v identity = meanwhile alone.found >> provision_identity p alone draws v identity

      after_verify : VerifiedAccessToken → Tx ProvisionedSession
      after_verify v = query (find_identity v) >>= after_find v

module _ (p : Provisioner) (o : Others) (keeps : AreConsistent o) (adds : OnlyAdd o) (draws : Draws)
    (clock : ℕ) (token : Text) where
  -- Where `provision` has succeeded beside transactions that only add accounts and keep the keys, calling it
  -- again on the tables as they were left, with nothing else going on, while the verifier still accepts the token with the claims that it had
  -- and the session has not expired, returns the same session as not created and changes nothing; the
  -- lifetime is positive and the token names a session.
  pub provision-provision :
      (db d : Db) (r : ProvisionedSession) (then later : ℕ) (v : VerifiedAccessToken)
      (again : Draws) (id : ℕ)
      → IsConsistent none db
      → Service.provision p o draws clock token db ≡ (ok r, d)
      → later < r.expires_at
      → StillVerifies p token clock then
      → p.verify clock token ≡ ok v
      → is_empty v.provider_session_id ≡ false
      → 0 < p.absolute_ttl_seconds
      → uuid7 again.session ≡ ok id
      → Service.provision p alone again then token (record d { now = later })
        ≡ (ok (record r { created = false }), record d { now = later })
  provision-provision db d r then later v again id keys h before accepted verified named positive
        drawn =
      let (w, (e, (kept, m))) =
        provision-later p o keeps adds draws clock token db d r later keys h in
      let same : v ≡ w = cc in
      provisioned_again w r (record d { now = later }) kept m p again then token id (accepted w e)
        drawn (ap (λ (x : VerifiedAccessToken). is_empty x.provider_session_id) (sym same) ∙ named)
        positive before
