-- ===== src/Tests/Authentication.antt =====
-- The theorems on authentication, applied to the small control plane.
use bff.Prelude.{ltb, if◌then◌else◌, ℕ, ◌+◌, ◌≡◌, refl, ap, true, false, none, arith}
use bff.Result.{access_token_verification, principal_authentication, Result, ok, err}
use bff.Text.{Text, codes, text_eq}
use bff.Text.Strip.{strip}
use bff.Ids.{uuid7, uuid_str, hex_digits}
use bff.Db.{Db}
use bff.Authentication.Models.{VerifiedAccessToken, ProvisionedSession}
use bff.Authentication.Statements.{
  select_identity, join_users, join_user, insert_user, insert_identity, insert_session,
  insert_session_audit,
}
use bff.Authentication.Reads.{find_identity}
use bff.Authentication.Repository.{
  Others, Draws, admit_session, candidate, create_identity_or_resolve_race, provision_new_identity,
}
use bff.Authentication.Consistency.{IsConsistent}
use bff.Authentication.Provisioned.{AreConsistent, provision-IsConsistent}
use bff.Authentication.Admission.{OnlyAdd}
use bff.Authentication.Admitted.{Stays}
use bff.Authentication.Authenticated.{StillVerifies, later-IsConsistent, provision-authenticate}
use bff.Authentication.Replay.{alone, provision-provision}
use bff.Authentication.Evidence.{IsAdmitted, authenticate_iff}
use bff.Authentication.Changes.{Changed, provision-Changed}
use bff.Prelude.{◌↔◌}
use bff.Authentication.Service
use bff.Authentication.Service.{Provisioner}
use bff.Tests.{sample, first_draw}

-- The time passes while the profile is fetched.
abbrev clocked : Others
clocked = record alone { found = λ db. record db { now = db.now + 1 } }

abbrev evidence : Text → VerifiedAccessToken
evidence subject = record {
  issuer = codes "iss";
  subject = subject;
  provider_session_id = codes "s9";
  token_id = codes "t";
  issued_at = 0;
  expires_at = 10_000_000;
}

-- The tokens are accepted for the first ten seconds of the clock.
abbrev verify : ℕ → Text → Result VerifiedAccessToken
verify clock token =
    if ltb clock 10_000_000 then ok (evidence token) else err access_token_verification

abbrev provisioner : Text → Provisioner
provisioner email = record {
  verify = verify;
  fetch_user = λ subject.
      ok (record { subject = subject; email = email; email_verified = true; display_name = none });
  casefold = λ s. s;
  absolute_ttl_seconds = 60;
}

abbrev eve : Provisioner
eve = provisioner (codes " eve@a.example ")

abbrev draws : Draws
draws = record {
  user = first_draw;
  identity = first_draw;
  session = first_draw;
  audit = first_draw;
}

keys : IsConsistent none sample
unfolding text_eq
keys = record {
  user_ids = ((refl, tt), (tt, tt));
  emails = ((refl, tt), (tt, tt));
  identity_ids = ((refl, tt), (tt, tt));
  subjects = ((refl, tt), (tt, tt));
  session_ids = (tt, tt);
  sessions = (tt, tt);
  users_exist = (refl, (refl, tt));
  identities_exist = (refl, tt);
  owned = (refl, (refl, tt));
}

keeps : AreConsistent clocked
keeps = record {
  found = λ pending db v. later-IsConsistent pending db (db.now + 1) v;
  looked = λ pending db v. v;
  user_inserted = λ pending db v. v;
  race_lost = λ pending db v. v;
  session_tried = λ pending db v. v;
}

same : (db : Db) → Stays db db
same db = record { users = λ _ h. h; identities = λ _ h. h; sessions = λ _ h. h }

adds : OnlyAdd clocked
adds = record { looked = same; user_inserted = same; race_lost = same; session_tried = same }

abbrev signed_up : Result ProvisionedSession × Db
signed_up = Service.provision eve clocked draws 20 (codes "eve") sample

abbrev new_id : ℕ
new_id = 6573561814270656701792258

abbrev session : ProvisionedSession
session = record {
  principal = record {
    user_id = new_id;
    auth_session_id = new_id;
    email = codes "eve@a.example";
    display_name = none;
  };
  expires_at = 60_000_010;
  created = true;
}

drawn : uuid7 first_draw ≡ ok new_id
unfolding uuid7
drawn = refl

sign_up_succeeds : signed_up.0 ≡ ok session
unfolding Service.provision find_identity select_identity join_users join_user
    provision_new_identity create_identity_or_resolve_race candidate admit_session insert_user
    insert_identity insert_session insert_session_audit uuid7 uuid_str hex_digits text_eq strip
sign_up_succeeds = refl

whole_session :
    (out : Result ProvisionedSession × Db) (r : ProvisionedSession)
    → out.0 ≡ ok r
    → out ≡ (ok r, out.1)
whole_session (x, d) r h = ap (λ (y : Result ProvisionedSession). (y, d)) h

provision-IsConsistent_example : IsConsistent none signed_up.1
provision-IsConsistent_example =
    provision-IsConsistent eve clocked keeps draws 20 (codes "eve") sample keys

still : StillVerifies eve (codes "eve") 20 500
still v h = h

-- Once the token has expired it no longer authenticates, though the session has not.
expired_test :
    Service.authenticate eve.verify 10_000_000
      (codes "eve")
      (record signed_up.1 { now = 10_000_000 })
    ≡ (err principal_authentication, record signed_up.1 { now = 10_000_000 })
unfolding Service.authenticate
expired_test = refl

provision-authenticate_example :
    Service.authenticate eve.verify 500 (codes "eve") (record signed_up.1 { now = 500 })
    ≡ (ok session.principal, record signed_up.1 { now = 500 })
provision-authenticate_example =
    provision-authenticate eve clocked keeps adds draws 20 (codes "eve") sample signed_up.1 session
      500 500 keys (whole_session signed_up session sign_up_succeeds) still (omega arith)

provision-provision_example :
    Service.provision eve alone draws 500 (codes "eve") (record signed_up.1 { now = 500 })
    ≡ (ok (record session { created = false }), record signed_up.1 { now = 500 })
provision-provision_example =
    provision-provision eve clocked keeps adds draws 20 (codes "eve") sample signed_up.1 session 500
      500 (evidence (codes "eve")) draws new_id keys
      (whole_session signed_up session sign_up_succeeds) (omega arith) still refl refl (omega arith)
      drawn

authenticate_iff_example :
    (Service.authenticate eve.verify 20 (codes "ada") sample ≡ (ok session.principal, sample)) ↔ (
      (sample ≡ sample)
      × ((v : VerifiedAccessToken) × ((eve.verify 20 (codes "ada") ≡ ok v)
            × IsAdmitted v session.principal sample)))
authenticate_iff_example =
    authenticate_iff eve.verify 20 (codes "ada") session.principal sample sample keys

abbrev quiet : Result ProvisionedSession × Db
quiet = Service.provision eve alone draws 20 (codes "eve") sample

quiet_succeeds : quiet.0 ≡ ok (record session { expires_at = 60_000_009 })
unfolding Service.provision find_identity select_identity join_users join_user
    provision_new_identity create_identity_or_resolve_race candidate admit_session insert_user
    insert_identity insert_session insert_session_audit uuid7 uuid_str hex_digits text_eq strip
quiet_succeeds = refl

provision-Changed_example :
    Changed eve 20 (codes "eve") sample (record session { expires_at = 60_000_009 }) quiet.1
provision-Changed_example =
    provision-Changed eve draws 20 (codes "eve") sample quiet.1
      (record session { expires_at = 60_000_009 }) (whole_session quiet _ quiet_succeeds)
