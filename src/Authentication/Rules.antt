-- ===== src/Authentication/Rules.antt =====
-- What holds when the transactions of Authentication/Repository succeed beside others.
use bff.Prelude.{◌≡◌, refl}
use bff.Result.{Error, Result, ok, err, identity_race}
use bff.Db.{query, Db, Tx, lift, ◌>>=◌, ◌>>◌}
use bff.Db.Rules.{Post, Holds}
use bff.Authentication.Repository.{meanwhile, transaction_among, except_race, on_race}

module _ {A : Type 0} (Q : A → Db → Type 0) (db : Db) where
  pub meanwhile_rule : (f : Db → Db) (m : Tx A) → Post Q m (f db) → Post Q (meanwhile f >> m) db
  unfolding Post
  meanwhile_rule f m h = h

  pub among_rule : (f : Db → Db) (m : Tx A) → Post Q m db → Post Q (transaction_among f m) db
  unfolding Post
  among_rule f m h = go (m db) h
    where
      go : (out : Result A × Db) → Holds Q out → Holds Q (transaction_among f (λ _. out) db)
      go (ok a, d) x = x
      go (err e, d) x = tt

  -- After a lost race the handler begins where only others have written.
  pub except_race_rule :
      (f : Db → Db) (m h : Tx A)
      → Post Q m db
      → Post Q h (f db)
      → Post Q (except_race (transaction_among f m) h) db
  unfolding Post
  except_race_rule f m h p q = go (m db) p
    where
      handled : (e : Error) → Holds Q (on_race e h (f db))
      handled identity_race = q
      handled _ = tt

      go :
          (out : Result A × Db)
          → Holds Q out
          → Holds Q (except_race (transaction_among f (λ _. out)) h db)
      go (ok a, d) x = x
      go (err e, d) x = handled e

-- `I` holds of the tables that `m` leaves, also where it fails.
pub Leaves : {A : Type 0} → (Db → Type 0) → Tx A → Db → Type 0
Leaves I m db = I (m db).1

module _ {A : Type 0} (I : Db → Type 0) (db : Db) where
  pub among-Leaves :
      (f : Db → Db) (m : Tx A)
      → Post (λ _ d. I d) m db
      → I (f db)
      → Leaves I (transaction_among f m) db
  unfolding Post Leaves
  among-Leaves f m h others = go (m db) h
    where
      go : (out : Result A × Db) → Holds (λ _ d. I d) out → I (transaction_among f (λ _. out) db).1
      go (ok a, d) x = x
      go (err e, d) x = others

  pub meanwhile-Leaves :
      (f : Db → Db) (m : Tx A) → Leaves I m (f db) → Leaves I (meanwhile f >> m) db
  unfolding Leaves
  meanwhile-Leaves f m h = h

  pub fails-Leaves : (r : Result A) → I db → Leaves I (lift r) db
  unfolding Leaves
  fails-Leaves r h = h

module _ {A B : Type 0} (I : Db → Type 0) (db : Db) where
  pub lift-Leaves :
      (r : Result A) (g : A → Tx B)
      → I db
      → ((a : A) → r ≡ ok a → Leaves I (g a) db)
      → Leaves I (lift r >>= g) db
  unfolding Leaves
  lift-Leaves (ok a) g h k = k a refl
  lift-Leaves (err e) g h k = h

  pub query-Leaves :
      (f : Db → Result A) (g : A → Tx B)
      → I db
      → ((a : A) → f db ≡ ok a → Leaves I (g a) db)
      → Leaves I (query f >>= g) db
  unfolding Leaves
  query-Leaves f g h k = go (f db) refl
    where
      go : (r : Result A) → f db ≡ r → I ((lift r >>= g) db).1
      go (ok a) e = k a e
      go (err x) e = h

pub Leaves-state : {A : Type 0} (I : Db → Type 0) (db : Db) (m : Tx A) → Leaves I m db → I (m db).1
unfolding Leaves
Leaves-state I db m h = h
