-- ===== src/Db/Rules.antt =====
-- What holds when a transaction succeeds, one rule for each way to build one.
use mathlib.Core.Path.{subst}
use bff.Prelude.{◌≡◌, refl, sym, ap, ◌∙◌}
use bff.Result.{Error, Result, ok, err}
use bff.Db.{Db, Tx, pure, lift, query, execute, ◌>>=◌, transaction}

abbrev pub Holds : {A : Type 0} → (A → Db → Type 0) → Result A × Db → Type 0
Holds Q (ok a, db) = Q a db
Holds Q (err e, db) = Unit

-- `Q` holds of the result and the state of a success of `m` at `db`; a failure is left free.
unfoldable pub Post : {A : Type 0} → (A → Db → Type 0) → Tx A → Db → Type 0
Post Q m db = Holds Q (m db)

abbrev pub state_of : Db → Result (Unit {0} × Db) → Db
state_of db (ok (a, d)) = d
state_of db (err e) = db

-- A success is one that its postcondition speaks of.
pub Post-ok :
    {A : Type 0} (Q : A → Db → Type 0) (m : Tx A) (db : Db) {a : A} {db' : Db}
    → Post Q m db
    → m db ≡ (ok a, db')
    → Q a db'
unfolding Post
Post-ok Q m db h e = subst (Holds Q) e h

module _ {A B : Type 0} (Q : B → Db → Type 0) (db : Db) where
  pub query_rule :
      (f : Db → Result A) (g : A → Tx B)
      → ((a : A) → f db ≡ ok a → Post Q (g a) db)
      → Post Q (query f >>= g) db
  unfolding Post
  query_rule f g h = go (f db) refl
    where
      go : (r : Result A) → f db ≡ r → Holds Q ((lift r >>= g) db)
      go (ok a) e = h a e
      go (err x) e = tt

  pub lift_rule :
      (r : Result A) (g : A → Tx B)
      → ((a : A) → r ≡ ok a → Post Q (g a) db)
      → Post Q (lift r >>= g) db
  unfolding Post
  lift_rule (ok a) g h = h a refl
  lift_rule (err x) g h = tt

  pub execute_rule :
      (f : Db → Result (A × Db)) (g : A → Tx B)
      → ((a : A) (db' : Db) → f db ≡ ok (a, db') → Post Q (g a) db')
      → Post Q (execute f >>= g) db
  unfolding Post
  execute_rule f g h = go (f db) refl
    where
      go : (r : Result (A × Db)) → f db ≡ r → Holds Q ((execute (λ _. r) >>= g) db)
      go (ok (a, db')) e = h a db' e
      go (err x) e = tt

module _ {B : Type 0} (Q : B → Db → Type 0) (db : Db) where
  -- A statement that violates no constraint leaves `db'`.
  pub write_rule :
      (f : Db → Result (Unit {0} × Db)) (g : Unit {0} → Tx B) (db' : Db)
      → f db ≡ ok (tt, db')
      → ((u : Unit {0}) → Post Q (g u) db')
      → Post Q (execute f >>= g) db
  write_rule f g db' e h = execute_rule Q db f g (λ a d p. rw (ap (state_of db) (sym p ∙ e)) (h a))

module _ {A : Type 0} (Q : A → Db → Type 0) (db : Db) where
  pub query_last : (f : Db → Result A) → ((a : A) → f db ≡ ok a → Q a db) → Post Q (query f) db
  unfolding Post
  query_last f h = go (f db) refl
    where
      go : (r : Result A) → f db ≡ r → Holds Q (lift r db)
      go (ok a) e = h a e
      go (err x) e = tt

  pub pure_rule : (a : A) → Q a db → Post Q (pure a) db
  unfolding Post
  pure_rule a h = h

  transaction_result : (out : Result A × Db) → Holds Q out → Holds Q (transaction (λ _. out) db)
  transaction_result (ok a, db') h = h
  transaction_result (err e, db') h = tt

  pub transaction_rule : (m : Tx A) → Post Q m db → Post Q (transaction m) db
  unfolding Post
  transaction_rule m h = transaction_result (m db) h

-- A computation that leaves the tables as they were when it fails.
pub record IsAtomic {A : Type 0} (m : Tx A) : Type 0 where
  pub rolls_back : (db : Db) (e : Error) → (m db).0 ≡ err e → (m db).1 ≡ db

rollback :
    {A : Type 0} (db : Db) (out : Result A × Db) (e : Error)
    → (transaction (λ _. out) db).0 ≡ err e
    → (transaction (λ _. out) db).1 ≡ db
rollback db (ok a, db') e h = cc
rollback db (err x, db') e h = refl

pub transaction-IsAtomic : {A : Type 0} (m : Tx A) → IsAtomic (transaction m)
transaction-IsAtomic m = record { rolls_back = λ db e h. rollback db (m db) e h }

pub lift-IsAtomic :
    {A B : Type 0} (r : Result A) (g : A → Tx B)
    → ((a : A) → IsAtomic (g a))
    → IsAtomic (lift r >>= g)
lift-IsAtomic (ok a) g h = h a
lift-IsAtomic (err x) g h = record { rolls_back = λ db e p. refl }

pub fails-IsAtomic : {A : Type 0} (r : Result A) → IsAtomic (lift r)
fails-IsAtomic r = record { rolls_back = λ db e h. refl }

pub query-IsAtomic :
    {A B : Type 0} (f : Db → Result A) (g : A → Tx B)
    → ((a : A) → IsAtomic (g a))
    → IsAtomic (query f >>= g)
query-IsAtomic f g h = record {
  rolls_back = λ db e failed. (lift-IsAtomic (f db) g h).rolls_back db e failed;
}

module _ {A : Type 0} (db : Db) (m : Tx A) where
  pub Post-imp :
      (P Q : A → Db → Type 0) → ((a : A) (d : Db) → P a d → Q a d) → Post P m db → Post Q m db
  unfolding Post
  Post-imp P Q f h = go (m db) h
    where
      go : (out : Result A × Db) → Holds P out → Holds Q out
      go (ok a, d) x = f a d x
      go (err e, d) x = tt

  -- What holds before, and after a success, holds after an atomic computation.
  pub state_rule : (P : Db → Type 0) → IsAtomic m → P db → Post (λ _ d. P d) m db → P (m db).1
  unfolding Post
  state_rule P atomic before after = go (m db) refl after
    where
      go : (out : Result A × Db) → m db ≡ out → Holds (λ _ d. P d) out → P (m db).1
      go (ok a, d) e h = rw e h
      go (err x, d) e h = rw (atomic.rolls_back db x (ap (λ (o : Result A × Db). o.0) e)) before

-- A computation, and what follows it.
pub bind_rule :
    {A B : Type 0} (P : A → Db → Type 0) (Q : B → Db → Type 0) (db : Db) (m : Tx A) (f : A → Tx B)
    → Post P m db
    → ((a : A) (d : Db) → P a d → Post Q (f a) d)
    → Post Q (m >>= f) db
unfolding Post
bind_rule {A} {B} P Q db m f h k = go (m db) h
  where
    go : (out : Result A × Db) → Holds P out → Holds Q (((λ _. out) >>= f) db)
    go (ok a, d) x = k a d x
    go (err e, d) x = tt

-- A computation whose success is never followed by a failure.
pub bind-IsAtomic :
    {A B : Type 0} (P : A → Db → Type 0) (m : Tx A) (f : A → Result B)
    → IsAtomic m
    → ((db : Db) → Post P m db)
    → ((a : A) (d : Db) → P a d → (b : B) × (f a ≡ ok b))
    → IsAtomic (m >>= λ a. lift (f a))
unfolding Post
bind-IsAtomic {A} {B} P m f atomic h k = record {
  rolls_back = λ db e failed. go db (m db) (h db) (atomic.rolls_back db) e failed;
}
  where
    go :
        (db : Db) (out : Result A × Db)
        → Holds P out
        → ((x : Error) → out.0 ≡ err x → out.1 ≡ db)
        → (e : Error) → (((λ _. out) >>= λ a. lift (f a)) db).0 ≡ err e
        → (((λ _. out) >>= λ a. lift (f a)) db).1 ≡ db
    go db (ok a, d) x r e failed = let (b, good) = k a d x in cc
    go db (err y, d) x r e failed = r y refl

-- The result is dropped.
abbrev pub void : {A : Type 0} → Tx A → Tx (Unit {0})
void m = m >>= λ _. pure tt

voided :
    {A : Type 0} (db : Db) (out : Result A × Db) (e : Error)
    → ((x : Error) → out.0 ≡ err x → out.1 ≡ db)
    → (void (λ _. out) db).0 ≡ err e
    → (void (λ _. out) db).1 ≡ db
voided db (ok a, d) e h p = cc
voided db (err x, d) e h p = h x refl

pub void-IsAtomic : {A : Type 0} (m : Tx A) → IsAtomic m → IsAtomic (void m)
void-IsAtomic m atomic = record {
  rolls_back = λ db e h. voided db (m db) e (atomic.rolls_back db) h;
}

pub void_rule :
    {A : Type 0} (db : Db) (m : Tx A) (P : Db → Type 0)
    → Post (λ _ d. P d) m db
    → Post (λ _ d. P d) (void m) db
unfolding Post
void_rule {A} db m P h = go (m db) h
  where
    go : (out : Result A × Db) → Holds (λ _ d. P d) out → Holds (λ _ d. P d) (void (λ _. out) db)
    go (ok a, d) x = x
    go (err e, d) x = tt

-- A step whose outcome is known.
module _ {A B : Type 0} (g : A → Tx B) (db : Db) where
  pub lift_step : (r : Result A) (a : A) → r ≡ ok a → (lift r >>= g) db ≡ g a db
  lift_step r a e = ap (λ (x : Result A). (lift x >>= g) db) e

  pub query_step : (f : Db → Result A) (a : A) → f db ≡ ok a → (query f >>= g) db ≡ g a db
  query_step f a e = ap (λ (x : Result A). (query (λ _. x) >>= g) db) e

  pub execute_step :
      (f : Db → Result (A × Db)) (a : A) (d : Db) → f db ≡ ok (a, d) → (execute f >>= g) db ≡ g a d
  execute_step f a d e = ap (λ (x : Result (A × Db)). (execute (λ _. x) >>= g) db) e
