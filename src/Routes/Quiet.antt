-- ===== src/Routes/Quiet.antt =====
-- Handlers that raise nothing but exceptions of the application, and then change nothing.
use bff.Prelude.{◌≡◌, refl}
use mathlib.Core.Path.{subst}
use bff.Result.{Error, Result, ok, err}
use bff.Db.{Db, Tx}
use bff.Db.Rules.{IsAtomic}
use bff.Problems.Refusals.{IsOurs}
use bff.Problems.Handlers.{Raised, domain, invalid_request}
use bff.Routes.Handling.{
  Outcome, returned, raised, Handler, outcome, service, fail, ◌>>=◌, Checked, accepted, rejected,
  broken, checked,
}

-- Whatever the handler raises is the application's, and the tables are as they were.
pub record IsQuiet {A : Type 0} (m : Handler A) : Type 0 where
  pub quiet : (db : Db) (e : Raised) → (m db).0 ≡ raised e → IsOurs e × ((m db).1 ≡ db)

abbrev Quiet : {A : Type 0} → Db → Outcome A × Db → Type 0
Quiet db (returned a, d) = Unit
Quiet db (raised e, d) = IsOurs e × (d ≡ db)

of_Quiet : {A : Type 0} (m : Handler A) → ((db : Db) → Quiet db (m db)) → IsQuiet m
of_Quiet {A} m h = record { quiet = λ db e r. go db (m db) (h db) e r }
  where
    go :
        (db : Db) (out : Outcome A × Db)
        → Quiet db out
        → (e : Raised) → out.0 ≡ raised e
        → IsOurs e × (out.1 ≡ db)
    go db (returned a, d) h e r = cc
    go db (raised x, d) h e r = (let same : x ≡ e = cc in subst IsOurs same h.0, h.1)

to_Quiet : {A : Type 0} (m : Handler A) → IsQuiet m → (db : Db) → Quiet db (m db)
to_Quiet {A} m h db = go (m db) (h.quiet db)
  where
    go :
        (out : Outcome A × Db)
        → ((e : Raised) → out.0 ≡ raised e → IsOurs e × (out.1 ≡ db))
        → Quiet db out
    go (returned a, d) k = tt
    go (raised x, d) k = k x refl

pub service-IsQuiet : {A : Type 0} (m : Tx A) → IsAtomic m → IsQuiet (service m)
service-IsQuiet {A} m atomic = of_Quiet (service m) (λ db. go db (m db) (atomic.rolls_back db))
  where
    go :
        (db : Db) (out : Result A × Db)
        → ((e : Error) → out.0 ≡ err e → out.1 ≡ db)
        → Quiet db (outcome out.0, out.1)
    go db (ok a, d) k = tt
    go db (err e, d) k = (tt, k e refl)

-- A check before the rest
pub fail-IsQuiet :
    {A B : Type 0} (o : Outcome A) (g : A → Handler B)
    → ((e : Raised) → o ≡ raised e → IsOurs e)
    → ((a : A) → IsQuiet (g a))
    → IsQuiet (fail o >>= g)
fail-IsQuiet (returned a) g ours h = h a
fail-IsQuiet (raised e) g ours h = of_Quiet (fail (raised e) >>= g) (λ db. (ours e refl, refl))

pub returned-IsQuiet : {A : Type 0} (a : A) → IsQuiet (fail (returned a))
returned-IsQuiet a = of_Quiet (fail (returned a)) (λ db. tt)

-- A computation, and what is returned of its result
pub return-IsQuiet :
    {A B : Type 0} (m : Handler A) (f : A → B)
    → IsQuiet m
    → IsQuiet (m >>= λ a. fail (returned (f a)))
return-IsQuiet {A} {B} m f h =
    of_Quiet (m >>= λ a. fail (returned (f a))) (λ db. go db (m db) (to_Quiet m h db))
  where
    go :
        (db : Db) (out : Outcome A × Db)
        → Quiet db out
        → Quiet db (((λ _. out) >>= λ a. fail (returned (f a))) db)
    go db (returned a, d) k = tt
    go db (raised e, d) k = k

-- A computation that never changes the tables, and what follows it
pub bind-IsQuiet :
    {A B : Type 0} (m : Tx A) (g : A → Handler B)
    → ((db : Db) → (m db).1 ≡ db)
    → ((a : A) → IsQuiet (g a))
    → IsQuiet (service m >>= g)
bind-IsQuiet {A} {B} m g same h = of_Quiet (service m >>= g) (λ db. go db (m db) (same db))
  where
    go :
        (db : Db) (out : Result A × Db)
        → out.1 ≡ db
        → Quiet db (((λ _. (outcome out.0, out.1)) >>= g) db)
    go db (ok a, d) same = subst (λ x. Quiet x (g a d)) same (to_Quiet (g a) (h a) d)
    go db (err e, d) same = (tt, same)

checked_ours : {A : Type 0} (c : Checked A) (e : Raised) → checked c ≡ raised e → IsOurs e
unfolding checked
checked_ours (accepted a) e h = cc
checked_ours (rejected errors) e h =
    let same : invalid_request errors ≡ e = cc in subst IsOurs same tt
checked_ours (broken x) e h = let same : domain x ≡ e = cc in subst IsOurs same tt

pub checked-IsQuiet :
    {A B : Type 0} (c : Checked A) (g : A → Handler B)
    → ((a : A) → IsQuiet (g a))
    → IsQuiet (fail (checked c) >>= g)
checked-IsQuiet c g h = fail-IsQuiet (checked c) g (checked_ours c) h

outcome_ours : {A : Type 0} (r : Result A) (e : Raised) → outcome r ≡ raised e → IsOurs e
outcome_ours (ok a) e h = cc
outcome_ours (err x) e h = let same : domain x ≡ e = cc in subst IsOurs same tt

pub outcome-IsQuiet :
    {A B : Type 0} (r : Result A) (g : A → Handler B)
    → ((a : A) → IsQuiet (g a))
    → IsQuiet (fail (outcome r) >>= g)
outcome-IsQuiet r g h = fail-IsQuiet (outcome r) g (outcome_ours r) h
