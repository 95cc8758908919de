-- ===== src/Connections/Requests/Runs.antt =====
-- What holds throughout the runs of Connections/Requests.
use bff.Connections.Service.{Platform}
use bff.Connections.Numbers.{IsNumbered, append-IsNumbered}
use bff.Connections.Requests.Revisions.{IsHashed}
use bff.Prelude.{All, All-append, ◌∷◌, []}
use bff.Db.{Db}
use bff.Connections.Requests.{Step, request, other, Reach, here, next}
use bff.Connections.Requests.Revisions.{perform-Revised, Revised, same, appended}

-- A property that every step keeps.
pub Reach-keeps :
    (p : Platform) (I : Db → Type 0)
    → ((d e : Db) → Step p d e → I d → I e)
    → {db d : Db} → Reach p db d
    → I db
    → I d
Reach-keeps p I step here h = h
Reach-keeps p I step (next r s) h = step _ _ s (Reach-keeps p I step r h)

-- In every run the revisions of each connection stay numbered 1, 2, 3, ... in the order of their
-- publication, if they are at first.
pub Reach-IsNumbered :
    (p : Platform) (db d : Db) → Reach p db d → IsNumbered db.revisions → IsNumbered d.revisions
Reach-IsNumbered p db d r h = Reach-keeps p (λ e. IsNumbered e.revisions) step r h
  where
    revise : (b e : Db) → Revised p b e → IsNumbered b.revisions → IsNumbered e.revisions
    revise b e (same q) n = rw q n
    revise b e (appended row q number _) n = rw q (append-IsNumbered b row n number)

    step : (b e : Db) → Step p b e → IsNumbered b.revisions → IsNumbered e.revisions
    step b e (request q is) n = rw is (revise b _ (perform-Revised p q b) n)
    step b e (other _ _ _ q) n = rw q n

-- In every run each revision keeps the digest of its configuration's canonical text, if the first
-- ones have it.
pub Reach-IsHashed :
    (p : Platform) (db d : Db)
    → Reach p db d
    → All (IsHashed p) db.revisions
    → All (IsHashed p) d.revisions
Reach-IsHashed p db d r h = Reach-keeps p (λ e. All (IsHashed p) e.revisions) step r h
  where
    revise :
        (b e : Db) → Revised p b e → All (IsHashed p) b.revisions → All (IsHashed p) e.revisions
    revise b e (same q) n = rw q n
    revise b e (appended row q _ hashed) n =
        rw q (All-append (IsHashed p) b.revisions (row ∷ []) n (hashed, tt))

    step : (b e : Db) → Step p b e → All (IsHashed p) b.revisions → All (IsHashed p) e.revisions
    step b e (request q is) n = rw is (revise b _ (perform-Revised p q b) n)
    step b e (other _ _ _ q) n = rw q n
