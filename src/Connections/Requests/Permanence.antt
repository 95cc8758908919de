-- ===== src/Connections/Requests/Permanence.antt =====
-- What of a row in `connections` no run of Connections/Requests changes.
use bff.Prelude.{ℕ, ◌≡◌, refl, ap, ◌∙◌, List, [], ◌∷◌, All-intro}
use bff.Db.{Db, ConnectionRow}
use bff.Connections.Service.{Platform}
use bff.Connections.Lifecycle.{Evolves, IsBorn}
use bff.Connections.Rows.{Grows, refl-Grows}
use bff.Connections.Requests.{Step, request, other, Reach}
use bff.Connections.Requests.Evolution.{perform-Evolves}
use bff.Connections.Requests.Runs.{Reach-keeps}

-- The identity of a connection, and everything of it once it is archived.
pub record Keeps (c d : ConnectionRow) : Type 0 where
  pub same_id : d.id ≡ c.id
  pub same_workspace : d.workspace_id ≡ c.workspace_id
  pub same_provider : d.provider_key ≡ c.provider_key
  pub same_created : d.created_at ≡ c.created_at
  pub frozen : c.status ≡ "ARCHIVED" → d ≡ c

Keeps-refl : (c : ConnectionRow) → Keeps c c
Keeps-refl c = record {
  same_id = refl;
  same_workspace = refl;
  same_provider = refl;
  same_created = refl;
  frozen = λ _. refl;
}

Evolves-Keeps :
    (now : ℕ) (rs : List _) (c d e : ConnectionRow) → Keeps c d → Evolves now rs d e → Keeps c e
Evolves-Keeps now rs c d e k v = record {
  same_id = v.same_id ∙ k.same_id;
  same_workspace = v.same_workspace ∙ k.same_workspace;
  same_provider = v.same_provider ∙ k.same_provider;
  same_created = v.same_created ∙ k.same_created;
  frozen =
      λ a. let same = k.frozen a in v.frozen (ap (λ (x : ConnectionRow). x.status) same ∙ a) ∙ same;
}

-- Anything may be new.
abbrev pub Any : ConnectionRow → Type 0
Any c = Unit

follow :
    (now : ℕ) (rs : List _) (xs ys zs : List ConnectionRow)
    → Grows Keeps Any xs ys
    → Grows (Evolves now rs) (IsBorn now) ys zs
    → Grows Keeps Any xs zs
follow now rs [] ys zs g h = All-intro Any zs (λ _. tt)
follow now rs (x ∷ xs) [] zs g h = absurd g
follow now rs (x ∷ xs) (y ∷ ys) [] g h = absurd h
follow now rs (x ∷ xs) (y ∷ ys) (z ∷ zs) g h =
    (Evolves-Keeps now rs x y z g.0 h.0, follow now rs xs ys zs g.1 h.1)

-- In every run each connection keeps its identity, Workspace, provider and creation time, and a
-- connection that has been archived is never changed again in any column.
pub Reach-Keeps :
    (p : Platform) (db d : Db) → Reach p db d → Grows Keeps Any db.connections d.connections
Reach-Keeps p db d r =
    Reach-keeps p (λ e. Grows Keeps Any db.connections e.connections) step r
      (refl-Grows Keeps Any db.connections Keeps-refl)
  where
    step :
        (b e : Db)
        → Step p b e
        → Grows Keeps Any db.connections b.connections
        → Grows Keeps Any db.connections e.connections
    step b e (request q is) g =
        rw is (follow b.now _ db.connections b.connections _ g (perform-Evolves p q b))
    step b e (other cs _ _ _) g = rw cs g
