-- ===== src/Connections/Requests/Sound.antt =====
-- The rows of `connections` throughout the runs of Connections/Requests: what the CHECK constraints
-- of the table and the policies of the domain are there to keep.
use bff.Prelude.{
  [], ◌∷◌, any-append, some, if◌then◌else◌, List, ℕ, ◌≡◌, refl, sym, ◌∙◌, Bool, true, false, not,
  is_none, str_eq, ◌⊎◌, inl, inr, String, All, differ,
}
use bff.Db.{Db, ConnectionRow, RevisionRow}
use bff.Connections.Service.{Platform}
use bff.Connections.Models.{ConnectionStatus}
use bff.Connections.Values.{status_value}
use bff.Connections.Lifecycle.{Evolves, IsBorn, Move, has_revision}
use bff.Connections.Rows.{Grows-All}
use bff.Connections.Requests.{perform, Step, request, other, Reach}
use bff.Connections.Requests.Evolution.{perform-Evolves}
use bff.Connections.Requests.Revisions.{perform-Revised, Revised, same, appended}
use bff.Connections.Requests.Runs.{Reach-keeps}

-- A row that the domain understands: its status is a member of the enum, it has an archiving time
-- exactly if it is archived, and it has a revision if it is active or disabled.
pub record IsSound (revisions : List RevisionRow) (c : ConnectionRow) : Type 0 where
  pub status : ConnectionStatus
  pub known : c.status ≡ status_value status
  pub archived : is_none c.archived_at ≡ not (str_eq c.status "ARCHIVED")
  pub backed : (c.status ≡ "ACTIVE") ⊎ (c.status ≡ "DISABLED") → has_revision revisions c ≡ true

-- The rows are sound.
abbrev pub AreSound : Db → Type 0
AreSound db = All (IsSound db.revisions) db.connections

moved :
    (now : ℕ) (rs : List RevisionRow) (b : Bool) (c d : ConnectionRow)
    → Move b c.status d.status
    → (b ≡ has_revision rs d)
    → (d.archived_at ≡ (if str_eq d.status "ARCHIVED" then some now else c.archived_at))
    → (has_revision rs c ≡ has_revision rs d)
    → IsSound rs c
    → IsSound rs d
moved now rs b c d m hb ha hr s = go c.status d.status refl refl m
  where
    unarchived :
        (x y : String)
        → c.status ≡ x
        → d.status ≡ y
        → str_eq x "ARCHIVED" ≡ false
        → str_eq y "ARCHIVED" ≡ false
        → is_none d.archived_at ≡ not (str_eq d.status "ARCHIVED")
    unarchived x y ex ey hx hy = rw (ha, ey, hy) (s.archived ∙ rw (ex, hx) refl)

    go : (x y : String) → c.status ≡ x → d.status ≡ y → Move b x y → IsSound rs d
    go x y ex ey (Move.activated p) = record {
      status = ConnectionStatus.active;
      known = ey;
      archived = unarchived x y ex ey refl refl;
      backed = λ _. sym hb ∙ p;
    }
    go x y ex ey Move.disabled = record {
      status = ConnectionStatus.disabled;
      known = ey;
      archived = unarchived x y ex ey refl refl;
      backed = λ _. sym hr ∙ s.backed (inl ex);
    }
    go x y ex ey Move.enabled = record {
      status = ConnectionStatus.active;
      known = ey;
      archived = unarchived x y ex ey refl refl;
      backed = λ _. sym hr ∙ s.backed (inr ex);
    }
    go x y ex ey (Move.archived n) = record {
      status = ConnectionStatus.archived;
      known = ey;
      archived = rw (ha, ey) refl;
      backed = λ live. absurd (elim live [
        | inl e ↦ differ "ARCHIVED" "ACTIVE" refl (sym ey ∙ e)
        | inr e ↦ differ "ARCHIVED" "DISABLED" refl (sym ey ∙ e)
      ]);
    }

Evolves-IsSound :
    (now : ℕ) (rs ss : List RevisionRow) (c d : ConnectionRow)
    → ((b : ConnectionRow) → has_revision rs b ≡ true → has_revision ss b ≡ true)
    → Evolves now ss c d
    → IsSound rs c
    → IsSound ss d
Evolves-IsSound now rs ss c d more e s =
    let same_name : has_revision ss c ≡ has_revision ss d = rw (e.same_id, e.same_workspace) refl in
    let s' : IsSound ss c = record {
      status = s.status;
      known = s.known;
      archived = s.archived;
      backed = λ h. more c (s.backed h);
    } in
    elim e.moves [
      | inl (st, at) ↦ record {
        status = s.status;
        known = st ∙ s.known;
        archived = rw (st, at) s.archived;
        backed = λ live. sym same_name ∙ s'.backed (rw st at live);
      }
      | inr (m, at) ↦ moved now ss _ c d m refl at same_name s'
    ]

IsBorn-IsSound : (now : ℕ) (rs : List RevisionRow) (c : ConnectionRow) → IsBorn now c → IsSound rs c
IsBorn-IsSound now rs c b = record {
  status = ConnectionStatus.draft;
  known = b.draft;
  archived = rw (b.unarchived, b.draft) refl;
  backed = λ live. absurd (elim live [
    | inl e ↦ differ "DRAFT" "ACTIVE" refl (sym b.draft ∙ e)
    | inr e ↦ differ "DRAFT" "DISABLED" refl (sym b.draft ∙ e)
  ]);
}

-- Revisions are never removed.
Revised-more :
    (p : Platform) (db d : Db)
    → Revised p db d
    → (b : ConnectionRow) → has_revision db.revisions b ≡ true
    → has_revision d.revisions b ≡ true
Revised-more p db d (same q) b h = rw q h
Revised-more p db d (appended r q _ _) b h = rw (q, any-append _ db.revisions (r ∷ []), h) refl

-- In every run the rows of `connections` stay sound, if they are at first.
pub Reach-AreSound : (p : Platform) (db d : Db) → Reach p db d → AreSound db → AreSound d
Reach-AreSound p db d r h = Reach-keeps p AreSound step r h
  where
    step : (b e : Db) → Step p b e → AreSound b → AreSound e
    step b e (request q is) s = rw is (
        Grows-All (Evolves b.now (perform p q b).1.revisions) (IsBorn b.now) (IsSound b.revisions)
          (IsSound (perform p q b).1.revisions)
          (λ x y v. Evolves-IsSound b.now _ _ x y (Revised-more p b _ (perform-Revised p q b)) v)
          (IsBorn-IsSound b.now _) b.connections _ (perform-Evolves p q b) s)
    step b e (other cs _ _ rs) s = rw (cs, rs) s
