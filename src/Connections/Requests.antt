-- ===== src/Connections/Requests.antt =====
-- The requests that write Connections, as `ConnectionService` serves them, and the runs of a
-- database under any sequence of them.
pub mod Atomic
pub mod Effect
pub mod Evolution
pub mod Revisions
pub mod Runs
pub mod Sound
pub mod Permanence
pub mod Trail
pub mod Authority
pub mod Authorized
pub mod Isolation
use bff.Prelude.{ℕ, ◌≡◌, Option}
use bff.Text.{Text}
use bff.Ids.{Draw}
use bff.Json.{JsonObject}
use bff.Db.{Db, Tx}
use bff.Db.Rules.{void}
use bff.Connections.Models.{ConnectionAccessPolicy, ConnectionLifecycleAction}
use bff.Connections.Service
use bff.Connections.Service.{Platform}
use bff.Connections.Repository.Commands.{Caller}

-- One call of a writing method, with the values of `uuid7` that it will draw.
pub data Request : Type 0 where
  create : Caller → Draw → Draw → Text → Text → ConnectionAccessPolicy → Request
  rename : Caller → Draw → ℕ → Text → Request
  put_draft : ℕ → ℕ → ℕ → JsonObject → Request
  publish : Caller → Draw → Draw → ℕ → Request
  replace_access : Caller → Draw → ℕ → ConnectionAccessPolicy → Request
  transition : Caller → Draw → ℕ → ConnectionLifecycleAction → Request

unfoldable pub perform : Platform → Request → Tx (Unit {0})
perform p (create k draw audit_draw name provider_key policy) =
    void (Service.create_connection p k draw audit_draw name provider_key policy)
perform p (rename k audit_draw i name) = void (Service.rename_connection k audit_draw i name)
perform p (put_draft u w i configuration) = void (Service.put_draft p u w i configuration)
perform p (publish k draw audit_draw i) = void (Service.publish_revision p k draw audit_draw i)
perform p (replace_access k audit_draw i policy) =
    void (Service.replace_access k audit_draw i policy)
perform p (transition k audit_draw i action) =
    void (Service.transition_lifecycle k audit_draw i action)

-- A request, or what the rest of the program may do: time passes, and tables change that the
-- Connection repository only reads.
pub data Step (p : Platform) (db db' : Db) : Type 0 where
  request : (q : Request) → db' ≡ (perform p q db).1 → Step p db db'
  other :
      db'.connections ≡ db.connections
      → db'.access ≡ db.access
      → db'.drafts ≡ db.drafts
      → db'.revisions ≡ db.revisions
      → Step p db db'

pub data Reach (p : Platform) (db : Db) : Db → Type 0 where
  here : Reach p db db
  next : {d e : Db} → Reach p db d → Step p d e → Reach p db e
