-- ===== src/Connections/Requests/Revisions.antt =====
-- What a request may add to `connection_revisions`.
use bff.Prelude.{◌++◌, ◌∷◌, []}
use bff.Result.{Result, err, >>=_ok}
use bff.Connections.Providers
use bff.Connections.Models.{ConnectionMutationContext, PublishedConnectionConfiguration}
use bff.Connections.Service.{Platform, wrap_provider_error, compile_publication}
use bff.Connections.Repository.Queries.{next_revision_number}
use bff.Connections.Effects.Statements.{upsert_draft-ok}
use bff.Db.{Db, RevisionRow}
use bff.Result.{ok}
use bff.Prelude.{refl, ◌≡◌}
use bff.Json.{JsonObject, obj}
use bff.Json.Dumps.{dumps, encode}
use bff.Connections.Requests.{Request, perform}
use bff.Connections.Requests.Effect.{Effect, perform-cases}

-- The digest of a revision is that of its canonical text.
abbrev pub IsHashed : Platform → RevisionRow → Type 0
IsHashed p r = r.config_hash ≡ p.sha256 (encode (dumps (obj r.config_json)))

-- The revisions are as they were, or one has been appended.
pub data Revised (p : Platform) (db d : Db) : Type 0 where
  same : d.revisions ≡ db.revisions → Revised p db d
  appended :
      (r : RevisionRow)
      → d.revisions ≡ db.revisions ++ r ∷ []
      → r.revision_number ≡ next_revision_number r.connection_id db
      → IsHashed p r
      → Revised p db d

unwrapped : {A : Type 0} (r : Result A) (a : A) → wrap_provider_error r ≡ ok a → r ≡ ok a
unwrapped (ok b) a h = h
unwrapped (err e) a h = cc

compile_publication-hash :
    (p : Platform) (context : ConnectionMutationContext) (draft : JsonObject)
    (compiled : PublishedConnectionConfiguration)
    → compile_publication p context draft ≡ ok compiled
    → compiled.config_hash ≡ p.sha256 (encode (dumps (obj compiled.configuration)))
unfolding Providers.publish
compile_publication-hash p context draft compiled h =
    let k = context.provider_key in
    let h0 = unwrapped (Providers.publish p.sha256 p.registry k draft) compiled h in
    let (provider, (_, h1)) = >>=_ok (Providers.require p.registry k) _ compiled h0 in
    let (canonical, (_, h2)) = >>=_ok (provider.canonicalize draft) _ compiled h1 in cc

module _ (p : Platform) (db : Db) where
  effect-Revised : (q : Request) (d : Db) → Effect p db q d → Revised p db d
  effect-Revised q d (Effect.created k draw audit_draw name v policy n w normal r _ _ _ e) =
      same (rw e.state refl)
  effect-Revised q d (Effect.draft_put u w i c r e) =
      let (_, state) = upsert_draft-ok i w e.compiled u db e.row d e.written in same (rw state refl)
  effect-Revised q d (Effect.renamed k a i name n r _ e) = same (rw e.state refl)
  effect-Revised q d (Effect.published k draw a i r e) =
      appended e.row (rw e.state refl) (rw e.inserted e.numbered) (
        rw e.inserted (
          compile_publication-hash p e.admitted.context e.draft_row.draft_json e.compiled
            e.accepted))
  effect-Revised q d (Effect.replaced k a i policy normal r _ e) = same (rw e.state refl)
  effect-Revised q d (Effect.transitioned k a i action r e) = same (rw e.state refl)

-- A request leaves the revisions as they were, or appends one, which has the next number of its
-- connection and the digest of its own configuration.
pub perform-Revised : (p : Platform) (q : Request) (db : Db) → Revised p db (perform p q db).1
perform-Revised p q db = perform-cases p db q (Revised p db) (same refl) (effect-Revised p db q)
