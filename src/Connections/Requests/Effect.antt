-- ===== src/Connections/Requests/Effect.antt =====
-- A request that succeeds has one of six effects; one that fails has none. What holds before and
-- after each effect holds after any request.
use bff.Prelude.{ℕ, ◌≡◌}
use bff.Result.{ok}
use bff.Text.{Text}
use bff.Ids.{Draw}
use bff.Json.{JsonObject}
use bff.Db.{Db}
use bff.Db.Rules.{Post, Post-ok, void_rule, lift_rule, Post-imp, state_rule}
use bff.Connections.Models.{
  Connection, ConnectionAccessPolicy, ConnectionDraft, ConnectionLifecycleAction,
  ConnectionRevision,
}
use bff.Connections.Policies.{
  normalize_access_policy, normalize_connection_name, normalize_provider_key,
}
use bff.Connections.Providers.{require}
use bff.Connections.Repository.Commands.{Caller}
use bff.Connections.Service
use bff.Connections.Service.{
  Platform, compile_publication, compile_draft_configuration, wrap_provider_error,
}
use bff.Connections.Service.Authorize.{
  authorize_creation, authorize_authoring, authorize_access, authorize_lifecycle,
}
use bff.Connections.Effects.Create.{Created, create_connection-Created}
use bff.Connections.Effects.Rename.{Renamed, rename_connection-Renamed}
use bff.Connections.Effects.Lifecycle.{Transitioned, transition_lifecycle-Transitioned}
use bff.Connections.Effects.Access.{AccessReplaced, replace_access-AccessReplaced}
use bff.Connections.Effects.Publish.{Published, publish_revision-Published}
use bff.Connections.Effects.Draft.{DraftPut, put_draft-DraftPut}
use bff.Connections.Requests.{
  Request, perform, create, rename, put_draft, publish, replace_access, transition,
}
use bff.Connections.Requests.Atomic.{perform-IsAtomic}

-- What a request that succeeds has done, its normalized inputs included.
pub data Effect (p : Platform) (db : Db) : Request → Db → Type 0 where
  created :
      (k : Caller) (draw audit_draw : Draw) (name provider_key : Text)
      (policy : ConnectionAccessPolicy) (n v : Text) (normal : ConnectionAccessPolicy)
      (r : Connection) {d : Db}
      → normalize_connection_name name ≡ ok n
      → normalize_provider_key p.casefold provider_key ≡ ok v
      → normalize_access_policy policy.mode policy.project_ids ≡ ok normal
      → Created k draw audit_draw n v normal (λ context. authorize_creation context normal) db r d
      → Effect p db (create k draw audit_draw name provider_key policy) d
  renamed :
      (k : Caller) (audit_draw : Draw) (i : ℕ) (name n : Text) (r : Connection) {d : Db}
      → normalize_connection_name name ≡ ok n
      → Renamed k i audit_draw authorize_authoring n db r d
      → Effect p db (rename k audit_draw i name) d
  draft_put :
      (u w i : ℕ) (configuration : JsonObject) (r : ConnectionDraft) {d : Db}
      → DraftPut u w i configuration authorize_authoring (compile_draft_configuration p) db r d
      → Effect p db (put_draft u w i configuration) d
  published :
      (k : Caller) (draw audit_draw : Draw) (i : ℕ) (r : ConnectionRevision) {d : Db}
      → Published k i audit_draw authorize_authoring draw (compile_publication p) db r d
      → Effect p db (publish k draw audit_draw i) d
  replaced :
      (k : Caller) (audit_draw : Draw) (i : ℕ) (policy normal : ConnectionAccessPolicy)
      (r : Connection) {d : Db}
      → normalize_access_policy policy.mode policy.project_ids ≡ ok normal
      → AccessReplaced k i audit_draw (λ context. authorize_access context normal) normal db r d
      → Effect p db (replace_access k audit_draw i policy) d
  transitioned :
      (k : Caller) (audit_draw : Draw) (i : ℕ) (action : ConnectionLifecycleAction) (r : Connection)
      {d : Db}
      → Transitioned k i audit_draw (λ context. authorize_lifecycle context action) action db r d
      → Effect p db (transition k audit_draw i action) d

module _ (p : Platform) (db : Db) where
  abbrev After : Request → {A : Type 0} → A → Db → Type 0
  After q a d = Effect p db q d

  create_case :
      (k : Caller) (draw audit_draw : Draw) (name provider_key : Text)
      (policy : ConnectionAccessPolicy)
      → Post
          (After (create k draw audit_draw name provider_key policy))
          (Service.create_connection p k draw audit_draw name provider_key policy)
          db
  unfolding Service.create_connection
  create_case k draw audit_draw name provider_key policy =
      let Q : Connection → Db → Type 0 =
        After (create k draw audit_draw name provider_key policy) in
      lift_rule Q db (normalize_connection_name name) _ λ n n_ok.
        lift_rule Q db (normalize_provider_key p.casefold provider_key) _ λ v v_ok.
          lift_rule Q db (normalize_access_policy policy.mode policy.project_ids) _ λ a a_ok.
            lift_rule Q db (wrap_provider_error (require p.registry v)) _ λ _ _.
              Post-imp db _ _ Q
                (λ r d e.
                  Effect.created k draw audit_draw name provider_key policy n v a r n_ok v_ok a_ok
                    e)
                (create_connection-Created k draw audit_draw n v a
                  (λ context. authorize_creation context a) db)

  rename_case :
      (k : Caller) (audit_draw : Draw) (i : ℕ) (name : Text)
      → Post (After (rename k audit_draw i name)) (Service.rename_connection k audit_draw i name) db
  unfolding Service.rename_connection
  rename_case k audit_draw i name =
      lift_rule (After (rename k audit_draw i name)) db (normalize_connection_name name) _ λ n n_ok.
        Post-imp db _ _ (After (rename k audit_draw i name))
          (λ r d e. Effect.renamed k audit_draw i name n r n_ok e)
          (rename_connection-Renamed k i audit_draw authorize_authoring n db)

  put_draft_case :
      (u w i : ℕ) (configuration : JsonObject)
      → Post (After (put_draft u w i configuration)) (Service.put_draft p u w i configuration) db
  unfolding Service.put_draft
  put_draft_case u w i configuration =
      Post-imp db _ _ (After (put_draft u w i configuration))
        (λ r d e. Effect.draft_put u w i configuration r e)
        (put_draft-DraftPut u w i configuration authorize_authoring (compile_draft_configuration p)
          db)

  publish_case :
      (k : Caller) (draw audit_draw : Draw) (i : ℕ)
      → Post
          (After (publish k draw audit_draw i))
          (Service.publish_revision p k draw audit_draw i)
          db
  unfolding Service.publish_revision
  publish_case k draw audit_draw i =
      Post-imp db _ _ (After (publish k draw audit_draw i))
        (λ r d e. Effect.published k draw audit_draw i r e)
        (publish_revision-Published k i audit_draw authorize_authoring draw (compile_publication p)
          db)

  replace_case :
      (k : Caller) (audit_draw : Draw) (i : ℕ) (policy : ConnectionAccessPolicy)
      → Post
          (After (replace_access k audit_draw i policy))
          (Service.replace_access k audit_draw i policy)
          db
  unfolding Service.replace_access
  replace_case k audit_draw i policy =
      lift_rule (After (replace_access k audit_draw i policy)) db
        (normalize_access_policy policy.mode policy.project_ids) _
        λ n n_ok.
          Post-imp db _ _ (After (replace_access k audit_draw i policy))
            (λ r d e. Effect.replaced k audit_draw i policy n r n_ok e)
            (replace_access-AccessReplaced k i audit_draw (λ context. authorize_access context n) n
              db)

  transition_case :
      (k : Caller) (audit_draw : Draw) (i : ℕ) (action : ConnectionLifecycleAction)
      → Post
          (After (transition k audit_draw i action))
          (Service.transition_lifecycle k audit_draw i action)
          db
  unfolding Service.transition_lifecycle
  transition_case k audit_draw i action =
      Post-imp db _ _ (After (transition k audit_draw i action))
        (λ r d e. Effect.transitioned k audit_draw i action r e)
        (transition_lifecycle-Transitioned k i audit_draw
          (λ context. authorize_lifecycle context action) action db)

  perform_case : (q : Request) → Post (λ _ d. Effect p db q d) (perform p q) db
  unfolding perform
  perform_case (create k draw audit_draw name provider_key policy) =
      void_rule db (Service.create_connection p k draw audit_draw name provider_key policy) _
        (create_case k draw audit_draw name provider_key policy)
  perform_case (rename k audit_draw i name) =
      void_rule db (Service.rename_connection k audit_draw i name) _
        (rename_case k audit_draw i name)
  perform_case (put_draft u w i configuration) =
      void_rule db (Service.put_draft p u w i configuration) _ (put_draft_case u w i configuration)
  perform_case (publish k draw audit_draw i) =
      void_rule db (Service.publish_revision p k draw audit_draw i) _
        (publish_case k draw audit_draw i)
  perform_case (replace_access k audit_draw i policy) =
      void_rule db (Service.replace_access k audit_draw i policy) _
        (replace_case k audit_draw i policy)
  perform_case (transition k audit_draw i action) =
      void_rule db (Service.transition_lifecycle k audit_draw i action) _
        (transition_case k audit_draw i action)

  -- A success has its request's effect.
  pub perform-Effect : (q : Request) (d : Db) → perform p q db ≡ (ok tt, d) → Effect p db q d
  perform-Effect q d h = Post-ok (λ _ d. Effect p db q d) (perform p q) db (perform_case q) h

  pub perform-cases :
      (q : Request) (P : Db → Type 0)
      → P db
      → ((d : Db) → Effect p db q d → P d)
      → P (perform p q db).1
  perform-cases q P before after = state_rule db (perform p q) P (perform-IsAtomic p q) before (
      Post-imp db (perform p q) (λ _ d. Effect p db q d) (λ _ d. P d) (λ _. after) (perform_case q))
