-- ===== src/Connections/Requests/Atomic.antt =====
-- A request of Connections/Requests that fails leaves the tables as they were.
use bff.Prelude.{ℕ}
use bff.Text.{Text}
use bff.Ids.{Draw, uuid7}
use bff.Json.{JsonObject}
use bff.Db.Rules.{IsAtomic, transaction-IsAtomic, lift-IsAtomic, void-IsAtomic}
use bff.Connections.Models.{ConnectionAccessPolicy, ConnectionLifecycleAction}
use bff.Connections.Policies.{
  normalize_access_policy, normalize_connection_name, normalize_provider_key,
}
use bff.Connections.Providers.{require}
use bff.Connections.Repository.Commands
use bff.Connections.Repository.Commands.{Caller}
use bff.Connections.Service
use bff.Connections.Service.{
  Platform, compile_publication, compile_draft_configuration, wrap_provider_error,
}
use bff.Connections.Requests.{
  Request, perform, create, rename, put_draft, publish, replace_access, transition,
}

pub create-IsAtomic :
    (p : Platform) (k : Caller) (draw audit_draw : Draw) (name provider_key : Text)
    (policy : ConnectionAccessPolicy)
    → IsAtomic (Service.create_connection p k draw audit_draw name provider_key policy)
unfolding Service.create_connection Commands.create_connection
create-IsAtomic p k draw audit_draw name provider_key policy =
    lift-IsAtomic (normalize_connection_name name) _ λ n.
      lift-IsAtomic (normalize_provider_key p.casefold provider_key) _ λ v.
        lift-IsAtomic (normalize_access_policy policy.mode policy.project_ids) _ λ a.
          lift-IsAtomic (wrap_provider_error (require p.registry v)) _
            λ r. lift-IsAtomic (uuid7 draw) _ λ i. transaction-IsAtomic _

pub rename-IsAtomic :
    (k : Caller) (audit_draw : Draw) (i : ℕ) (name : Text)
    → IsAtomic (Service.rename_connection k audit_draw i name)
unfolding Service.rename_connection Commands.rename_connection
rename-IsAtomic k audit_draw i name =
    lift-IsAtomic (normalize_connection_name name) _ λ n. transaction-IsAtomic _

pub put_draft-IsAtomic :
    (p : Platform) (u w i : ℕ) (configuration : JsonObject)
    → IsAtomic (Service.put_draft p u w i configuration)
unfolding Service.put_draft Commands.put_draft
put_draft-IsAtomic p u w i configuration = transaction-IsAtomic _

pub publish-IsAtomic :
    (p : Platform) (k : Caller) (draw audit_draw : Draw) (i : ℕ)
    → IsAtomic (Service.publish_revision p k draw audit_draw i)
unfolding Service.publish_revision Commands.publish_revision
publish-IsAtomic p k draw audit_draw i = lift-IsAtomic (uuid7 draw) _ λ r. transaction-IsAtomic _

pub replace-IsAtomic :
    (k : Caller) (audit_draw : Draw) (i : ℕ) (policy : ConnectionAccessPolicy)
    → IsAtomic (Service.replace_access k audit_draw i policy)
unfolding Service.replace_access Commands.replace_access
replace-IsAtomic k audit_draw i policy =
    lift-IsAtomic (normalize_access_policy policy.mode policy.project_ids) _
      λ n. transaction-IsAtomic _

pub transition-IsAtomic :
    (k : Caller) (audit_draw : Draw) (i : ℕ) (action : ConnectionLifecycleAction)
    → IsAtomic (Service.transition_lifecycle k audit_draw i action)
unfolding Service.transition_lifecycle Commands.transition_lifecycle
transition-IsAtomic k audit_draw i action = transaction-IsAtomic _

pub perform-IsAtomic : (p : Platform) (q : Request) → IsAtomic (perform p q)
unfolding perform
perform-IsAtomic p (create k draw audit_draw name provider_key policy) =
    void-IsAtomic (Service.create_connection p k draw audit_draw name provider_key policy)
      (create-IsAtomic p k draw audit_draw name provider_key policy)
perform-IsAtomic p (rename k audit_draw i name) =
    void-IsAtomic (Service.rename_connection k audit_draw i name)
      (rename-IsAtomic k audit_draw i name)
perform-IsAtomic p (put_draft u w i configuration) =
    void-IsAtomic (Service.put_draft p u w i configuration)
      (put_draft-IsAtomic p u w i configuration)
perform-IsAtomic p (publish k draw audit_draw i) =
    void-IsAtomic (Service.publish_revision p k draw audit_draw i)
      (publish-IsAtomic p k draw audit_draw i)
perform-IsAtomic p (replace_access k audit_draw i policy) =
    void-IsAtomic (Service.replace_access k audit_draw i policy)
      (replace-IsAtomic k audit_draw i policy)
perform-IsAtomic p (transition k audit_draw i action) =
    void-IsAtomic (Service.transition_lifecycle k audit_draw i action)
      (transition-IsAtomic k audit_draw i action)
