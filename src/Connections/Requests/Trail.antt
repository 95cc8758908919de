-- ===== src/Connections/Requests/Trail.antt =====
-- The audit trail of the requests: `_audit` of infrastructure/db/connection_repository.py.
use bff.Prelude.{ℕ, ◌≡◌, refl, String, [], ◌∷◌, ◌++◌, Option, none, some}
use bff.Text.{Text}
use bff.Result.{ok}
use bff.Prelude.{sym, ap, In, true}
use bff.Result.{Result}
use bff.Json.{JsonObject}
use bff.Connections.Models.{ConnectionMutationContext, ConnectionWorkspaceContext}
use bff.Connections.Repository.Queries.{workspace_context, is_active_member}
use bff.Connections.Repository.Commands.{audit_event}
use bff.Connections.Effects.{Admitted}
use bff.Connections.Effects.Statements.{upsert_draft-ok}
use bff.Connections.Rows.{mutation_context-Target}
use bff.Connections.Members.{workspace_context-Member}
use bff.Db.{MembershipRow, Db, AuditRow}
use bff.Ids.{uuid_str}
use bff.Connections.Service.{Platform}
use bff.Connections.Repository.Commands.{Caller, lifecycle_name}
use bff.Connections.Requests.{
  Request, perform, create, rename, put_draft, publish, replace_access, transition,
}
use bff.Connections.Requests.Effect.{Effect, perform-Effect}

-- The caller of a request that is audited, and the action that it is audited as.
abbrev pub audited : Request → Option (Caller × String)
audited (create k draw audit_draw name provider_key policy) = some (k, "CONNECTION_CREATED")
audited (rename k audit_draw i name) = some (k, "CONNECTION_RENAMED")
audited (put_draft u w i configuration) = none
audited (publish k draw audit_draw i) = some (k, "CONNECTION_REVISION_PUBLISHED")
audited (replace_access k audit_draw i policy) = some (k, "CONNECTION_ACCESS_UPDATED")
audited (transition k audit_draw i action) = some (k, lifecycle_name action)

-- An event in the caller's name, with the role that the caller then had.
pub record IsEventOf (db : Db) (k : Caller) (action : String) (a : AuditRow) : Type 0 where
  pub actor : a.actor_user_id ≡ k.user_id
  pub same_action : a.action ≡ action
  pub resource : a.resource_type ≡ "CONNECTION"
  pub same_request : a.request_id ≡ uuid_str k.request_id
  pub same_trace : a.trace_id ≡ k.trace_id
  pub same_session : a.session_id ≡ uuid_str k.auth_session_id
  pub same_workspace : a.workspace_id ≡ k.workspace_id
  pub membership : MembershipRow
  pub stored : In membership db.memberships
  pub current : is_active_member k.user_id k.workspace_id membership ≡ true
  pub same_role : a.actor_role_snapshot ≡ membership.role

-- The trail of a success.
abbrev pub Trailed : Option (Caller × String) → Db → Db → Type 0
Trailed none db d = d.audit ≡ db.audit
Trailed (some (k, action)) db d =
    (a : AuditRow) × ((d.audit ≡ db.audit ++ a ∷ []) × IsEventOf db k action a)

event-IsEventOf :
    (db : Db) (k : Caller) (i : ℕ) (context : ConnectionWorkspaceContext) (connection_id : ℕ)
    (name : Text) (action : String) (before after : JsonObject)
    → workspace_context k.user_id k.workspace_id db ≡ ok context
    → IsEventOf db k action (audit_event k i context connection_id name action before after)
event-IsEventOf db k i context c name action before after h =
    let m = workspace_context-Member k.user_id k.workspace_id db context h in
    record {
      actor = refl;
      same_action = refl;
      resource = refl;
      same_request = refl;
      same_trace = refl;
      same_session = refl;
      same_workspace = m.same_workspace;
      membership = m.membership;
      stored = m.stored;
      current = m.current;
      same_role = sym m.role_read;
    }

-- The Workspace that a mutation has read.
Admitted-workspace :
    {k : Caller} {i : ℕ} {authorize : ConnectionMutationContext → Result (Unit {0})} {db : Db}
    (a : Admitted k i authorize db)
    → workspace_context k.user_id k.workspace_id db ≡ ok a.context.workspace
Admitted-workspace {db = db} a = (mutation_context-Target _ _ _ db a.context a.found).workspace_read

-- The trail of a mutation that ends in its event.
Admitted-Trailed :
    {k : Caller} {i : ℕ} {authorize : ConnectionMutationContext → Result (Unit {0})} {db : Db}
    (d : Db) (a : Admitted k i authorize db) (audit_id connection_id : ℕ) (name : Text)
    (action : String) (before after : JsonObject)
    → d.audit
      ≡ db.audit
        ++ audit_event k audit_id a.context.workspace connection_id name action before after ∷ []
    → Trailed (some (k, action)) db d
Admitted-Trailed {k = k} {db = db} d a audit_id connection_id name action before after state = (
  _,
  (
    state,
    event-IsEventOf db k audit_id _ connection_id name action before after (Admitted-workspace a),
  ),
)

module _ (p : Platform) (db : Db) where
  pub effect-Trailed : (q : Request) (d : Db) → Effect p db q d → Trailed (audited q) db d
  effect-Trailed q d (Effect.created k draw audit_draw name v policy n w normal r _ _ _ e) =
      (_, (ap (λ (x : Db). x.audit) e.state, event-IsEventOf db k _ _ _ _ _ _ _ e.found))
  effect-Trailed q d (Effect.draft_put u w i c r e) =
      let (_, state) = upsert_draft-ok i w e.compiled u db e.row d e.written in
      ap (λ (x : Db). x.audit) state
  effect-Trailed q d (Effect.renamed k a i name n r _ e) =
      Admitted-Trailed d e.admitted _ _ _ _ _ _ (ap (λ (x : Db). x.audit) e.state)
  effect-Trailed q d (Effect.published k draw a i r e) =
      Admitted-Trailed d e.admitted _ _ _ _ _ _ (ap (λ (x : Db). x.audit) e.state)
  effect-Trailed q d (Effect.replaced k a i policy normal r _ e) =
      Admitted-Trailed d e.admitted _ _ _ _ _ _ (ap (λ (x : Db). x.audit) e.state)
  effect-Trailed q d (Effect.transitioned k a i action r e) =
      Admitted-Trailed d e.admitted _ _ _ _ _ _ (ap (λ (x : Db). x.audit) e.state)

-- A request that succeeds appends exactly one event, which names its action, caller, session,
-- request and Workspace and the role that the caller's current membership has; storing a draft is
-- the one success that appends none.
pub perform-Trailed :
    (p : Platform) (q : Request) (db d : Db)
    → perform p q db ≡ (ok tt, d)
    → Trailed (audited q) db d
perform-Trailed p q db d h = effect-Trailed p db q d (perform-Effect p db q d h)
