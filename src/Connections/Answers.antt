-- ===== src/Connections/Answers.antt =====
-- What the writing methods of domains/connections/service.py answer when they succeed.
use bff.Prelude.{
  All-imp, filter-All, ℕ, ◌≡◌, refl, sym, ap, ◌∙◌, arith, true, List, [], ◌∷◌, ◌++◌, map, filter,
  filter-append, filter-none, All, not, ◌==◌, sort_by, leb,
}
use bff.Result.{ok}
use bff.Text.{Text}
use bff.Ids.{Draw}
use bff.Db.{Db, AccessRow}
use bff.Db.Rules.{Post-ok, Post-imp, lift_rule}
use bff.Connections.Models.{Connection, ConnectionAccessPolicy, ConnectionLifecycleAction}
use bff.Connections.Values.{mode_of-mode_value, status_of-status_value, mode_value}
use bff.Connections.Policies.{normalize_access_policy, normalize_connection_name}
use bff.Connections.Policies.Access.{AreUuids, normalized_order}
use bff.Connections.Service
use bff.Connections.Service.Authorize.{authorize_access, authorize_authoring, authorize_lifecycle}
use bff.Connections.Repository.Commands.{Caller, target}
use bff.Connections.Repository.Queries.{project_ids_of}
use bff.Connections.Repository.Statements.{access_row}
use bff.Connections.Rows.{mutation_context-Target}
use bff.Connections.Lifecycle.{lifecycle_row}
use bff.Connections.Returned.{fetch_updated}
use bff.Connections.Effects.Access.{AccessReplaced, replace_access-AccessReplaced}
use bff.Connections.Effects.Lifecycle.{transition_lifecycle-Transitioned}
use bff.Connections.Effects.Rename.{rename_connection-Renamed}

-- The rows of a connection after its grants have been replaced.
granted_ids :
    (now w i u : ℕ) (ids : List ℕ)
    → map
        (λ (a : AccessRow). a.project_id)
        (filter (λ a. a.connection_id == i) (map (access_row now w i u) ids))
      ≡ ids
granted_ids now w i u [] = refl
granted_ids now w i u (p ∷ ps) = ground (arith, granted_ids now w i u ps)

not_both :
    (i : ℕ) (rows : List AccessRow)
    → All (λ a. (not (a.connection_id == i)) ≡ true) (filter (λ a. not (a.connection_id == i)) rows)
    → filter (λ a. a.connection_id == i) (filter (λ a. not (a.connection_id == i)) rows) ≡ []
not_both i rows h = filter-none _ _ (All-imp _ _ _ (λ a e. ground arith) h)

replaced_ids :
    (now w i u : ℕ) (ids : List ℕ) (rows : List AccessRow)
    → project_ids_of i
        (filter (λ a. not (a.connection_id == i)) rows ++ map (access_row now w i u) ids)
      ≡ sort_by leb ids
unfolding project_ids_of
replaced_ids now w i u ids rows =
    rw
      (
        filter-append (λ (a : AccessRow). a.connection_id == i),
        not_both i rows (filter-All _ rows),
        granted_ids now w i u ids,
      )
      refl

same_policy :
    (a b : ConnectionAccessPolicy) → ok a.mode ≡ ok b.mode → a.project_ids ≡ b.project_ids → a ≡ b
same_policy a b h e = cc

module _ (k : Caller) (draw : Draw) (i : ℕ) (db : Db) where
  replaced :
      (n : ConnectionAccessPolicy) (r : Connection) (d : Db)
      → sort_by leb n.project_ids ≡ n.project_ids
      → AccessReplaced k i draw (λ c. authorize_access c n) n db r d
      → r.access_policy ≡ n
  replaced n r d sorted e =
      let t = mutation_context-Target _ _ _ db e.admitted.context e.admitted.found in
      let read =
        fetch_updated (λ c. record c { access_mode = mode_value n.mode; updated_at = db.now })
          k.user_id k.workspace_id i db d e.admitted.context t r (λ c h. h) refl
          (ap (λ (x : Db). x.connections) e.state) e.returned in
      let ids : project_ids_of i d.access ≡ n.project_ids =
        ap (λ (x : Db). project_ids_of i x.access) e.state
        ∙ replaced_ids db.now k.workspace_id i k.user_id n.project_ids db.access
        ∙ sorted in
      let mode = sym read.mode_read ∙ mode_of-mode_value n.mode in
      same_policy r.access_policy n mode (read.same_ids ∙ ids)

  -- `replace_access` answers the connection with the policy that the request normalizes to, read
  -- back from the database, if the ids are UUIDs.
  pub replace_access-returns :
      (policy : ConnectionAccessPolicy) (r : Connection) (d : Db)
      → AreUuids policy.project_ids
      → Service.replace_access k draw i policy db ≡ (ok r, d)
      → normalize_access_policy policy.mode policy.project_ids ≡ ok r.access_policy
  unfolding Service.replace_access
  replace_access-returns policy r d uuids h =
      Post-ok Q (Service.replace_access k draw i policy) db
        (lift_rule Q db (normalize_access_policy policy.mode policy.project_ids) _ λ n is.
          Post-imp db _ _ Q
            (λ x d' e. is ∙ ap ok (sym (replaced n x d' (normalized_order _ _ n uuids is) e)))
            (replace_access-AccessReplaced k i draw (λ c. authorize_access c n) n db))
        h
    where
      Q : Connection → Db → Type 0
      Q x d' = normalize_access_policy policy.mode policy.project_ids ≡ ok x.access_policy

  -- `transition_lifecycle` answers the connection in the status that the action names.
  pub transition_lifecycle-returns :
      (action : ConnectionLifecycleAction) (r : Connection) (d : Db)
      → Service.transition_lifecycle k draw i action db ≡ (ok r, d)
      → r.status ≡ target action
  unfolding Service.transition_lifecycle
  transition_lifecycle-returns action r d h =
      Post-ok (λ x _. x.status ≡ target action) (Service.transition_lifecycle k draw i action) db
        (Post-imp db _ _ (λ x _. x.status ≡ target action)
          (λ x d' e.
            let t = mutation_context-Target _ _ _ db e.admitted.context e.admitted.found in
            let read =
              fetch_updated (lifecycle_row db.now action) k.user_id k.workspace_id i db d'
                e.admitted.context t x (λ c is. is) refl (ap (λ (y : Db). y.connections) e.state)
                e.returned in
            let status = sym read.status_read ∙ status_of-status_value (target action) in cc)
          (transition_lifecycle-Transitioned k i draw (λ c. authorize_lifecycle c action) action
            db))
        h

  -- `rename_connection` answers the connection under the normalized name.
  pub rename_connection-returns :
      (name : Text) (r : Connection) (d : Db)
      → Service.rename_connection k draw i name db ≡ (ok r, d)
      → normalize_connection_name name ≡ ok r.name
  unfolding Service.rename_connection
  rename_connection-returns name r d h =
      Post-ok Q (Service.rename_connection k draw i name) db
        (lift_rule Q db (normalize_connection_name name) _ λ n is.
          Post-imp db _ _ Q
            (λ x d' e.
              let t = mutation_context-Target _ _ _ db e.admitted.context e.admitted.found in
              let read =
                fetch_updated (λ c. record c { name = n; updated_at = db.now }) k.user_id
                  k.workspace_id i db d' e.admitted.context t x (λ c same. same) refl
                  (ap (λ (y : Db). y.connections) e.state) e.returned in
              is ∙ ap ok (sym read.same_name))
            (rename_connection-Renamed k i draw authorize_authoring n db))
        h
    where
      Q : Connection → Db → Type 0
      Q x d' = normalize_connection_name name ≡ ok x.name
