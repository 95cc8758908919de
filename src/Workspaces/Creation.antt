-- ===== src/Workspaces/Creation.antt =====
-- What `create_workspace` of domains/workspaces/service.py leaves for its owner to read.
use bff.Prelude.{
  ℕ, ◌≡◌, refl, ap, ◌∙◌, arith, Bool, true, false, List, [], ◌∷◌, ◌++◌, any, ◌==◌, filter,
  filter-append, Option, some,
}
use bff.Result.{Result, ok}
use bff.Text.{Text}
use bff.Ids.{Draw, uuid7}
use bff.Db.{transaction, Tx, Db, WorkspaceRow, AuditRow, lift, execute, pure, ◌>>=◌, ◌>>◌}
use bff.Db.Rules.{
  Post-imp, transaction-IsAtomic, bind-IsAtomic, lift-IsAtomic, IsAtomic, Post, Post-ok, bind_rule,
  lift_rule, execute_rule, transaction_rule, pure_rule,
}
use bff.Connections.Repository.Queries.{is_active_member, select_workspace_context, join_workspaces}
use bff.Connections.Repository.Statements.{has_workspace, insert_audit}
use bff.Workspaces.Models.{
  WorkspaceAccess, WorkspaceStatus, WorkspaceRole, normalize_workspace_name, status_of, role_of,
  can_read_workspace,
}
use bff.Workspaces.Reads.{access_from_row}
use bff.Workspaces.Reads
use bff.Workspaces.Repository
use bff.Workspaces.Repository.{
  new_workspace, owner_membership, workspace_event, insert_workspace, insert_owner_membership,
  answer,
}
use bff.Workspaces.Service
use bff.Workspaces.Service.{readable}
use bff.Db.{query}

insert_workspace-ok :
    (i : ℕ) (name : Text) (db : Db) (r : WorkspaceRow) (d : Db)
    → insert_workspace i name db ≡ ok (r, d)
    → (has_workspace i db ≡ false)
      × ((r ≡ new_workspace db i name)
          × (d ≡ record db { workspaces = db.workspaces ++ new_workspace db i name ∷ [] }))
unfolding insert_workspace
insert_workspace-ok i name db r d h = ground arith

insert_owner_membership-ok :
    (j i u : ℕ) (db d : Db)
    → insert_owner_membership j i u db ≡ ok (tt, d)
    → (any (is_active_member u i) db.memberships ≡ false)
      × (d ≡ record db { memberships = db.memberships ++ owner_membership j i u ∷ [] })
unfolding insert_owner_membership
insert_owner_membership-ok j i u db d h = ground arith

insert_audit-ok :
    (a : AuditRow) (db d : Db)
    → insert_audit a db ≡ ok (tt, d)
    → d ≡ record db { audit = db.audit ++ a ∷ [] }
unfolding insert_audit
insert_audit-ok a db d h = ground arith

-- What the transaction has done.
pub record Owned (u : ℕ) (name : Text) (db : Db) (row : WorkspaceRow) (d : Db) : Type 0 where
  pub workspace_id : ℕ
  pub membership_id : ℕ
  pub event : AuditRow
  pub fresh : has_workspace workspace_id db ≡ false
  pub no_member : any (is_active_member u workspace_id) db.memberships ≡ false
  pub inserted : row ≡ new_workspace db workspace_id name
  pub state : d ≡ record db {
    workspaces = db.workspaces ++ new_workspace db workspace_id name ∷ [];
    memberships = db.memberships ++ owner_membership membership_id workspace_id u ∷ [];
    audit = db.audit ++ event ∷ [];
  }

any_none : {A : Type 0} (p : A → Bool) (xs : List A) → any p xs ≡ false → filter p xs ≡ []
any_none p [] h = refl
any_none p (x ∷ xs) h = ground (arith, any_none p xs)

-- The row that is appended is the only one that is selected.
only_new :
    {A : Type 0} (p : A → Bool) (xs : List A) (x : A)
    → any p xs ≡ false
    → p x ≡ true
    → filter p (xs ++ x ∷ []) ≡ x ∷ []
only_new p xs x none_before new =
    filter-append p xs (x ∷ []) ∙ rw (any_none p xs none_before, new) refl

is_new_member : (j i u : ℕ) → is_active_member u i (owner_membership j i u) ≡ true
is_new_member j i u = ground arith

module _ (u : ℕ) (name : Text) (db : Db) (row : WorkspaceRow) (d : Db)
    (e : Owned u name db row d) where
  selected :
      select_workspace_context u e.workspace_id d
      ≡ (new_workspace db e.workspace_id name, owner_membership e.membership_id e.workspace_id u)
        ∷ []
  unfolding select_workspace_context join_workspaces
  selected = rw e.state (
      rw
        (
          only_new (is_active_member u e.workspace_id) db.memberships
              (owner_membership e.membership_id e.workspace_id u) e.no_member
              (is_new_member e.membership_id e.workspace_id u),
          only_new (λ w. w.id == e.workspace_id) db.workspaces
              (new_workspace db e.workspace_id name) e.fresh (ground arith),
        )
        refl)

  access : WorkspaceAccess
  access = record {
    workspace_id = e.workspace_id;
    name = name;
    status = WorkspaceStatus.active;
    role = WorkspaceRole.owner;
    created_at = db.now;
    updated_at = db.now;
  }

  answered : answer row ≡ ok access
  unfolding answer access status_of
  answered = rw e.inserted refl

  found : Reads.get_for_user u e.workspace_id d ≡ ok (some access)
  unfolding access Reads.get_for_user access_from_row status_of role_of
  found = rw selected refl

  read_back : Service.get_workspace u e.workspace_id d ≡ (ok access, d)
  unfolding access Service.get_workspace can_read_workspace
  read_back =
      ap (λ (x : Result (Option WorkspaceAccess)). (query (λ _. x) >>= λ a. lift (readable a)) d)
        found

module _ (draw membership_draw audit_draw : Draw) (u session : ℕ) (name : Text) (request : ℕ)
    (trace : Option Text) where
  -- What holds of the answer.
  abbrev IsReadBack : WorkspaceAccess → Db → Type 0
  IsReadBack r d =
      (Service.get_workspace u r.workspace_id d ≡ (ok r, d))
      × ((r.role ≡ WorkspaceRole.owner)
          × ((r.status ≡ WorkspaceStatus.active) × (normalize_workspace_name name ≡ ok r.name)))

  -- The statements of one transaction
  abbrev body : Text → ℕ → ℕ → Tx WorkspaceRow
  body n i j = do
    row ← execute (insert_workspace i n)
    execute (insert_owner_membership j i u)
    a ← lift (uuid7 audit_draw)
    execute (insert_audit (workspace_event a u session i n request trace))
    pure row

  body-Owned : (n : Text) (i j : ℕ) (b : Db) → Post (Owned u n b) (body n i j) b
  body-Owned n i j b = execute_rule (Owned u n b) b (insert_workspace i n) _ λ row d1 put.
      execute_rule (Owned u n b) d1 (insert_owner_membership j i u) _ λ _ d2 joined.
        lift_rule (Owned u n b) d2 (uuid7 audit_draw) _ λ a _.
          execute_rule (Owned u n b) d2
            (insert_audit (workspace_event a u session i n request trace)) _
            λ _ d3 logged.
              let (fresh, (inserted, s1)) = insert_workspace-ok i n b row d1 put in
              let (no_member, s2) = insert_owner_membership-ok j i u d1 d2 joined in
              let s3 =
                insert_audit-ok (workspace_event a u session i n request trace) d2 d3 logged in
              pure_rule (Owned u n b) d3 row (record {
                workspace_id = i;
                membership_id = j;
                event = workspace_event a u session i n request trace;
                fresh = fresh;
                no_member = rw s1 at no_member;
                inserted = inserted;
                state = s3 ∙ rw (s2, s1) refl;
              })

  -- A Workspace that is created is active, owned by its creator and has the normalized name, and its
  -- creator reads exactly the answer back: `get_workspace` finds it by one membership.
  pub create_workspace-get_workspace :
      (db : Db) (r : WorkspaceAccess) (d : Db)
      → Service.create_workspace draw membership_draw audit_draw u session name request trace db
        ≡ (ok r, d)
      → (Service.get_workspace u r.workspace_id d ≡ (ok r, d))
        × ((r.role ≡ WorkspaceRole.owner)
            × ((r.status ≡ WorkspaceStatus.active) × (normalize_workspace_name name ≡ ok r.name)))
  unfolding access Service.create_workspace Repository.create_owned_workspace
  create_workspace-get_workspace db r d h =
      Post-ok IsReadBack
        (Service.create_workspace draw membership_draw audit_draw u session name request trace) db
        (lift_rule IsReadBack db (normalize_workspace_name name) _ λ n normal.
          lift_rule IsReadBack db (uuid7 draw) _ λ i _.
            lift_rule IsReadBack db (uuid7 membership_draw) _ λ j _.
              bind_rule (Owned u n db) IsReadBack db _ (λ row. lift (answer row))
                (transaction_rule (Owned u n db) db _ (body-Owned n i j db))
                (λ row d1 e. rw (answered u n db row d1 e) (
                  pure_rule IsReadBack d1 (access u n db row d1 e)
                    (read_back u n db row d1 e, (refl, (refl, normal))))))
        h

  pub create_workspace-IsAtomic :
      IsAtomic
        (Service.create_workspace draw membership_draw audit_draw u session name request trace)
  unfolding Service.create_workspace Repository.create_owned_workspace
  create_workspace-IsAtomic = lift-IsAtomic (normalize_workspace_name name) _ λ n.
      lift-IsAtomic (uuid7 draw) _ λ i. lift-IsAtomic (uuid7 membership_draw) _ λ j.
        bind-IsAtomic (λ row d. (b : Db) × Owned u n b row d) (transaction (body n i j)) answer
          (transaction-IsAtomic _)
          (λ b.
            Post-imp b (transaction (body n i j)) (Owned u n b)
              (λ row d. (x : Db) × Owned u n x row d) (λ row d x. (b, x))
              (transaction_rule (Owned u n b) b _ (body-Owned n i j b)))
          (λ row d e. (access u n e.0 row d e.1, answered u n e.0 row d e.1))
