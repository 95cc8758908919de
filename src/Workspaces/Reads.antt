-- ===== src/Workspaces/Reads.antt =====
-- The queries of infrastructure/db/workspace_repository.py and their decoder.
use bff.Prelude.{
  ℕ, Bool, ◌&&◌, ◌||◌, Option, none, some, List, [], ◌∷◌, filter, sort_by, ltb, leb, ◌==◌, is_none,
}
use bff.Result.{Result, ok, ◌>>=◌}
use bff.Db.{Db, WorkspaceRow, MembershipRow}
use bff.Connections.Repository.Queries.{one_or_none, join_workspaces, select_workspace_context}
use bff.Workspaces.Models.{WorkspaceAccess, status_of, role_of}

-- `_access_from_row`
unfoldable pub access_from_row : WorkspaceRow × MembershipRow → Result WorkspaceAccess
access_from_row (w, m) = do
  status ← status_of w.status
  role ← role_of m.role
  ok (record {
    workspace_id = w.id;
    name = w.name;
    status = status;
    role = role;
    created_at = w.created_at;
    updated_at = w.updated_at;
  })

-- ORDER BY created_at ASC, id ASC
abbrev pub oldest_first : WorkspaceRow × MembershipRow → WorkspaceRow × MembershipRow → Bool
oldest_first (v, _) (w, _) =
    ltb v.created_at w.created_at || (v.created_at == w.created_at && leb v.id w.id)

-- _LIST_FOR_USER
unfoldable pub select_accesses : ℕ → Db → List (WorkspaceRow × MembershipRow)
unfolding join_workspaces
select_accesses user_id db = sort_by oldest_first (
    join_workspaces db.workspaces
      (filter (λ m. m.user_id == user_id && is_none m.ended_at) db.memberships))

-- `tuple(self._access_from_row(row) for row in rows)`
unfoldable pub accesses_from_rows :
    List (WorkspaceRow × MembershipRow) → Result (List WorkspaceAccess)
accesses_from_rows [] = ok []
accesses_from_rows (r ∷ rows) = do
  access ← access_from_row r
  accesses ← accesses_from_rows rows
  ok (access ∷ accesses)

unfoldable pub list_for_user : ℕ → Db → Result (List WorkspaceAccess)
list_for_user user_id db = accesses_from_rows (select_accesses user_id db)

abbrev decoded : Option (WorkspaceRow × MembershipRow) → Result (Option WorkspaceAccess)
decoded none = ok none
decoded (some r) = do access ← access_from_row r; ok (some access)

-- _GET_FOR_USER selects the rows of the other repositories' Workspace context.
unfoldable pub get_for_user : ℕ → ℕ → Db → Result (Option WorkspaceAccess)
get_for_user user_id workspace_id db = do
  row ← one_or_none (select_workspace_context user_id workspace_id db)
  decoded row
