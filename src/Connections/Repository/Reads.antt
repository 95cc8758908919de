-- ===== src/Connections/Repository/Reads.antt =====
-- The methods of `SqlAlchemyConnectionRepository` that only read.
use bff.Prelude.{
  ℕ, ◌+◌, Bool, true, ◌&&◌, Option, none, some, List, [], ◌∷◌, map, ltb, leb, ◌==◌, if◌then◌else◌,
  filter, length, take, sort_by, get_last?,
}
use bff.Result.{Result, ok, ◌>>=◌}
use bff.Db.{Db, WorkspaceRow, MembershipRow, ConnectionRow, AccessRow, RevisionRow}
use bff.Paging.Join.{lateral, nulls_last, present}
use bff.Paging.{Key, keyset, page}
use bff.Connections.Models.{
  Connection, ConnectionPageCursor, ConnectionPageLookup, ConnectionLookup, ConnectionDraftLookup,
  ConnectionRevisionPageLookup, ConnectionRevisionLookup,
}
use bff.Connections.Repository.Queries.{
  one_or_none, select_workspace_context, workspace_context_from_row, is_connection, project_ids_of,
  connection_from_row, mutation_context, select_draft, draft_from_row, revision_metadata_from_row,
  revision_from_row,
}
use mathlib.Core.Option

abbrev pub Access : Type 0
Access = WorkspaceRow × MembershipRow

abbrev pub row_key : ConnectionRow → Key
row_key c = record { created_at = c.created_at; id = c.id }

abbrev pub connection_key : Connection → Key
connection_key c = record { created_at = c.created_at; id = c.connection_id }

abbrev pub cursor_key : ConnectionPageCursor → Key
cursor_key c = record { created_at = c.created_at; id = c.connection_id }

abbrev pub key_cursor : Key → ConnectionPageCursor
key_cursor k = record { created_at = k.created_at; connection_id = k.id }

-- The lateral subquery of _LIST_FOR_USER.
abbrev pub page_rows : Option Key → ℕ → Db → Access → List ConnectionRow
page_rows cursor fetch_limit db a =
    keyset row_key cursor fetch_limit (filter (λ c. c.workspace_id == a.0.id) db.connections)

-- _LIST_FOR_USER
abbrev pub select_page : ℕ → ℕ → Option Key → ℕ → Db → List (Access × Option ConnectionRow)
select_page user_id workspace_id cursor fetch_limit db =
    sort_by (nulls_last row_key)
      (lateral (page_rows cursor fetch_limit db) (select_workspace_context user_id workspace_id db))

-- The connections of the rows, decoded.
unfoldable pub connections_from_rows :
    List AccessRow → List ConnectionRow → Result (List Connection)
connections_from_rows access [] = ok []
connections_from_rows access (c ∷ rows) = do
  connection ← connection_from_row (project_ids_of c.id access) c
  connections ← connections_from_rows access rows
  ok (connection ∷ connections)

abbrev pub list_from_rows :
    ℕ → List AccessRow → List (Access × Option ConnectionRow) → Result ConnectionPageLookup
list_from_rows limit access [] =
    ok (record { context = none; page = record { items = []; next_cursor = none } })
list_from_rows limit access (r ∷ rows) = do
  context ← workspace_context_from_row r.0
  connections ← connections_from_rows access (present (r ∷ rows))
  let (visible, next) = page connection_key limit connections
  ok (record {
    context = some context;
    page = record { items = visible; next_cursor = Option.map key_cursor next };
  })

unfoldable pub list_for_user :
    ℕ → ℕ → Option ConnectionPageCursor → ℕ → Db → Result ConnectionPageLookup
list_for_user user_id workspace_id cursor limit db =
    list_from_rows limit db.access
      (select_page user_id workspace_id (Option.map cursor_key cursor) (limit + 1) db)

-- _GET_FOR_USER
abbrev pub select_for_user : ℕ → ℕ → ℕ → Db → List (Access × Option ConnectionRow)
select_for_user user_id workspace_id connection_id db =
    lateral (λ a. filter (is_connection a.0.id connection_id) db.connections)
      (select_workspace_context user_id workspace_id db)

abbrev lookup_from_row :
    List AccessRow → Option (Access × Option ConnectionRow) → Result ConnectionLookup
lookup_from_row access none = ok (record { context = none; connection = none })
lookup_from_row access (some (a, none)) = do
  context ← workspace_context_from_row a
  ok (record { context = some context; connection = none })
lookup_from_row access (some (a, some c)) = do
  connection ← connection_from_row (project_ids_of c.id access) c
  context ← workspace_context_from_row a
  ok (record { context = some context; connection = some connection })

unfoldable pub get_for_user : ℕ → ℕ → ℕ → Db → Result ConnectionLookup
get_for_user user_id workspace_id connection_id db = do
  row ← one_or_none (select_for_user user_id workspace_id connection_id db)
  lookup_from_row db.access row

unfoldable pub get_draft_for_user : ℕ → ℕ → ℕ → Db → Result ConnectionDraftLookup
get_draft_for_user user_id workspace_id connection_id db = do
  context ← mutation_context user_id workspace_id connection_id db
  row ← one_or_none (select_draft workspace_id connection_id db)
  ok (record { context = some context; draft = Option.map draft_from_row row })

abbrev before_revision_test : Option ℕ → RevisionRow → Bool
before_revision_test none r = true
before_revision_test (some n) r = ltb r.revision_number n

-- _LIST_REVISIONS
abbrev pub select_revisions : ℕ → ℕ → Option ℕ → ℕ → Db → List RevisionRow
select_revisions workspace_id connection_id before_revision fetch_limit db = take fetch_limit (
    sort_by (λ a b. leb b.revision_number a.revision_number)
      (filter
        (λ r.
          (r.workspace_id == workspace_id && r.connection_id == connection_id)
          && before_revision_test before_revision r)
        db.revisions))

unfoldable pub list_revisions_for_user :
    ℕ → ℕ → ℕ → Option ℕ → ℕ → Db → Result ConnectionRevisionPageLookup
list_revisions_for_user user_id workspace_id connection_id before_revision limit db = do
  context ← mutation_context user_id workspace_id connection_id db
  let rows = select_revisions workspace_id connection_id before_revision (limit + 1) db
  let visible = take limit rows
  ok (record {
    context = some context;
    page = record {
      items = map revision_metadata_from_row visible;
      next_before_revision =
          if ltb limit (length rows)
          then Option.map (λ r. r.revision_number) (get_last? visible)
          else none;
    };
  })

unfoldable pub get_revision_for_user : ℕ → ℕ → ℕ → ℕ → Db → Result ConnectionRevisionLookup
get_revision_for_user user_id workspace_id connection_id revision_id db = do
  context ← mutation_context user_id workspace_id connection_id db
  row ← one_or_none (
      filter
        (λ r.
          (r.workspace_id == workspace_id && r.connection_id == connection_id)
          && r.id == revision_id)
        db.revisions)
  ok (record { context = some context; revision = Option.map revision_from_row row })
