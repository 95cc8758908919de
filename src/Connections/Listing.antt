-- ===== src/Connections/Listing.antt =====
-- `list_connections` of domains/connections/service.py against the keyset pagination of Paging.
use bff.Prelude.{
  ℕ, ◌+◌, ◌≤◌, ◌<◌, pos, ◌≡◌, refl, ap, ◌∙◌, arith, true, false, Option, none, some, List, [], ◌∷◌,
  map, All, All-filter, All-take, sort_by-All, take, take-map, length-map, get_last?, get_last?-map,
  filter, ◌==◌,
}
use mathlib.Core.Option
use mathlib.Core.List.{append-nil}
use bff.Result.{Result, ok, err}
use bff.Db.{Db, ConnectionRow, AccessRow}
use bff.Paging.{Key, before_cursor, comes_first, keyset, page}
use bff.Paging.Join.{left_join, present}
use bff.Paging.Ordered.{keyset-IsSortedBy, left_join_sorted, present-map}
use bff.Connections.Values.{status_of, mode_of}
use bff.Connections.Members.{selected-named}
use bff.Connections.Models.{
  Connection, ConnectionAuthorizationRole, ConnectionStatus, ConnectionAccessMode, ConnectionPage,
  ConnectionPageCursor, ConnectionWorkspaceContext,
}
use bff.Connections.Policies.{
  validate_connection_page_limit, can_read_connections, max_connection_page_limit,
}
use bff.Connections.Repository.Queries.{
  select_workspace_context, workspace_context_from_row, connection_from_row, project_ids_of,
  has_selected,
}
use bff.Connections.Repository.Reads
use bff.Connections.Repository.Reads.{
  Access, row_key, connection_key, cursor_key, key_cursor, select_page, connections_from_rows,
  list_from_rows,
}
use bff.Connections.Service
use bff.Connections.Service.Authorize.{authorize_read}

abbrev status_or_draft : Result ConnectionStatus → ConnectionStatus
status_or_draft (ok s) = s
status_or_draft (err e) = ConnectionStatus.draft

abbrev mode_or_workspace : Result ConnectionAccessMode → ConnectionAccessMode
mode_or_workspace (ok m) = m
mode_or_workspace (err e) = ConnectionAccessMode.workspace

-- The Connection that a row shows beside its access rows, if its mode and status can be read.
pub decode : List AccessRow → ConnectionRow → Connection
decode access c = record {
  connection_id = c.id;
  workspace_id = c.workspace_id;
  name = c.name;
  provider_key = c.provider_key;
  access_policy = record {
    mode = mode_or_workspace (mode_of c.access_mode);
    project_ids = project_ids_of c.id access;
  };
  status = status_or_draft (status_of c.status);
  created_at = c.created_at;
  updated_at = c.updated_at;
  archived_at = c.archived_at;
}

-- The mode and the status of a row are members of their enums, and a row that is for the whole
-- Workspace has no access rows.
pub data IsReadable (access : List AccessRow) (c : ConnectionRow) : Type 0 where
  readable :
      (m : ConnectionAccessMode) (s : ConnectionStatus)
      → mode_of c.access_mode ≡ ok m
      → has_selected m (project_ids_of c.id access) ≡ false
      → status_of c.status ≡ ok s
      → IsReadable access c

module _ (access : List AccessRow) where
  decode-ok :
      (c : ConnectionRow)
      → IsReadable access c
      → connection_from_row (project_ids_of c.id access) c ≡ ok (decode access c)
  unfolding decode connection_from_row
  decode-ok c (readable m s h k l) = rw (h, k, l) refl

  connections_from_rows-map :
      (rows : List ConnectionRow)
      → All (IsReadable access) rows
      → connections_from_rows access rows ≡ ok (map (decode access) rows)
  unfolding connections_from_rows
  connections_from_rows-map [] h = refl
  connections_from_rows-map (r ∷ rows) h =
      rw (decode-ok r h.0, connections_from_rows-map rows h.1) refl

  option_key :
      (o : Option ConnectionRow)
      → Option.map connection_key (Option.map (decode access) o) ≡ Option.map row_key o
  unfolding decode
  option_key none = refl
  option_key (some r) = refl

  page-map :
      (limit : ℕ) (rows : List ConnectionRow)
      → page connection_key limit (map (decode access) rows)
        ≡ (map (decode access) (page row_key limit rows).0, (page row_key limit rows).1)
  unfolding page
  page-map limit rows =
      rw
        (
          take-map (decode access) limit rows,
          length-map (decode access) rows,
          get_last?-map (decode access) (take limit rows),
          option_key (get_last? (take limit rows)),
        )
        refl

  -- The page that the client is shown.
  abbrev pub shown : List ConnectionRow × Option Key → ConnectionPage
  shown (rows, next) = record {
    items = map (decode access) rows;
    next_cursor = Option.map key_cursor next;
  }

  keyset-IsReadable :
      (cursor : Option Key) (n : ℕ) (rows : List ConnectionRow)
      → All (IsReadable access) rows
      → All (IsReadable access) (keyset row_key cursor n rows)
  unfolding keyset
  keyset-IsReadable cursor n rows h = All-take (IsReadable access) n _ (
      sort_by-All (comes_first row_key) (IsReadable access) _
        (All-filter (IsReadable access) (λ x. before_cursor cursor (row_key x)) rows h))

can_read_all : (role : ConnectionAuthorizationRole) → can_read_connections role ≡ true
unfolding can_read_connections
can_read_all ConnectionAuthorizationRole.owner = refl
can_read_all ConnectionAuthorizationRole.admin = refl
can_read_all ConnectionAuthorizationRole.builder = refl
can_read_all ConnectionAuthorizationRole.viewer = refl

-- The Connections of a Workspace.
abbrev pub connections_in : ℕ → Db → List ConnectionRow
connections_in workspace_id db = filter (λ c. c.workspace_id == workspace_id) db.connections

module _ (db : Db) (rows_readable : All (IsReadable db.access) db.connections) (member : Access)
    (context : ConnectionWorkspaceContext)
    (known : workspace_context_from_row member ≡ ok context) where
  page_of_rows :
      (limit : ℕ) (rows : List ConnectionRow)
      → All (IsReadable db.access) rows
      → list_from_rows limit db.access (left_join member rows)
        ≡ ok (record { context = some context; page = shown db.access (page row_key limit rows) })
  page_of_rows limit [] h =
      rw (known, connections_from_rows-map db.access [] h, page-map db.access limit []) refl
  page_of_rows limit (r ∷ rows) h =
      let there : present ((member, some r) ∷ map (λ y. (member, some y)) rows) ≡ r ∷ rows =
        present-map row_key member (r ∷ rows) in
      rw
        (
          known,
          there,
          connections_from_rows-map db.access (r ∷ rows) h,
          page-map db.access limit (r ∷ rows),
        )
        refl

  validated :
      (limit : ℕ)
      → 0 < limit
      → limit ≤ max_connection_page_limit
      → validate_connection_page_limit (pos limit) ≡ ok limit
  unfolding validate_connection_page_limit
  validated limit h k = ground arith

  reads : authorize_read (some context) ≡ ok tt
  unfolding authorize_read
  reads = rw (can_read_all context.role) refl

  listed :
      (u w : ℕ) (cursor : Option ConnectionPageCursor) (limit : ℕ)
      → select_workspace_context u w db ≡ member ∷ []
      → Reads.list_for_user u w cursor limit db
        ≡ ok (record {
          context = some context;
          page = shown db.access (
              page row_key limit
                (keyset row_key (Option.map cursor_key cursor) (limit + 1) (connections_in w db)));
        })
  unfolding Reads.list_for_user
  listed u w cursor limit selected =
      let from : Option Key = Option.map cursor_key cursor in
      let rows : List ConnectionRow = keyset row_key from (limit + 1) (connections_in w db) in
      let one : select_page u w from (limit + 1) db ≡ left_join member rows =
        rw (selected, append-nil)
          (left_join_sorted row_key member _
            (keyset-IsSortedBy row_key from (limit + 1) (connections_in member.0.id db)))
        ∙ ap (λ n. left_join member (keyset row_key from (limit + 1) (connections_in n db)))
            (selected-named u w db member selected) in
      rw one (
        page_of_rows limit rows (
          keyset-IsReadable db.access from (limit + 1) (connections_in w db) (
            All-filter (IsReadable db.access) (λ c. c.workspace_id == w) db.connections
              rows_readable)))

  -- For a user whose access to the Workspace is one row that can be read, where every Connection's mode and
  -- status can be read and none for the whole Workspace has access rows, and for a limit of 1 to 100:
  -- `list_connections` returns the page of the keyset query over the Workspace's Connections, decoded
  -- with their access policies, and writes nothing.
  pub list_connections-page :
      (u w : ℕ) (cursor : Option ConnectionPageCursor) (limit : ℕ)
      → select_workspace_context u w db ≡ member ∷ []
      → 0 < limit
      → limit ≤ max_connection_page_limit
      → Service.list_connections u w cursor (pos limit) db ≡ (
        ok (
            shown db.access (
              page row_key limit
                (keyset row_key (Option.map cursor_key cursor) (limit + 1) (connections_in w db)))),
        db,
      )
  unfolding Service.list_connections Reads.list_for_user page select_workspace_context keyset
  list_connections-page u w cursor limit selected h k =
      rw (validated limit h k, listed u w cursor limit selected, reads) refl
