-- ===== src/Projects/Listing.antt =====
-- `list_projects` of domains/projects/service.py against the keyset pagination of Paging, and what a
-- client reads that follows its cursors.
use bff.Prelude.{
  ℕ, ◌+◌, ◌≤◌, ◌<◌, pos, ◌≡◌, refl, ap, ◌∙◌, arith, true, Option, none, some, List, [], ◌∷◌, map,
  All, All-filter, All-take, sort_by-All, take, take-map, length-map, get_last?, get_last?-map,
  ◌==◌,
}
use mathlib.Core.Option
use mathlib.Core.List.{append-nil}
use bff.Result.{Result, ok, err}
use bff.Db.{Db, ProjectRow}
use bff.Paging.{Key, before_cursor, comes_first, keyset, page}
use bff.Paging.Join.{left_join, present}
use bff.Paging.Ordered.{keyset-IsSortedBy, left_join_sorted, present-map}
use bff.Connections.Members.{selected-named}
use bff.Connections.Repository.Queries.{select_workspace_context}
use bff.Projects.Models.{
  Project, ProjectAuthorizationRole, ProjectStatus, ProjectPage, ProjectPageCursor,
  ProjectWorkspaceContext, project_status_of,
}
use bff.Projects.Policies.{validate_project_page_limit, can_read_projects, max_project_page_limit}
use bff.Projects.Reads
use bff.Projects.Reads.{
  Access, row_key, project_key, cursor_key, key_cursor, projects_of, select_projects,
  projects_from_rows, page_from_rows, context_from_row, project_from_row,
}
use bff.Projects.Service
use bff.Projects.Service.{authorize_read}

-- The Project that a row shows, if its status can be read.
abbrev status_or_active : Result ProjectStatus → ProjectStatus
status_or_active (ok s) = s
status_or_active (err e) = ProjectStatus.active

pub decode : ProjectRow → Project
decode r = record {
  project_id = r.id;
  workspace_id = r.workspace_id;
  name = r.name;
  status = status_or_active (project_status_of r.status);
  created_at = r.created_at;
  updated_at = r.updated_at;
  archived_at = r.archived_at;
}

-- The status of a row is a member of the enum.
abbrev pub IsReadable : ProjectRow → Type 0
IsReadable r = (s : ProjectStatus) × (project_status_of r.status ≡ ok s)

decode-ok : (r : ProjectRow) → IsReadable r → project_from_row r ≡ ok (decode r)
unfolding decode project_from_row
decode-ok r (s, h) = rw h refl

projects_from_rows-map :
    (rows : List ProjectRow) → All IsReadable rows → projects_from_rows rows ≡ ok (map decode rows)
unfolding projects_from_rows
projects_from_rows-map [] h = refl
projects_from_rows-map (r ∷ rows) h = rw (decode-ok r h.0, projects_from_rows-map rows h.1) refl

option_key :
    (o : Option ProjectRow) → Option.map project_key (Option.map decode o) ≡ Option.map row_key o
unfolding decode
option_key none = refl
option_key (some r) = refl

page-map :
    (limit : ℕ) (rows : List ProjectRow)
    → page project_key limit (map decode rows)
      ≡ (map decode (page row_key limit rows).0, (page row_key limit rows).1)
unfolding page
page-map limit rows =
    rw
      (
        take-map decode limit rows,
        length-map decode rows,
        get_last?-map decode (take limit rows),
        option_key (get_last? (take limit rows)),
      )
      refl

-- The page that the client is shown.
abbrev pub shown : List ProjectRow × Option Key → ProjectPage
shown (rows, next) = record { items = map decode rows; next_cursor = Option.map key_cursor next }

keyset-IsReadable :
    (cursor : Option Key) (n : ℕ) (rows : List ProjectRow)
    → All IsReadable rows
    → All IsReadable (keyset row_key cursor n rows)
unfolding keyset
keyset-IsReadable cursor n rows h = All-take IsReadable n _ (
    sort_by-All (comes_first row_key) IsReadable _
      (All-filter IsReadable (λ x. before_cursor cursor (row_key x)) rows h))

can_read_all : (role : ProjectAuthorizationRole) → can_read_projects role ≡ true
unfolding can_read_projects
can_read_all ProjectAuthorizationRole.owner = refl
can_read_all ProjectAuthorizationRole.admin = refl
can_read_all ProjectAuthorizationRole.builder = refl
can_read_all ProjectAuthorizationRole.viewer = refl

module _ (db : Db) (readable : All IsReadable db.projects) (access : Access)
    (context : ProjectWorkspaceContext) (known : context_from_row access ≡ ok context) where
  page_of_rows :
      (limit : ℕ) (rows : List ProjectRow)
      → All IsReadable rows
      → page_from_rows limit (left_join access rows)
        ≡ ok (record { context = some context; page = shown (page row_key limit rows) })
  page_of_rows limit [] h = rw (known, projects_from_rows-map [] h, page-map limit []) refl
  page_of_rows limit (r ∷ rows) h =
      let there : present ((access, some r) ∷ map (λ y. (access, some y)) rows) ≡ r ∷ rows =
        present-map row_key access (r ∷ rows) in
      rw (known, there, projects_from_rows-map (r ∷ rows) h, page-map limit (r ∷ rows)) refl

  validated :
      (limit : ℕ)
      → 0 < limit
      → limit ≤ max_project_page_limit
      → validate_project_page_limit (pos limit) ≡ ok limit
  unfolding validate_project_page_limit
  validated limit h k = ground arith

  reads : authorize_read (some context) ≡ ok tt
  unfolding authorize_read
  reads = rw (can_read_all context.role) refl

  listed :
      (u w : ℕ) (cursor : Option ProjectPageCursor) (limit : ℕ)
      → select_workspace_context u w db ≡ access ∷ []
      → Reads.list_for_user u w cursor limit db
        ≡ ok (record {
          context = some context;
          page = shown (
              page row_key limit
                (keyset row_key (Option.map cursor_key cursor) (limit + 1) (projects_of w db)));
        })
  unfolding Reads.list_for_user
  listed u w cursor limit selected =
      let from : Option Key = Option.map cursor_key cursor in
      let rows : List ProjectRow = keyset row_key from (limit + 1) (projects_of w db) in
      let one : select_projects u w from (limit + 1) db ≡ left_join access rows =
        rw (selected, append-nil)
          (left_join_sorted row_key access _
            (keyset-IsSortedBy row_key from (limit + 1) (projects_of access.0.id db)))
        ∙ ap (λ n. left_join access (keyset row_key from (limit + 1) (projects_of n db)))
            (selected-named u w db access selected) in
      rw one (
        page_of_rows limit rows (
          keyset-IsReadable from (limit + 1) (projects_of w db)
            (All-filter IsReadable (λ p. p.workspace_id == w) db.projects readable)))

  -- For a user whose access to the Workspace is one row that can be read, where the rows' statuses can
  -- be read, and for a limit of 1 to 100: `list_projects` returns the page of the keyset query, decoded, and writes nothing.
  pub list_projects-page :
      (u w : ℕ) (cursor : Option ProjectPageCursor) (limit : ℕ)
      → select_workspace_context u w db ≡ access ∷ []
      → 0 < limit
      → limit ≤ max_project_page_limit
      → Service.list_projects u w cursor (pos limit) db ≡ (
        ok (
            shown (
              page row_key limit
                (keyset row_key (Option.map cursor_key cursor) (limit + 1) (projects_of w db)))),
        db,
      )
  unfolding Service.list_projects Reads.list_for_user page select_workspace_context keyset
  list_projects-page u w cursor limit selected h k =
      rw (validated limit h k, listed u w cursor limit selected, reads) refl
