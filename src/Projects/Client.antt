-- ===== src/Projects/Client.antt =====
-- A client that lists the Projects of a Workspace page by page: `list_projects` of
-- domains/projects/service.py, called again with each `next_cursor`.
use bff.Prelude.{
  ℕ, zero, suc, ◌+◌, ◌≤◌, ◌<◌, pos, ◌≡◌, refl, sym, ap, ◌∙◌, Option, none, some, List, [], ◌∷◌,
  ◌++◌, map, map-append, All, sort_by, length,
}
use mathlib.Core.Option
use bff.Result.{Result, ok, err}
use bff.Db.{Db, ProjectRow}
use bff.Paging.{Key, comes_first, keyset, page}
use bff.Paging.Order.{Distinct}
use mathlib.Core.List.{append-nil}
use bff.Paging.Walk
use bff.Paging.Walk.{walk, walk-eq-sort_by}
use bff.Connections.Repository.Queries.{select_workspace_context}
use bff.Projects.Models.{Project, ProjectPage, ProjectPageCursor, ProjectWorkspaceContext}
use bff.Projects.Policies.{max_project_page_limit}
use bff.Projects.Reads.{Access, row_key, cursor_key, key_cursor, projects_of, context_from_row}
use bff.Projects.Service
use bff.Projects.Listing.{IsReadable, decode, shown, list_projects-page}

abbrev after : Option ProjectPageCursor → (ProjectPageCursor → List Project) → List Project
after none rest = []
after (some c) rest = rest c

abbrev follow : Result ProjectPage → (ProjectPageCursor → List Project) → List Project
follow (err e) rest = []
follow (ok p) rest = p.items ++ after p.next_cursor rest

-- The Projects that at most `f` calls return, put together.
unfoldable pub read_all : ℕ → ℕ → ℕ → ℕ → Option ProjectPageCursor → Db → List Project
read_all zero u w limit cursor db = []
read_all (suc f) u w limit cursor db =
    follow (Service.list_projects u w cursor (pos limit) db).0
      (λ c. read_all f u w limit (some c) db)

step :
    (p : List ProjectRow × Option Key) (rest : ProjectPageCursor → List Project)
    (rows : Option Key → List ProjectRow)
    → ((c : Key) → rest (key_cursor c) ≡ map decode (rows (some c)))
    → follow (ok (shown p)) rest ≡ map decode (Walk.follow row_key p rows)
step (visible, none) rest rows h = append-nil (map decode visible)
step (visible, some c) rest rows h = rw (h c) (sym (map-append decode visible (rows (some c))))

module _ (db : Db) (readable : All IsReadable db.projects) (access : Access)
    (context : ProjectWorkspaceContext) (known : context_from_row access ≡ ok context) (u w : ℕ)
    (selected : select_workspace_context u w db ≡ access ∷ []) (limit : ℕ) (some_rows : 0 < limit)
    (few_rows : limit ≤ max_project_page_limit) where
  read_all-walk :
      (f : ℕ) (cursor : Option ProjectPageCursor)
      → read_all f u w limit cursor db
        ≡ map decode (walk row_key f limit (Option.map cursor_key cursor) (projects_of w db))
  unfolding read_all walk
  read_all-walk zero cursor = refl
  read_all-walk (suc f) cursor =
      ap (λ (out : Result ProjectPage × Db). follow out.0 (λ c. read_all f u w limit (some c) db))
        (list_projects-page db readable access context known u w cursor limit selected some_rows
          few_rows)
      ∙ step
          (page row_key limit
            (keyset row_key (Option.map cursor_key cursor) (limit + 1) (projects_of w db)))
          (λ c. read_all f u w limit (some c) db) (λ k. walk row_key f limit k (projects_of w db))
          (λ c. read_all-walk f (some (key_cursor c)))

  -- A member whose access is one row that can be read, who asks for pages of 1 to 100 Projects and
  -- follows the cursors, reads every Project of the Workspace exactly once, the newest first, if the
  -- rows' statuses can be read and their keys differ; more calls than there are Projects are enough.
  pub read_all_complete :
      (f : ℕ)
      → Distinct row_key (projects_of w db)
      → length (projects_of w db) < f
      → read_all f u w limit none db ≡ map decode (sort_by (comes_first row_key) (projects_of w db))
  read_all_complete f d enough =
      read_all-walk f none
      ∙ ap (map decode) (walk-eq-sort_by row_key (projects_of w db) limit f d some_rows enough)
