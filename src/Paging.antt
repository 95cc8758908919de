-- ===== src/Paging.antt =====
-- Keyset pagination, which the Connection and the Project repository share: a query
-- `WHERE (created_at, id) < cursor ORDER BY created_at DESC, id DESC LIMIT limit + 1`, and the page
-- that the repository cuts from its rows (list_for_user in infrastructure/db/connection_repository.py
-- and infrastructure/db/project_repository.py).
pub mod Order
pub mod Walk
pub mod Join
pub mod Ordered
use bff.Prelude.{
  ℕ, ◌+◌, Bool, true, ◌&&◌, ◌||◌, not, Option, none, some, List, ltb, leb, ◌==◌, if◌then◌else◌,
  filter, length, take, sort_by, get_last?,
}
use mathlib.Core.Option

-- (created_at, id)
pub record Key : Type 0 where
  pub created_at : ℕ
  pub id : ℕ

-- `a < b` on row values
abbrev pub key_lt : Key → Key → Bool
key_lt a b = ltb a.created_at b.created_at || (a.created_at == b.created_at && ltb a.id b.id)

-- The condition that the cursor sets.
abbrev pub before_cursor : Option Key → Key → Bool
before_cursor none k = true
before_cursor (some c) k = key_lt k c

module _ {A : Type 0} (key : A → Key) where
  -- ORDER BY created_at DESC, id DESC
  abbrev pub comes_first : A → A → Bool
  comes_first x y = not (key_lt (key x) (key y))

  unfoldable pub keyset : Option Key → ℕ → List A → List A
  keyset cursor fetch_limit rows =
      take fetch_limit (sort_by comes_first (filter (λ x. before_cursor cursor (key x)) rows))

  -- `visible = items[:limit]`, and the cursor if there are more.
  unfoldable pub page : ℕ → List A → List A × Option Key
  page limit rows =
      let visible = take limit rows in
      (visible, if ltb limit (length rows) then Option.map key (get_last? visible) else none)
