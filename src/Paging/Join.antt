-- ===== src/Paging/Join.antt =====
-- `FROM access LEFT JOIN LATERAL (...) ON TRUE ORDER BY created_at DESC NULLS LAST, id DESC NULLS LAST`,
-- the form of the list queries of infrastructure/db.
use bff.Prelude.{Bool, true, false, not, Option, none, some, List, [], ◌∷◌, ◌++◌, map}
use bff.Paging.{Key, key_lt}

module _ {A B : Type 0} where
  -- The rows beside `b`, or nulls.
  abbrev pub left_join : B → List A → List (B × Option A)
  left_join b [] = (b, none) ∷ []
  left_join b (x ∷ xs) = map (λ y. (b, some y)) (x ∷ xs)

  -- For each `b` the rows that the subquery has for it.
  abbrev pub lateral : (B → List A) → List B → List (B × Option A)
  lateral rows [] = []
  lateral rows (b ∷ bs) = left_join b (rows b) ++ lateral rows bs

  abbrev pub nulls_last : (A → Key) → B × Option A → B × Option A → Bool
  nulls_last key (a, none) (b, none) = true
  nulls_last key (a, none) (b, some y) = false
  nulls_last key (a, some x) (b, none) = true
  nulls_last key (a, some x) (b, some y) = not (key_lt (key x) (key y))

  -- The rows that are there, `[... for row in rows if row["..._id"] is not None]`.
  abbrev pub present : List (B × Option A) → List A
  present [] = []
  present ((b, none) ∷ rows) = present rows
  present ((b, some x) ∷ rows) = x ∷ present rows
