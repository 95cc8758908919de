-- ===== src/Paging/Walk.antt =====
-- A client that follows the cursors sees every row once, in the order of the query.
use bff.Prelude.{
  ℕ, zero, suc, ◌+◌, ◌≤◌, ◌<◌, ◌≡◌, refl, sym, ap, ◌∙◌, Bool, true, false, Option, none, some, List,
  [], ◌∷◌, ◌++◌, arith, ltb, filter, length, take, drop, sort_by, get_last?, All-intro, All-filter,
  filter-filter, filter_congr, filter_keeps, filter-sort_by, length-sort_by, length-take,
  length-drop, take-append-drop, take-take-suc, take_all, get_last?-some, All-get_last?, filter-All,
  Bool-cases, inl, inr,
}
use native.Mathlib.Numerals.{add-one}
use bff.Paging.{Key, key_lt, before_cursor, comes_first, keyset, page}
use bff.Paging.Order.{
  key_lt_trans, key_lt_irrefl, Distinct, IsDescending, comes_first_total, comes_first_trans,
  sort_by-IsDescending,
}

module _ {A : Type 0} (key : A → Key) where
  -- A page, and what `rest` reads from its cursor.
  abbrev pub follow : List A × Option Key → (Option Key → List A) → List A
  follow (visible, none) rest = visible
  follow (visible, some c) rest = visible ++ rest (some c)

  -- The pages that a client reads when it follows `next_cursor`, put together.
  unfoldable pub walk : ℕ → ℕ → Option Key → List A → List A
  walk zero limit cursor rows = []
  walk (suc f) limit cursor rows =
      follow (page key limit (keyset key cursor (limit + 1) rows)) (λ c. walk f limit c rows)

  abbrev below : Key → A → Bool
  below c x = key_lt (key x) c

  -- In a descending list what lies below the last item of a prefix is what follows the prefix.
  filter-below_last :
      (n : ℕ) (xs : List A) (l : A)
      → IsDescending key xs
      → get_last? (take (suc n) xs) ≡ some l
      → filter (below (key l)) xs ≡ drop (suc n) xs
  filter-below_last n [] l d e = cc
  filter-below_last zero (x ∷ xs) l d e =
      ground (arith, key_lt_irrefl (key x), filter_keeps (below (key x)) xs d.0)
  filter-below_last (suc n) (x ∷ []) l d e = ground (arith, key_lt_irrefl (key x))
  filter-below_last (suc n) (x ∷ y ∷ xs) l d e =
      let low : key_lt (key l) (key x) ≡ true =
        All-get_last? (λ z. key_lt (key z) (key x) ≡ true) (suc n) (y ∷ xs) d.0 e in
      let out : below (key l) x ≡ false = ground arith in
      rw out (filter-below_last n (y ∷ xs) l d.1 e)

  -- Below a key that the old cursor admits, the old cursor's condition says nothing more.
  filter_cursor :
      (cursor : Option Key) (c : Key) (xs : List A)
      → before_cursor cursor c ≡ true
      → filter (below c) (filter (λ x. before_cursor cursor (key x)) xs) ≡ filter (below c) xs
  filter_cursor none c xs h = ap (filter (below c)) (filter_keeps _ xs (All-intro _ xs (λ x. refl)))
  filter_cursor (some k) c xs h =
      filter-filter (below c) (λ x. key_lt (key x) k) xs
      ∙ filter_congr _ (below c) xs (All-intro _ xs (λ x. ground (arith, key_lt_trans (key x) c k)))

  filter-IsDescending :
      (p : A → Bool) (xs : List A) → IsDescending key xs → IsDescending key (filter p xs)
  filter-IsDescending p [] d = tt
  filter-IsDescending p (x ∷ xs) d = elim (Bool-cases (p x)) [
    | inl e ↦
        rw e
          (All-filter (λ y. key_lt (key y) (key x) ≡ true) p xs d.0, filter-IsDescending p xs d.1)
    | inr e ↦ rw e (filter-IsDescending p xs d.1)
  ]

  -- The last page, and a page that another follows.
  page_last :
      (limit : ℕ) (xs : List A)
      → length xs ≤ limit
      → page key limit (take (limit + 1) xs) ≡ (xs, none)
  unfolding page
  page_last limit xs h = rw (add-one limit) (
      rw (take-take-suc limit xs, take_all limit xs h, take_all (suc limit) xs (omega arith))
        (ground arith))

  page_more :
      (limit : ℕ) (xs : List A) (l : A)
      → limit < length xs
      → get_last? (take limit xs) ≡ some l
      → page key limit (take (limit + 1) xs) ≡ (take limit xs, some (key l))
  unfolding page
  page_more limit xs l h e =
      rw (add-one limit) (rw (take-take-suc limit xs, e, length-take (suc limit) xs) (ground arith))

  last_of_prefix :
      (m : ℕ) (xs : List A) → 0 < length xs → (l : A) × (get_last? (take (suc m) xs) ≡ some l)
  last_of_prefix m [] h = absurd (omega arith)
  last_of_prefix m (x ∷ xs) h = get_last?-some x (take m xs)

  module _ (rows : List A) where
    ordered : List A
    ordered = sort_by (comes_first key) rows

    -- What the cursor leaves of the ordered rows.
    left : Option Key → List A
    left cursor = filter (λ x. before_cursor cursor (key x)) (sort_by (comes_first key) rows)

    keyset-left : (cursor : Option Key) (n : ℕ) → keyset key cursor n rows ≡ take n (left cursor)
    unfolding keyset left
    keyset-left cursor n = ap (take n) (
        sym (
          filter-sort_by (comes_first key) (comes_first_total key) (comes_first_trans key)
            (λ x. before_cursor cursor (key x)) rows))

    module _ (d : Distinct key rows) where
      left-IsDescending : (cursor : Option Key) → IsDescending key (left cursor)
      unfolding left
      left-IsDescending cursor =
          filter-IsDescending (λ x. before_cursor cursor (key x)) (sort_by (comes_first key) rows)
            (sort_by-IsDescending key rows d)

      -- After the page that ends with `l` the rows are left that follow it.
      left-next :
          (cursor : Option Key) (m : ℕ) (l : A)
          → get_last? (take (suc m) (left cursor)) ≡ some l
          → left (some (key l)) ≡ drop (suc m) (left cursor)
      unfolding left
      left-next cursor m l e =
          sym (
            filter_cursor cursor (key l) (sort_by (comes_first key) rows) (
              All-get_last? (λ x. before_cursor cursor (key x) ≡ true) (suc m) (left cursor)
                (filter-All _ (sort_by (comes_first key) rows)) e))
          ∙ filter-below_last m (left cursor) l (left-IsDescending cursor) e

      walk-left :
          (f m : ℕ) (cursor : Option Key)
          → length (left cursor) < f
          → walk f (suc m) cursor rows ≡ left cursor
      unfolding walk
      walk-left zero m cursor h = absurd (omega arith)
      walk-left (suc f) m cursor h = elim (Bool-cases (ltb (suc m) (length (left cursor)))) [
        | inl more ↦
            let (l, e) = last_of_prefix m (left cursor) (ground arith) in
            let next = left-next cursor m l e in
            let fewer : length (left (some (key l))) < f = rw (next, length-drop) (ground arith) in
            rw
              (
                keyset-left cursor (suc m + 1),
                page_more (suc m) (left cursor) l (ground arith) e,
                walk-left f m (some (key l)) fewer,
                next,
              )
              (take-append-drop (suc m) (left cursor))
        | inr done ↦
            rw (keyset-left cursor (suc m + 1), page_last (suc m) (left cursor) (ground arith))
      ]

-- From no cursor, with a page limit of one or more, the pages of rows with distinct keys are
-- together all of the rows in the order of the query: none is repeated and none is lost.
pub walk-eq-sort_by :
    {A : Type 0} (key : A → Key) (rows : List A) (limit f : ℕ)
    → Distinct key rows
    → 0 < limit
    → length rows < f
    → walk key f limit none rows ≡ sort_by (comes_first key) rows
unfolding left
walk-eq-sort_by key rows zero f d pos enough = absurd (omega arith)
walk-eq-sort_by key rows (suc m) f d pos enough =
    let whole : left key rows none ≡ sort_by (comes_first key) rows =
      filter_keeps _ (sort_by (comes_first key) rows) (All-intro _ _ (λ x. refl)) in
    walk-left key rows d f m none (rw (whole, length-sort_by (comes_first key) rows) enough) ∙ whole
