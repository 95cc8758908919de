-- ===== src/Paging/Ordered.antt =====
-- The order of the rows that the list queries of infrastructure/db return: a keyset page is sorted, and
-- the outer ORDER BY leaves it as it is where there is one access.
use bff.Prelude.{
  ℕ, zero, suc, ◌≡◌, refl, true, Option, some, List, [], ◌∷◌, map, All, All-take, sort_by,
  sort_by_sorted, sort_by-IsSortedBy, IsSortedBy, take, filter,
}
use bff.Paging.{Key, before_cursor, comes_first, keyset}
use bff.Paging.Join.{left_join, nulls_last, present}
use bff.Paging.Order.{comes_first_total, comes_first_trans}

module _ {A : Type 0} (key : A → Key) where
  take-IsSortedBy :
      (n : ℕ) (xs : List A)
      → IsSortedBy (comes_first key) xs
      → IsSortedBy (comes_first key) (take n xs)
  take-IsSortedBy zero xs h = tt
  take-IsSortedBy (suc n) [] h = tt
  take-IsSortedBy (suc n) (x ∷ xs) h = (All-take _ n xs h.0, take-IsSortedBy n xs h.1)

  -- A page's rows are in the order of the query.
  pub keyset-IsSortedBy :
      (cursor : Option Key) (n : ℕ) (rows : List A)
      → IsSortedBy (comes_first key) (keyset key cursor n rows)
  unfolding keyset
  keyset-IsSortedBy cursor n rows = take-IsSortedBy n _ (
      sort_by-IsSortedBy (comes_first key) (comes_first_total key) (comes_first_trans key)
        (filter (λ x. before_cursor cursor (key x)) rows))

module _ {A B : Type 0} (key : A → Key) where
  beside-All :
      (b : B) (x : A) (ys : List A)
      → All (λ y. comes_first key x y ≡ true) ys
      → All (λ p. nulls_last key (b, some x) p ≡ true) (map (λ y. (b, some y)) ys)
  beside-All b x [] h = tt
  beside-All b x (y ∷ ys) h = (h.0, beside-All b x ys h.1)

  beside-IsSortedBy :
      (b : B) (xs : List A)
      → IsSortedBy (comes_first key) xs
      → IsSortedBy (nulls_last key) (map (λ y. (b, some y)) xs)
  beside-IsSortedBy b [] h = tt
  beside-IsSortedBy b (x ∷ xs) h = (beside-All b x xs h.0, beside-IsSortedBy b xs h.1)

  -- For one access the outer ORDER BY changes nothing.
  pub left_join_sorted :
      (b : B) (xs : List A)
      → IsSortedBy (comes_first key) xs
      → sort_by (nulls_last key) (left_join b xs) ≡ left_join b xs
  left_join_sorted b [] h = refl
  left_join_sorted b (x ∷ xs) h = sort_by_sorted (nulls_last key) _ (beside-IsSortedBy b (x ∷ xs) h)

  pub present-map : (b : B) (xs : List A) → present (map (λ y. (b, some y)) xs) ≡ xs
  present-map b [] = refl
  present-map b (x ∷ xs) = rw (present-map b xs)
