-- ===== src/Paging/Order.antt =====
-- The order of keys, and how filters and sorts by it interact.
use bff.Prelude.{
  ◌≡◌, sym, ◌≢◌, true, false, arith, List, [], ◌∷◌, insert_by, sort_by, sort_by-IsSortedBy,
  IsSortedBy, All, Bool-cases, inl, inr,
}
use bff.Paging.{Key, key_lt, comes_first}

pub key_lt_trans : (a b c : Key) → key_lt a b ≡ true → key_lt b c ≡ true → key_lt a c ≡ true
key_lt_trans a b c p q = ground arith

key_ge_trans : (a b c : Key) → key_lt a b ≡ false → key_lt b c ≡ false → key_lt a c ≡ false
key_ge_trans a b c p q = ground arith

pub key_lt_irrefl : (a : Key) → key_lt a a ≡ false
key_lt_irrefl a = ground arith

module _ {A : Type 0} (key : A → Key) where
  -- No two items share a key.
  abbrev pub Distinct : List A → Type 0
  Distinct [] = Unit
  Distinct (x ∷ xs) = All (λ y. key y ≢ key x) xs × Distinct xs

  -- Keys fall from item to item.
  abbrev pub IsDescending : List A → Type 0
  IsDescending [] = Unit
  IsDescending (x ∷ xs) = All (λ y. key_lt (key y) (key x) ≡ true) xs × IsDescending xs

  pub comes_first_total : (a b : A) → comes_first key a b ≡ false → comes_first key b a ≡ true
  comes_first_total a b h = ground arith

  pub comes_first_trans :
      (a b c : A)
      → comes_first key a b ≡ true
      → comes_first key b c ≡ true
      → comes_first key a c ≡ true
  comes_first_trans a b c p q = ground (arith, key_ge_trans (key a) (key b) (key c))

  insert_by-All :
      (P : A → Type 0) (a : A) (xs : List A)
      → P a
      → All P xs
      → All P (insert_by (comes_first key) a xs)
  insert_by-All P a [] h hs = (h, tt)
  insert_by-All P a (x ∷ xs) h hs = elim (Bool-cases (comes_first key a x)) [
    | inl e ↦ rw e (h, hs)
    | inr e ↦ rw e (hs.0, insert_by-All P a xs h hs.1)
  ]

  sort_by-All : (P : A → Type 0) (xs : List A) → All P xs → All P (sort_by (comes_first key) xs)
  sort_by-All P [] h = tt
  sort_by-All P (x ∷ xs) h =
      insert_by-All P x (sort_by (comes_first key) xs) h.0 (sort_by-All P xs h.1)

  insert_by-Distinct :
      (a : A) (xs : List A)
      → All (λ y. key y ≢ key a) xs
      → Distinct xs
      → Distinct (insert_by (comes_first key) a xs)
  insert_by-Distinct a [] h d = (tt, tt)
  insert_by-Distinct a (x ∷ xs) h d = elim (Bool-cases (comes_first key a x)) [
    | inl e ↦ rw e (h, d)
    | inr e ↦ rw e (
      insert_by-All (λ y. key y ≢ key x) a xs (λ p. h.0 (sym p)) d.0,
      insert_by-Distinct a xs h.1 d.1,
    )
  ]

  sort_by-Distinct : (xs : List A) → Distinct xs → Distinct (sort_by (comes_first key) xs)
  sort_by-Distinct [] d = tt
  sort_by-Distinct (x ∷ xs) d =
      insert_by-Distinct x (sort_by (comes_first key) xs) (sort_by-All (λ y. key y ≢ key x) xs d.0)
        (sort_by-Distinct xs d.1)

  key_ne : (a b : Key) → key_lt a b ≡ false → b ≢ a → key_lt b a ≡ true
  key_ne a b h n = ground arith

  falls_below :
      (x : A) (xs : List A)
      → All (λ y. comes_first key x y ≡ true) xs
      → All (λ y. key y ≢ key x) xs
      → All (λ y. key_lt (key y) (key x) ≡ true) xs
  falls_below x [] s d = tt
  falls_below x (y ∷ ys) s d = (key_ne (key x) (key y) (ground arith) d.0, falls_below x ys s.1 d.1)

  sorted-IsDescending :
      (xs : List A) → IsSortedBy (comes_first key) xs → Distinct xs → IsDescending xs
  sorted-IsDescending [] s d = tt
  sorted-IsDescending (x ∷ xs) s d = (falls_below x xs s.0 d.0, sorted-IsDescending xs s.1 d.1)

  -- Rows with distinct keys come out of ORDER BY strictly descending.
  pub sort_by-IsDescending :
      (xs : List A) → Distinct xs → IsDescending (sort_by (comes_first key) xs)
  sort_by-IsDescending xs d =
      sorted-IsDescending (sort_by (comes_first key) xs)
        (sort_by-IsSortedBy (comes_first key) comes_first_total comes_first_trans xs)
        (sort_by-Distinct xs d)
