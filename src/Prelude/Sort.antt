-- ===== src/Prelude/Sort.antt =====
-- Python's `sorted` and SQL's `ORDER BY` as a stable insertion sort over a Boolean order, and a
-- relation that says which list a sort returns.
use mathlib.Core.Path.{◌≡◌, refl}
use mathlib.Core.Bool.{Bool, true, false}
use mathlib.Core.List.{List, [], ◌∷◌, Perm}
use mathlib.Core.List.Perm
use bff.Prelude.Tests.{if◌then◌else◌, Bool-cases}
use native.Mathlib.Omega.{arith}
use Prim.Native.Nat.{suc}
use bff.Prelude.Lists.{length, filter, All-filter, All, All-imp}
use mathlib.Core.Logic.{inl, inr}

module _ {ℓ} {A : Type ℓ} (le : A → A → Bool) where
  abbrev pub insert_by : A → List A → List A
  insert_by a [] = a ∷ []
  insert_by a (x ∷ xs) = if le a x then a ∷ x ∷ xs else x ∷ insert_by a xs

  abbrev pub sort_by : List A → List A
  sort_by [] = []
  sort_by (x ∷ xs) = insert_by x (sort_by xs)

  -- Every item stands before all that follow it.
  abbrev pub IsSortedBy : List A → Type ℓ
  IsSortedBy [] = Unit
  IsSortedBy (x ∷ xs) = All (λ y. le x y ≡ true) xs × IsSortedBy xs

module _ {ℓ} {A : Type ℓ} (le : A → A → Bool) where
  insert_by-perm : (a : A) (xs : List A) → Perm (insert_by le a xs) (a ∷ xs)
  insert_by-perm a [] = Perm.refl (a ∷ [])
  insert_by-perm a (x ∷ xs) = elim (Bool-cases (le a x)) [
    | inl e ↦ rw e (Perm.refl (a ∷ x ∷ xs))
    | inr e ↦ rw e (Perm.trans (Perm.cons x (insert_by-perm a xs)) (Perm.swap a x xs))
  ]

  pub sort_by-perm : (xs : List A) → Perm (sort_by le xs) xs
  sort_by-perm [] = Perm.refl []
  sort_by-perm (x ∷ xs) =
      Perm.trans (insert_by-perm x (sort_by le xs)) (Perm.cons x (sort_by-perm xs))

  length-insert_by : (a : A) (xs : List A) → length (insert_by le a xs) ≡ suc (length xs)
  length-insert_by a [] = refl
  length-insert_by a (x ∷ xs) = ground (arith, length-insert_by a xs)

  pub length-sort_by : (xs : List A) → length (sort_by le xs) ≡ length xs
  length-sort_by [] = refl
  length-sort_by (x ∷ xs) = rw length-insert_by (rw (length-sort_by xs))

  -- Sorting a sorted list changes nothing.
  insert_by_head : (a : A) (xs : List A) → All (λ y. le a y ≡ true) xs → insert_by le a xs ≡ a ∷ xs
  insert_by_head a [] h = refl
  insert_by_head a (x ∷ xs) h = rw h.0

  pub sort_by_sorted : (xs : List A) → IsSortedBy le xs → sort_by le xs ≡ xs
  sort_by_sorted [] h = refl
  sort_by_sorted (x ∷ xs) h = rw (sort_by_sorted xs h.1, insert_by_head x xs h.0)

  module _ (total : (a b : A) → le a b ≡ false → le b a ≡ true)
      (trans : (a b c : A) → le a b ≡ true → le b c ≡ true → le a c ≡ true) where
    insert_by-All :
        (b a : A) (xs : List A)
        → le b a ≡ true
        → All (λ y. le b y ≡ true) xs
        → All (λ y. le b y ≡ true) (insert_by le a xs)
    insert_by-All b a [] h hs = (h, tt)
    insert_by-All b a (x ∷ xs) h hs = elim (Bool-cases (le a x)) [
      | inl e ↦ rw e (h, hs)
      | inr e ↦ rw e (hs.0, insert_by-All b a xs h hs.1)
    ]

    insert_by-IsSortedBy :
        (a : A) (xs : List A) → IsSortedBy le xs → IsSortedBy le (insert_by le a xs)
    insert_by-IsSortedBy a [] h = (tt, tt)
    insert_by-IsSortedBy a (x ∷ xs) h = elim (Bool-cases (le a x)) [
      | inl e ↦ rw e ((e, All-imp _ _ xs (λ y p. trans a x y e p) h.0), h)
      | inr e ↦ rw e (insert_by-All x a xs (total a x e) h.0, insert_by-IsSortedBy a xs h.1)
    ]

    pub sort_by-IsSortedBy : (xs : List A) → IsSortedBy le (sort_by le xs)
    sort_by-IsSortedBy [] = tt
    sort_by-IsSortedBy (x ∷ xs) = insert_by-IsSortedBy x (sort_by le xs) (sort_by-IsSortedBy xs)

-- Filtering what was sorted is sorting what was filtered.
module _ {ℓ} {A : Type ℓ} (le : A → A → Bool) (total : (a b : A) → le a b ≡ false → le b a ≡ true)
    (trans : (a b c : A) → le a b ≡ true → le b c ≡ true → le a c ≡ true) (p : A → Bool) where
  insert_by_first :
      (a x : A) (xs : List A)
      → le a x ≡ true
      → IsSortedBy le (x ∷ xs)
      → insert_by le a (filter p (x ∷ xs)) ≡ a ∷ filter p (x ∷ xs)
  insert_by_first a x xs e h =
      insert_by_head le a (filter p (x ∷ xs)) (
        All-filter (λ y. le a y ≡ true) p (x ∷ xs) (e, All-imp _ _ xs (λ y q. trans a x y e q) h.0))

  filter-insert_by :
      (a : A) (xs : List A)
      → IsSortedBy le xs
      → filter p (insert_by le a xs) ≡ (if p a then insert_by le a (filter p xs) else filter p xs)
  filter-insert_by a [] h = refl
  filter-insert_by a (x ∷ xs) h = elim (Bool-cases (le a x)) [
    | inl e ↦ rw e (rw (insert_by_first a x xs e h))
    | inr e ↦ ground (arith, filter-insert_by a xs h.1)
  ]

  pub filter-sort_by : (xs : List A) → filter p (sort_by le xs) ≡ sort_by le (filter p xs)
  filter-sort_by [] = refl
  filter-sort_by (x ∷ xs) =
      rw (filter-insert_by x (sort_by le xs) (sort_by-IsSortedBy le total trans xs))
        (ground (arith, filter-sort_by xs))

-- Sorting keeps what holds of every item.
module _ {A : Type 0} (le : A → A → Bool) (P : A → Type 0) where
  insert_by-keeps : (a : A) (xs : List A) → P a → All P xs → All P (insert_by le a xs)
  insert_by-keeps a [] h k = (h, tt)
  insert_by-keeps a (x ∷ xs) h k =
      elim (le a x) as (λ b. All P (if b then a ∷ x ∷ xs else x ∷ insert_by le a xs)) [
        | true ↦ (h, k)
        | false ↦ (k.0, insert_by-keeps a xs h k.1)
      ]

  pub sort_by-All : (xs : List A) → All P xs → All P (sort_by le xs)
  sort_by-All [] h = tt
  sort_by-All (x ∷ xs) h = insert_by-keeps x (sort_by le xs) h.0 (sort_by-All xs h.1)
