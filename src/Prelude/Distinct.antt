-- ===== src/Prelude/Distinct.antt =====
-- Lists without duplicates by a Boolean test.
use mathlib.Core.Path.{◌≡◌, refl, sym, subst, ◌∙◌}
use mathlib.Core.Logic.{inl, inr}
use mathlib.Core.Bool.{Bool, true, false}
use mathlib.Core.List.{Memᴰ as In, map, List, [], ◌∷◌, ◌++◌}
use native.Mathlib.Omega.{arith}
use bff.Prelude.Tests.{Bool-cases}
use bff.Prelude.Lists.{
  All, All-append, All-and, All-imp, All-In, All-filter, filter, filter-All, filter-none, any,
  any-append,
}

pub differ_bool : true ≡ false → ⊥
differ_bool h = cc

module _ {A : Type 0} (same : A → A → Bool) where
  -- No item is the same as a later one.
  abbrev pub DistinctBy : List A → Type 0
  DistinctBy [] = Unit {0}
  DistinctBy (x ∷ xs) = All (λ y. same x y ≡ false) xs × DistinctBy xs

  -- A new item may be added at the end.
  pub DistinctBy-append :
      (xs : List A) (x : A)
      → any (λ y. same y x) xs ≡ false
      → DistinctBy xs
      → DistinctBy (xs ++ x ∷ [])
  DistinctBy-append [] x new h = (tt, tt)
  DistinctBy-append (y ∷ ys) x new h =
      (All-append _ ys (x ∷ []) h.0 (ground arith, tt), DistinctBy-append ys x (ground arith) h.1)

pub map-All :
    {A B : Type 0} (P : B → Type 0) (f : A → B) (xs : List A)
    → All (λ x. P (f x)) xs
    → All P (map f xs)
map-All P f [] h = tt
map-All P f (x ∷ xs) h = (h.0, map-All P f xs h.1)

module _ {A : Type 0} where
  pub filter-In : (p : A → Bool) (xs : List A) → All (λ x. (p x ≡ true) × In x xs) (filter p xs)
  filter-In p xs =
      All-and (λ x. p x ≡ true) (λ x. In x xs) (filter p xs) (filter-All p xs)
        (All-filter (λ x. In x xs) p xs (All-In xs xs (λ x i. i)))

  pub All-lookup {κ} : (P : A → Type κ) (xs : List A) {x : A} → All P xs → In x xs → P x
  All-lookup P [] h i = elim i [ ]
  All-lookup P (y ∷ ys) h (In.head e) = subst P (sym e) h.0
  All-lookup P (y ∷ ys) h (In.tail i) = All-lookup P ys h.1 i

  -- A test that no two items pass finds one item at most.
  pub filter_unique :
      (same : A → A → Bool) (p : A → Bool)
      → ((y z : A) → p y ≡ true → p z ≡ true → same y z ≡ true)
      → (xs : List A) (x : A) → DistinctBy same xs
      → In x xs
      → p x ≡ true
      → filter p xs ≡ x ∷ []
  filter_unique same p one [] x d i h = elim i [ ]
  filter_unique same p one (y ∷ ys) x d (In.head e) h =
      let here : p y ≡ true = subst (λ z. p z ≡ true) e h in
      let others = filter-none p ys (
        All-imp _ _ ys
          (λ z apart. elim (Bool-cases (p z)) [
            | inl q ↦ absurd (differ_bool (sym (one y z here q) ∙ apart))
            | inr q ↦ q
          ])
          d.0) in
      rw (here, others, e) refl
  filter_unique same p one (y ∷ ys) x d (In.tail i) h = elim (Bool-cases (p y)) [
    | inl q ↦ absurd (differ_bool (sym (one y x q h) ∙ All-lookup _ ys d.0 i))
    | inr q ↦ rw q (filter_unique same p one ys x d.1 i h)
  ]

module _ {A : Type 0} (p : A → Bool) where
  -- What is found stays found.
  pub any-append_left : (xs ys : List A) → any p xs ≡ true → any p (xs ++ ys) ≡ true
  any-append_left xs ys h = rw (any-append p xs ys, h) refl

  pub any-append_last : (xs : List A) (x : A) → p x ≡ true → any p (xs ++ x ∷ []) ≡ true
  any-append_last [] x h = rw h refl
  any-append_last (y ∷ ys) x h = ground (arith, any-append_last ys x h)

  pub any_of_In : (xs : List A) {x : A} → In x xs → p x ≡ true → any p xs ≡ true
  any_of_In [] i h = elim i [ ]
  any_of_In (y ∷ ys) (In.head e) h = rw (subst (λ z. p z ≡ true) e h) refl
  any_of_In (y ∷ ys) (In.tail i) h = ground (arith, any_of_In ys i h)
