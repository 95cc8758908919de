-- ===== src/Tests/Orders.antt =====
-- The theorems on pages, applied to small lists.
use bff.Prelude.{ap, false, ◌==◌, ◌≢◌, ◌≡◌, refl, none, List, [], ◌∷◌, arith, sort_by}
use bff.Paging.{Key, comes_first}
use bff.Paging.Order.{Distinct}
use bff.Paging.Walk.{walk, walk-eq-sort_by}

abbrev same_key : Key → Key
same_key k = k

abbrev three : List Key
three =
    record { created_at = 5; id = 1 }
    ∷ record { created_at = 9; id = 2 }
    ∷ record { created_at = 5; id = 3 }
    ∷ []

apart : (a b : Key) → (a.id == b.id) ≡ false → a ≢ b
apart a b h e = let same : a.id ≡ b.id = ap (λ (k : Key). k.id) e in absurd (ground arith)

three-Distinct : Distinct same_key three
three-Distinct = ((apart _ _ refl, (apart _ _ refl, tt)), ((apart _ _ refl, tt), (tt, tt)))

walk-eq-sort_by_example : walk same_key 4 2 none three ≡ sort_by (comes_first same_key) three
walk-eq-sort_by_example =
    walk-eq-sort_by same_key three 2 4 three-Distinct (omega arith) (omega arith)
