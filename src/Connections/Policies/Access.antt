-- ===== src/Connections/Policies/Access.antt =====
-- `normalize_access_policy` of domains/connections/policies.py: what it accepts and what it returns.
use bff.Prelude.{
  sort_by-All, ℕ, ◌≤◌, ◌<◌, ◌^◌, ◌≡◌, refl, sym, ap, ◌∙◌, arith, Bool, true, false, not, ◌&&◌, List,
  [], ◌∷◌, filter, filter_keeps, length, length-filter-le, ltb, leb, ◌==◌, sort_by, All, Bool-cases,
  inl, inr,
}
use mathlib.Core.List.{Perm}
use bff.Prelude.{IsSortedBy, sort_by-IsSortedBy, sort_by-perm}
use bff.Ids.{uuid_str}
use bff.Text.Order.{text_le_total, text_le_trans}
use bff.Connections.Policies.{is_workspace, is_nonempty}
use bff.Prelude.{sort_by_sorted, All-imp, All-and}
use bff.Ids.Order.{text_le-uuid_str}
use bff.Result.{guard_ok}
use bff.Result.{ok}
use bff.Connections.Models.{ConnectionAccessMode, workspace, ConnectionAccessPolicy}
use bff.Connections.Policies.{normalize_access_policy, from_keys, uuid_le, max_selected_projects}

-- No id stands twice.
abbrev pub AreDistinct : List ℕ → Type 0
AreDistinct [] = Unit
AreDistinct (x ∷ xs) = All (λ y. not (y == x) ≡ true) xs × AreDistinct xs

filter_full :
    (p : ℕ → Bool) (xs : List ℕ) → length (filter p xs) ≡ length xs → All (λ x. p x ≡ true) xs
filter_full p [] h = tt
filter_full p (x ∷ xs) h = elim (Bool-cases (p x)) [
  | inl e ↦ (e, filter_full p xs (ground arith))
  | inr e ↦ absurd (let fewer = length-filter-le p xs in ground arith)
]

length-from_keys : (xs : List ℕ) → length (from_keys xs) ≤ length xs
unfolding from_keys
length-from_keys [] = omega arith
length-from_keys (x ∷ xs) =
    omega (arith, length-filter-le (λ y. not (y == x)) (from_keys xs), length-from_keys xs)

-- Nothing is dropped only if nothing stands twice.
from_keys_full :
    (xs : List ℕ) → length (from_keys xs) ≡ length xs → (from_keys xs ≡ xs) × AreDistinct xs
unfolding from_keys
from_keys_full [] h = (refl, tt)
from_keys_full (x ∷ xs) h =
    let f1 = length-filter-le (λ y. not (y == x)) (from_keys xs) in
    let f2 = length-from_keys xs in
    let (same, distinct) = from_keys_full xs (omega arith) in
    let others : All (λ y. not (y == x) ≡ true) xs =
      rw same at (filter_full (λ y. not (y == x)) (from_keys xs) (omega arith)) in
    (rw (same, filter_keeps (λ y. not (y == x)) xs others) refl, (others, distinct))

-- The tests that an accepted policy has passed.
accepted :
    (mode : ConnectionAccessMode) (ids : List ℕ) (n : ConnectionAccessPolicy)
    → normalize_access_policy mode ids ≡ ok n
    → (n ≡ record { mode = mode; project_ids = sort_by uuid_le (from_keys ids) })
      × ((length (from_keys ids) ≡ length ids)
          × ((length (from_keys ids) ≤ max_selected_projects)
              × (mode ≡ workspace → from_keys ids ≡ [])))
unfolding normalize_access_policy
accepted mode ids n h =
    let u = from_keys ids in
    let (h1, k1) = guard_ok (not (length u == length ids)) _ _ n h in
    let (h2, k2) = guard_ok (ltb max_selected_projects (length u)) _ _ n k1 in
    let (h3, k3) = guard_ok (is_workspace mode && is_nonempty u) _ _ n k2 in
    (cc, (ground arith, (ground arith, λ w. none_selected mode u h3 w)))
  where
    none_selected :
        (m : ConnectionAccessMode) (u : List ℕ)
        → (is_workspace m && is_nonempty u) ≡ false
        → m ≡ workspace
        → u ≡ []
    none_selected m [] h w = refl
    none_selected m (x ∷ xs) h w = ground arith

sorted_uuids : (xs : List ℕ) → IsSortedBy uuid_le (sort_by uuid_le xs)
sorted_uuids =
    sort_by-IsSortedBy uuid_le (λ a b. text_le_total (uuid_str a) (uuid_str b))
      (λ a b c. text_le_trans (uuid_str a) (uuid_str b) (uuid_str c))

-- An id is the 128-bit value of a UUID.
abbrev pub AreUuids : List ℕ → Type 0
AreUuids xs = All (λ x. x < 16 ^ 32) xs

-- A policy whose ids are the given ones, none twice and few enough, in the order of the database,
-- and none in the mode that opens the connection to the whole Workspace.
pub record IsNormalized (mode : ConnectionAccessMode) (ids : List ℕ) (n : ConnectionAccessPolicy)
    : Type 0 where
  pub same_mode : n.mode ≡ mode
  pub same_ids : Perm n.project_ids ids
  pub distinct : AreDistinct ids
  pub bounded : length ids ≤ max_selected_projects
  pub by_text : IsSortedBy uuid_le n.project_ids
  pub whole : mode ≡ workspace → ids ≡ []

-- A policy that is accepted comes back normalized: the same mode, and the same ids in the order of
-- their texts; and it had no id twice, at most 1000 ids, and no ids in the WORKSPACE mode.
pub normalize_access_policy-IsNormalized :
    (mode : ConnectionAccessMode) (ids : List ℕ) (n : ConnectionAccessPolicy)
    → normalize_access_policy mode ids ≡ ok n
    → IsNormalized mode ids n
normalize_access_policy-IsNormalized mode ids n h =
    let (is, (full, (few, whole))) = accepted mode ids n h in
    let (same, distinct) = from_keys_full ids full in
    let listed : n.project_ids ≡ sort_by uuid_le ids =
      ap (λ (q : ConnectionAccessPolicy). q.project_ids) is ∙ ap (sort_by uuid_le) same in
    record {
      same_mode = ap (λ (q : ConnectionAccessPolicy). q.mode) is;
      same_ids = rw listed (sort_by-perm uuid_le ids);
      distinct = distinct;
      bounded = rw full at few;
      by_text = rw listed (sorted_uuids ids);
      whole = λ w. sym same ∙ whole w;
    }

-- UUIDs in the order of their texts are in the order of their values.
uuid_order : (xs : List ℕ) → AreUuids xs → IsSortedBy uuid_le xs → IsSortedBy leb xs
uuid_order [] h s = tt
uuid_order (x ∷ xs) h s = (
  All-imp _ _ xs (λ y both. sym (text_le-uuid_str x y h.0 both.0) ∙ both.1)
      (All-and _ _ xs h.1 s.0),
  uuid_order xs h.1 s.1,
)

-- The order that `sorted(..., key=str)` gives is the order of the database.
pub normalized_order :
    (mode : ConnectionAccessMode) (ids : List ℕ) (n : ConnectionAccessPolicy)
    → AreUuids ids
    → normalize_access_policy mode ids ≡ ok n
    → sort_by leb n.project_ids ≡ n.project_ids
normalized_order mode ids n h e =
    let (is, (full, _)) = accepted mode ids n e in
    let (same, _) = from_keys_full ids full in
    let listed : n.project_ids ≡ sort_by uuid_le ids =
      ap (λ (q : ConnectionAccessPolicy). q.project_ids) is ∙ ap (sort_by uuid_le) same in
    rw listed (
      sort_by_sorted leb (sort_by uuid_le ids)
        (uuid_order _ (sort_by-All uuid_le _ ids h) (sorted_uuids ids)))
