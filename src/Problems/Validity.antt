-- ===== src/Problems/Validity.antt =====
-- What `validate_problem_registry` accepts.
use bff.Prelude.{
  length-map, ◌≤◌, ◌==◌, ==_iff, Bool, true, false, not, ◌&&◌, any, List, [], ◌∷◌, map, length, All,
  In, DistinctBy, ◌≡◌, ◌↔◌, refl, sym, arith, Bool-cases, inl, inr, if◌then◌else◌, ◌∙◌, differ_bool,
}
use bff.Result.{Result, ok, err, runtime_error}
use bff.Text.{Text, text_eq, text_eq_iff}
use bff.Problems.Codes.{ProblemCode, problem_code_value}
use bff.Problems.Specs.{ProblemSpec}
use bff.Problems.Registry.{set_of, subset, validate_problem_registry}

length-set_of : (xs : List Text) → length (set_of xs) ≤ length xs
unfolding set_of
length-set_of [] = omega arith
length-set_of (x ∷ xs) = ground (arith, length-set_of xs)

any_iff : (x : Text) (xs : List Text) → (any (text_eq x) xs ≡ true) ↔ In x xs
any_iff x [] = (λ h. absurd cc, λ i. elim i [ ])
any_iff x (y ∷ ys) = (
  λ h. elim (Bool-cases (text_eq x y)) [
    | inl e ↦ In.head ((text_eq_iff x y).0 e)
    | inr e ↦ In.tail ((any_iff x ys).0 (rw e at h))
  ],
  λ i. elim i [
    | In.head e ↦ rw ((text_eq_iff x y).1 e) refl
    | In.tail j ↦ ground (arith, (any_iff x ys).1 j)
  ],
)

none_iff :
    (x : Text) (xs : List Text) → (any (text_eq x) xs ≡ false) ↔ All (λ y. text_eq x y ≡ false) xs
none_iff x [] = (λ h. tt, λ h. refl)
none_iff x (y ∷ ys) = ground (arith, none_iff x ys)

-- A set is as long as the list exactly when no item repeats.
set_of_iff : (xs : List Text) → (length (set_of xs) ≡ length xs) ↔ DistinctBy text_eq xs
unfolding set_of
set_of_iff [] = (λ h. tt, λ h. refl)
set_of_iff (x ∷ xs) = elim (Bool-cases (any (text_eq x) xs)) [
  | inl e ↦ rw e (
    λ h. absurd (omega (arith, h, length-set_of xs)),
    λ h. absurd (differ_bool (sym e ∙ (none_iff x xs).1 h.0)),
  )
  | inr e ↦ rw e (
    λ h. ((none_iff x xs).0 e, (set_of_iff xs).0 (omega arith)),
    λ h. (let same = (set_of_iff xs).1 h.1 in omega (arith, same)),
  )
]

subset_iff : (xs ys : List Text) → (subset xs ys ≡ true) ↔ ((x : Text) → In x xs → In x ys)
subset_iff [] ys = (λ h x i. elim i [ ], λ h. refl)
subset_iff (x ∷ xs) ys = elim (Bool-cases (any (text_eq x) ys)) [
  | inl e ↦ rw e (
    λ h y i. elim i [
      | In.head p ↦ rw p ((any_iff x ys).0 e)
      | In.tail j ↦ (subset_iff xs ys).0 h y j
    ],
    λ h. (subset_iff xs ys).1 (λ y j. h y (In.tail j)),
  )
  | inr e ↦ rw e (
    λ h. absurd (differ_bool (sym h)),
    λ h. absurd (differ_bool (sym ((any_iff x ys).1 (h x (In.head refl))) ∙ e)),
  )
]

both_iff :
    (a b c : Bool)
    → (◌≡◌ {A = Result (Unit {0})}
        (if not (a && b) then err runtime_error else if not c then err runtime_error else ok tt)
        (ok tt))
      ↔ ((a ≡ true) × ((b ≡ true) × (c ≡ true)))
both_iff true true true = (λ h. (refl, (refl, refl)), λ h. refl)
both_iff true true false = (λ h. absurd cc, λ h. absurd cc)
both_iff true false c = (λ h. absurd cc, λ h. absurd cc)
both_iff false b c = (λ h. absurd cc, λ h. absurd cc)

abbrev pub SameMembers : List Text → List Text → Type 0
SameMembers xs ys = (x : Text) → In x xs ↔ In x ys

-- `validate_problem_registry` accepts a registry exactly when the codes of its specs are the codes
-- that are its keys, and no two of its specs have the same type identifier.
pub validate_problem_registry_iff :
    (specs : List (ProblemCode × ProblemSpec))
    → (validate_problem_registry specs ≡ ok tt) ↔ (
        SameMembers
          (map (λ s. problem_code_value s.1.code) specs)
          (map (λ s. problem_code_value s.0) specs)
        × DistinctBy text_eq (map (λ s. s.1.type_uri) specs))
unfolding validate_problem_registry
validate_problem_registry_iff specs =
    let spec_codes = map (λ (s : ProblemCode × ProblemSpec). problem_code_value s.1.code) specs in
    let keys = map (λ (s : ProblemCode × ProblemSpec). problem_code_value s.0) specs in
    let uris = map (λ (s : ProblemCode × ProblemSpec). s.1.type_uri) specs in
    let tests =
      both_iff (subset spec_codes keys) (subset keys spec_codes)
        (length (set_of uris) == length specs) in
    let lengths : length uris ≡ length specs = length-map (λ s. s.1.type_uri) specs in
    let sizes = ==_iff (length (set_of uris)) (length specs) in
    (
      λ h.
          (let (a, (b, c)) = tests.0 h in
            (
              λ x. ((subset_iff spec_codes keys).0 a x, (subset_iff keys spec_codes).0 b x),
              (set_of_iff uris).0 (omega (arith, sizes.0 c, lengths)),
            )),
      λ h. tests.1 (
        (subset_iff spec_codes keys).1 (λ x. (h.0 x).0),
        (
          (subset_iff keys spec_codes).1 (λ x. (h.0 x).1),
          sizes.1 (omega (arith, (set_of_iff uris).1 h.1, lengths)),
        ),
      ),
    )
