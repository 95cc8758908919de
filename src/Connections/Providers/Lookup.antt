-- ===== src/Connections/Providers/Lookup.antt =====
-- The registry of domains/connections/providers.py as a dictionary of the providers it is built from.
use bff.Prelude.{
  suc, ◌+◌, ◌≤◌, ◌≡◌, refl, sym, ap, ◌∙◌, arith, true, false, not, none, some, Option-cases, List,
  [], ◌∷◌, length, In, Bool-cases, inl, inr, ◌==◌,
}
use bff.Result.{ok, guard_ok}
use bff.Text.{Text, text_eq, text_eq_iff}
use bff.Connections.Providers.{
  ConnectionProvider, ConnectionProviderRegistry, put, get, mapped, registry, require,
}

abbrev Entries : Type 0
Entries = List (Text × ConnectionProvider)

text_eq_refl : (k : Text) → text_eq k k ≡ true
text_eq_refl k = (text_eq_iff k k).1 refl

put_new :
    (k : Text) (p : ConnectionProvider) (m : Entries)
    → get k m ≡ none
    → length (put k p m) ≡ suc (length m)
put_new k p [] h = refl
put_new k p ((j, q) ∷ m) h = elim (Bool-cases (text_eq j k)) [
  | inl e ↦ absurd (let found : some q ≡ none = rw e at h in cc)
  | inr e ↦ rw e (ap suc (put_new k p m (rw e at h)))
]

put_old :
    (k : Text) (p q : ConnectionProvider) (m : Entries)
    → get k m ≡ some q
    → length (put k p m) ≡ length m
put_old k p q [] h = cc
put_old k p q ((j, r) ∷ m) h = elim (Bool-cases (text_eq j k)) [
  | inl e ↦ rw e refl
  | inr e ↦ rw e (ap suc (put_old k p q m (rw e at h)))
]

get-put : (k : Text) (p : ConnectionProvider) (m : Entries) → get k (put k p m) ≡ some p
get-put k p [] = rw (text_eq_refl k) refl
get-put k p ((j, q) ∷ m) = elim (Bool-cases (text_eq j k)) [
  | inl e ↦ rw (e, e) refl
  | inr e ↦ rw (e, e) (get-put k p m)
]

get-put_other :
    (j k : Text) (p : ConnectionProvider) (m : Entries)
    → text_eq j k ≡ false
    → get k (put j p m) ≡ get k m
get-put_other j k p [] h = rw h refl
get-put_other j k p ((i, q) ∷ m) h = elim (Bool-cases (text_eq i j)) [
  | inl e ↦ (let same : i ≡ j = (text_eq_iff i j).0 e in rw (e, same, h) refl)
  | inr e ↦ rw (e, get-put_other j k p m h) refl
]

length-put : (k : Text) (p : ConnectionProvider) (m : Entries) → length (put k p m) ≤ suc (length m)
length-put k p m = elim (Option-cases (get k m)) [
  | inl e ↦ omega (arith, put_new k p m e)
  | inr (q, e) ↦ omega (arith, put_old k p q m e)
]

length-mapped :
    (ps : List ConnectionProvider) (m : Entries) → length (mapped ps m) ≤ length m + length ps
unfolding mapped
length-mapped [] m = omega arith
length-mapped (p ∷ ps) m = omega (arith, length-mapped ps (put p.key p m), length-put p.key p m)

-- If no key is put twice, the first provider's key is new.
first_new :
    (p : ConnectionProvider) (ps : List ConnectionProvider) (m : Entries)
    → length (mapped (p ∷ ps) m) ≡ length m + suc (length ps)
    → get p.key m ≡ none
unfolding mapped
first_new p ps m h = elim (Option-cases (get p.key m)) [
  | inl e ↦ e
  | inr (q, e) ↦ absurd (omega (arith, put_old p.key p q m e, length-mapped ps (put p.key p m)))
]

rest_new :
    (p : ConnectionProvider) (ps : List ConnectionProvider) (m : Entries)
    → length (mapped (p ∷ ps) m) ≡ length m + suc (length ps)
    → length (mapped ps (put p.key p m)) ≡ length (put p.key p m) + length ps
unfolding mapped
rest_new p ps m h = omega (arith, put_new p.key p m (first_new p ps m h))

kept :
    (ps : List ConnectionProvider) (m : Entries) (k : Text) (q : ConnectionProvider)
    → length (mapped ps m) ≡ length m + length ps
    → get k m ≡ some q
    → get k (mapped ps m) ≡ some q
unfolding mapped
kept [] m k q h e = e
kept (p ∷ ps) m k q h e =
    kept ps (put p.key p m) k q (rest_new p ps m h) (elim (Bool-cases (text_eq p.key k)) [
      | inl same ↦
          (let key : p.key ≡ k = (text_eq_iff p.key k).0 same in
            let fresh : get k m ≡ none = rw key at (first_new p ps m h) in
            absurd (let clash : some q ≡ none = sym e ∙ fresh in cc))
      | inr other ↦ get-put_other p.key k p m other ∙ e
    ])

looked_up :
    (ps : List ConnectionProvider) (m : Entries) (p : ConnectionProvider)
    → length (mapped ps m) ≡ length m + length ps
    → In p ps
    → get p.key (mapped ps m) ≡ some p
unfolding mapped
looked_up [] m p h i = elim i [ ]
looked_up (q ∷ ps) m p h (In.head e) =
    kept ps (put q.key q m) p.key p (rest_new q ps m h) (rw e (get-put q.key q m))
looked_up (q ∷ ps) m p h (In.tail i) = looked_up ps (put q.key q m) p (rest_new q ps m h) i

-- In a registry that is built from providers without an exception, each of them is the one that is
-- required by its key.
pub registry-require :
    (ps : List ConnectionProvider) (r : ConnectionProviderRegistry) (p : ConnectionProvider)
    → registry ps ≡ ok r
    → In p ps
    → require r p.key ≡ ok p
unfolding registry require
registry-require ps r p h i =
    let (full, is) = guard_ok (not (length (mapped ps []) == length ps)) _ _ r h in
    let same : length (mapped ps []) ≡ length ps = ground arith in
    let found = looked_up ps [] p (same ∙ omega arith) i in
    let built : record { providers = mapped ps [] } ≡ r = cc in
    ap (λ x. require x p.key) (sym built) ∙ rw (require, found) refl
