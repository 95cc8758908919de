-- ===== src/Connections/Numbers.antt =====
-- The numbering of a connection's revisions: _NEXT_REVISION_NUMBER of
-- infrastructure/db/connection_repository.py, and what it makes of a table that only grows by it.
use bff.Prelude.{
  ℕ, zero, suc, ◌+◌, ◌≤◌, ◌≡◌, refl, ap, ◌∙◌, arith, List, [], ◌∷◌, ◌++◌, length, length-append,
  ltb, ◌==◌, if◌then◌else◌, Bool-cases, inl, inr,
}
use mathlib.Core.List.{append-nil}
use bff.Db.{Db, RevisionRow}
use bff.Connections.Repository.Queries.{max_number, next_revision_number}

-- The numbers of a connection's revisions, in the order of publication.
abbrev pub numbers : ℕ → List RevisionRow → List ℕ
numbers connection_id [] = []
numbers connection_id (r ∷ rs) =
    if r.connection_id == connection_id
    then r.revision_number ∷ numbers connection_id rs
    else numbers connection_id rs

-- 1, 2, ..., n
abbrev pub count_up : ℕ → List ℕ
count_up zero = []
count_up (suc n) = count_up n ++ suc n ∷ []

-- The numbers are 1, 2, ... without a gap or a repetition, for every connection.
abbrev pub IsNumbered : List RevisionRow → Type 0
IsNumbered rs = (i : ℕ) → numbers i rs ≡ count_up (length (numbers i rs))

max_of : List ℕ → ℕ
max_of [] = 0
max_of (n ∷ ns) = let rest = max_of ns in if ltb rest n then n else rest

max_number-numbers : (i : ℕ) (rs : List RevisionRow) → max_number i rs ≡ max_of (numbers i rs)
unfolding max_of
max_number-numbers i [] = refl
max_number-numbers i (r ∷ rs) = ground (arith, max_number-numbers i rs)

max_of-append : (ns : List ℕ) (m : ℕ) → max_of ns ≤ m → max_of (ns ++ m ∷ []) ≡ m
unfolding max_of
max_of-append [] m h = ground arith
max_of-append (n ∷ ns) m h = let rest = max_of-append ns m (ground arith) in ground arith

max_of-count_up : (n : ℕ) → max_of (count_up n) ≡ n
unfolding max_of
max_of-count_up zero = refl
max_of-count_up (suc n) = max_of-append (count_up n) (suc n) (rw (max_of-count_up n) (omega arith))

numbers-append :
    (i : ℕ) (rs ss : List RevisionRow) → numbers i (rs ++ ss) ≡ numbers i rs ++ numbers i ss
numbers-append i [] ss = refl
numbers-append i (r ∷ rs) ss = ground (arith, numbers-append i rs ss)

-- The next number extends the numbering.
next_number :
    (rs : List RevisionRow) (i : ℕ) → IsNumbered rs → max_number i rs ≡ length (numbers i rs)
next_number rs i h =
    max_number-numbers i rs ∙ ap max_of (h i) ∙ max_of-count_up (length (numbers i rs))

extend :
    (ns : List ℕ) (n : ℕ)
    → ns ≡ count_up (length ns)
    → n ≡ length ns + 1
    → ns ++ n ∷ [] ≡ count_up (length (ns ++ n ∷ []))
extend ns n h e =
    let longer : length (ns ++ n ∷ []) ≡ suc (length ns) =
      length-append ns (n ∷ []) ∙ omega arith in
    let last : n ≡ suc (length ns) = omega arith in
    rw (longer, last) (ap (λ xs. xs ++ suc (length ns) ∷ []) h)

pub append-IsNumbered :
    (db : Db) (r : RevisionRow)
    → IsNumbered db.revisions
    → r.revision_number ≡ next_revision_number r.connection_id db
    → IsNumbered (db.revisions ++ r ∷ [])
unfolding next_revision_number
append-IsNumbered db r h e i =
    rw (numbers-append i db.revisions (r ∷ [])) (elim (Bool-cases (r.connection_id == i)) [
      | inr other ↦ rw (other, append-nil (numbers i db.revisions)) (h i)
      | inl same ↦
          (let mine : r.connection_id ≡ i = ground arith in
            let n : r.revision_number ≡ length (numbers i db.revisions) + 1 =
              e ∙ rw mine (ap (λ m. m + 1) (next_number db.revisions i h)) in
            rw same (extend (numbers i db.revisions) r.revision_number (h i) n))
    ])
