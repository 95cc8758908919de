-- ===== src/Connections/Rows.antt =====
-- The row that a mutation of a Connection is about, and how the rows change: what the writing methods
-- of connection_repository.py rely on their WHERE clauses for.
use bff.Prelude.{
  ℕ, ◌≡◌, ap, ◌∙◌, arith, Bool, true, Option, none, some, List, [], ◌∷◌, ◌++◌, map, filter, All,
  filter-All, All-imp, if◌then◌else◌, Bool-cases, inl, inr,
}
use bff.Result.{ok, >>=_ok}
use bff.Db.{Db, ConnectionRow}
use bff.Connections.Models.{ConnectionMutationContext}
use bff.Connections.Values.{status_of, mode_of, status_value, mode_value, status_of-ok, mode_of-ok}
use bff.Connections.Repository.Queries.{
  mutation_context, mutation_context_from_row, workspace_context, is_connection, select_connection,
  one_or_none, or_raise,
}
use bff.Connections.Repository.Statements.{update_connection}

-- The row that `_mutation_context` has read.
pub record Target (user_id workspace_id connection_id : ℕ) (db : Db)
    (context : ConnectionMutationContext) : Type 0 where
  pub row : ConnectionRow
  pub selected : select_connection workspace_id connection_id db ≡ row ∷ []
  pub named : is_connection workspace_id connection_id row ≡ true
  pub workspace_read : workspace_context user_id workspace_id db ≡ ok context.workspace
  pub status_read : row.status ≡ status_value context.status
  pub mode_read : row.access_mode ≡ mode_value context.access_mode
  pub provider_read : context.provider_key ≡ row.provider_key

pub single : {A : Type 0} (xs : List A) (a : A) → one_or_none xs ≡ ok (some a) → xs ≡ a ∷ []
single [] a h = cc
single (x ∷ []) a h = cc
single (x ∷ y ∷ xs) a h = cc

pub raised : {A : Type 0} (e : _) (o : Option A) (a : A) → or_raise e o ≡ ok a → o ≡ some a
raised e none a h = cc
raised e (some b) a h = cc

-- The steps of `_mutation_context`, from its result.
pub mutation_context-Target :
    (u w i : ℕ) (db : Db) (context : ConnectionMutationContext)
    → mutation_context u w i db ≡ ok context
    → Target u w i db context
unfolding mutation_context mutation_context_from_row
mutation_context-Target u w i db context h =
    let (ws, (read_ws, h1)) = >>=_ok (workspace_context u w db) _ context h in
    let (found, (read_row, h2)) = >>=_ok (one_or_none (select_connection w i db)) _ context h1 in
    let (row, (is_found, h3)) = >>=_ok (or_raise _ found) _ context h2 in
    let (mode, (read_mode, h4)) = >>=_ok (mode_of row.access_mode) _ context h3 in
    let (status, (read_status, h5)) = >>=_ok (status_of row.status) _ context h4 in
    let is_some = raised _ found row is_found in
    let selected = single _ row (read_row ∙ ap ok is_some) in
    record {
      row = row;
      selected = selected;
      named = (rw selected at (filter-All (is_connection w i) db.connections)).0;
      workspace_read = cc;
      status_read = status_of-ok row.status status read_status ∙ cc;
      mode_read = mode_of-ok row.access_mode mode read_mode ∙ cc;
      provider_read = cc;
    }

filter_nil :
    {A : Type 0} (p : A → Bool) (y : A) (xs : List A)
    → filter p xs ≡ []
    → All (λ x. p x ≡ true → x ≡ y) xs
filter_nil p y [] h = tt
filter_nil p y (x ∷ xs) h = elim (Bool-cases (p x)) [
  | inl e ↦ (let no : (x ∷ filter p xs) ≡ [] = ground arith in cc)
  | inr e ↦ ((λ t. cc), filter_nil p y xs (ground arith))
]

-- What a filter has selected alone.
pub filter_single :
    {A : Type 0} (p : A → Bool) (xs : List A) (y : A)
    → filter p xs ≡ y ∷ []
    → All (λ x. p x ≡ true → x ≡ y) xs
filter_single p [] y h = tt
filter_single p (x ∷ xs) y h = elim (Bool-cases (p x)) [
  | inl e ↦
      (let both : (x ∷ filter p xs) ≡ y ∷ [] = ground arith in ((λ _. cc), filter_nil p y xs cc))
  | inr e ↦ ((λ t. cc), filter_single p xs y (ground arith))
]

-- The rows of `xs` are still there, at the same places, each changed at most by `R`, and the rows
-- after them are new.
abbrev pub Grows : {A : Type 0} → (A → A → Type 0) → (A → Type 0) → List A → List A → Type 0
Grows R New [] ys = All New ys
Grows R New (x ∷ xs) [] = ⊥
Grows R New (x ∷ xs) (y ∷ ys) = R x y × Grows R New xs ys

module _ {A : Type 0} (R : A → A → Type 0) (New : A → Type 0) where
  pub append-Grows : (xs ys : List A) → ((x : A) → R x x) → All New ys → Grows R New xs (xs ++ ys)
  append-Grows [] ys r h = h
  append-Grows (x ∷ xs) ys r h = (r x, append-Grows xs ys r h)

  pub refl-Grows : (xs : List A) → ((x : A) → R x x) → Grows R New xs xs
  refl-Grows [] r = tt
  refl-Grows (x ∷ xs) r = (r x, refl-Grows xs r)

  -- An UPDATE whose WHERE clause is `p`.
  pub update-Grows :
      (p : A → Bool) (f : A → A) (xs : List A)
      → ((x : A) → R x x)
      → All (λ x. p x ≡ true → R x (f x)) xs
      → Grows R New xs (map (λ x. if p x then f x else x) xs)
  update-Grows p f [] r h = tt
  update-Grows p f (x ∷ xs) r h = (
    (elim (Bool-cases (p x)) [ inl e ↦ rw e (h.0 e) | inr e ↦ rw e (r x) ]),
    update-Grows p f xs r h.1,
  )

  -- What holds of the rows holds of what they become, if `R` keeps it and new rows have it.
  pub Grows-All :
      (P Q : A → Type 0)
      → ((x y : A) → R x y → P x → Q y)
      → ((y : A) → New y → Q y)
      → (xs ys : List A) → Grows R New xs ys
      → All P xs
      → All Q ys
  Grows-All P Q keep new [] ys g h = All-imp New Q ys new g
  Grows-All P Q keep new (x ∷ xs) [] g h = absurd g
  Grows-All P Q keep new (x ∷ xs) (y ∷ ys) g h =
      (keep x y g.0 h.0, Grows-All P Q keep new xs ys g.1 h.1)

-- An UPDATE of the connection that a mutation has read.
pub update_connection-Grows :
    (R : ConnectionRow → ConnectionRow → Type 0) (New : ConnectionRow → Type 0)
    (f : ConnectionRow → ConnectionRow) (u w i : ℕ) (db : Db) (context : ConnectionMutationContext)
    (t : Target u w i db context)
    → ((c : ConnectionRow) → R c c)
    → R t.row (f t.row)
    → Grows R New db.connections (update_connection w i f db).connections
update_connection-Grows R New f u w i db context t r h =
    update-Grows R New (is_connection w i) f db.connections r (
      All-imp _ _ db.connections (λ c same e. rw (same e) h)
        (filter_single (is_connection w i) db.connections t.row t.selected))
