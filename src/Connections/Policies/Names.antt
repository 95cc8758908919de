-- ===== src/Connections/Policies/Names.antt =====
-- `normalize_connection_name` of domains/connections/policies.py: which names it accepts, and what
-- they become.
use bff.Prelude.{◌<◌, ◌≤◌, ◌≡◌, refl, sym, ap, ◌∙◌, arith, false, [], ◌∷◌, length, ltb}
use bff.Result.{ok, guard_ok}
use bff.Text.{Text, is_space}
use bff.Text.Strip.{strip, strip-strip}
use bff.Connections.Policies.{normalize_connection_name, max_connection_name_length, is_empty}

-- A name as it is stored.
pub record IsName (s : Text) : Type 0 where
  pub trimmed : strip is_space s ≡ s
  pub nonempty : 0 < length s
  pub short : length s ≤ max_connection_name_length

accepted :
    (s n : Text)
    → normalize_connection_name s ≡ ok n
    → (n ≡ strip is_space s)
      × ((is_empty n ≡ false) × (ltb max_connection_name_length (length n) ≡ false))
unfolding normalize_connection_name
accepted s n h =
    let (h1, k1) = guard_ok (is_empty (strip is_space s)) _ _ n h in
    let (h2, k2) = guard_ok (ltb max_connection_name_length (length (strip is_space s))) _ _ n k1 in
    let same : n ≡ strip is_space s = cc in (same, (rw same h1, rw same h2))

nonempty_length : (n : Text) → is_empty n ≡ false → 0 < length n
nonempty_length [] h = absurd cc
nonempty_length (c ∷ n) h = omega arith

-- A name that is accepted comes back without white space at its ends, with 1 to 120 characters, and
-- is accepted again unchanged.
pub normalize_connection_name-IsName :
    (s n : Text)
    → normalize_connection_name s ≡ ok n
    → IsName n × (normalize_connection_name n ≡ ok n)
unfolding normalize_connection_name
normalize_connection_name-IsName s n h =
    let (same, (h1, h2)) = accepted s n h in
    let trimmed : strip is_space n ≡ n =
      ap (strip is_space) same ∙ strip-strip is_space s ∙ sym same in
    (
      record { trimmed = trimmed; nonempty = nonempty_length n h1; short = ground arith },
      rw (trimmed, h1, h2) refl,
    )
