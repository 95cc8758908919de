-- ===== src/Problems/Pointer.antt =====
-- `_validation_pointer` of api/problems/handlers.py, and a reader that takes a pointer apart.
use bff.Prelude.{
  ℤ, ap, sym, ℕ, List, [], ◌∷◌, ◌++◌, map, Option, none, some, Bool, true, false, ◌||◌, ◌==◌,
  if◌then◌else◌, ◌≡◌, refl, ◌∙◌, arith,
}
use mathlib.Core.Option
use mathlib.Core.List.{append_assoc, append-nil}
use bff.Text.{Text}
use bff.Json.Dumps.{number}

-- `value.replace(c, new)` for one code point `c`
unfoldable pub replace : ℕ → Text → Text → Text
replace c new [] = []
replace c new (d ∷ s) = if d == c then new ++ replace c new s else d ∷ replace c new s

-- `sep.join(values)`
unfoldable pub join : Text → List Text → Text
join sep [] = []
join sep (s ∷ []) = s
join sep (s ∷ t ∷ r) = s ++ (sep ++ join sep (t ∷ r))

-- An item of `escaped`
unfoldable pub escape_part : Text → Text
escape_part s = replace b'/' (b'~' ∷ b'1' ∷ []) (replace b'~' (b'~' ∷ b'0' ∷ []) s)

-- A part of a location, of type `str | int`
pub data Part : Type 0 where
  name : Text → Part
  index : ℤ → Part

-- `str(part)`
unfoldable pub part_text : Part → Text
unfolding number
part_text (name s) = s
part_text (index n) = number n

unfoldable pub validation_pointer : List Part → Text
validation_pointer location =
    b'#' ∷ b'/' ∷ join (b'/' ∷ []) (map (λ part. escape_part (part_text part)) location)

-- A reader of the part `part`, after a `~` if `tilde` says so: `~1` stands for `/`, `~0` for `~`.
unfoldable pub read_parts : Bool → Text → Text → Option (List Text)
read_parts true part [] = none
read_parts false part [] = some (part ∷ [])
read_parts true part (c ∷ s) =
    let rest = read_parts false (part ++ (if c == b'0' then b'~' else b'/') ∷ []) s in
    if c == b'0' || c == b'1' then rest else none
read_parts false part (c ∷ s) =
    let next = if c == b'/' then [] else if c == b'~' then part else part ++ c ∷ [] in
    let rest = read_parts (c == b'~') next s in
    if c == b'/' then Option.map (λ parts. part ∷ parts) rest else rest

-- The parts of a pointer that begins with `#/`.
unfoldable pub parse_pointer : Text → Option (List Text)
parse_pointer (c ∷ d ∷ s) =
    if c == b'#' then if d == b'/' then read_parts false [] s else none else none
parse_pointer _ = none

abbrev escape_char : ℕ → Text
escape_char c =
    if c == b'~' then b'~' ∷ b'0' ∷ [] else if c == b'/' then b'~' ∷ b'1' ∷ [] else c ∷ []

escape_part_cons : (c : ℕ) (s : Text) → escape_part (c ∷ s) ≡ escape_char c ++ escape_part s
unfolding escape_part replace
escape_part_cons c s = ground arith

read_parts-escape_char :
    (c : ℕ) (part rest : Text)
    → read_parts false part (escape_char c ++ rest) ≡ read_parts false (part ++ c ∷ []) rest
unfolding read_parts
read_parts-escape_char c part rest = ground arith

-- An escaped part is read whole.
read_parts-escape_part :
    (s part rest : Text)
    → read_parts false part (escape_part s ++ rest) ≡ read_parts false (part ++ s) rest
unfolding escape_part replace
read_parts-escape_part [] part rest = rw append-nil refl
read_parts-escape_part (c ∷ s) part rest =
    rw (escape_part_cons c s, append_assoc, read_parts-escape_char c part)
      (rw append_assoc at (read_parts-escape_part s (part ++ c ∷ []) rest))

read_parts-join :
    (s : Part) (r : List Part) (part : Text)
    → read_parts false part (join (b'/' ∷ []) (map (λ part. escape_part (part_text part)) (s ∷ r)))
      ≡ some ((part ++ part_text s) ∷ map part_text r)
unfolding read_parts join
read_parts-join s [] part =
    ap (read_parts false part) (sym (append-nil (escape_part (part_text s))))
    ∙ read_parts-escape_part (part_text s) part []
read_parts-join s (t ∷ r) part =
    rw (read_parts-escape_part (part_text s) part)
      (ap (Option.map (λ (l : List Text). (part ++ part_text s) ∷ l)) (read_parts-join t r []))

-- The pointer to a location with at least one part is read back as the texts of its parts, whatever
-- characters they have.
pub parse_pointer-validation_pointer :
    (part : Part) (location : List Part)
    → parse_pointer (validation_pointer (part ∷ location))
      ≡ some (part_text part ∷ map part_text location)
unfolding parse_pointer validation_pointer
parse_pointer-validation_pointer part location = read_parts-join part location []
