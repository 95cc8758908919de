-- ===== src/Json/Dumps.antt =====
-- `json.dumps(value, ensure_ascii=False, separators=(",", ":"), sort_keys=True)` and `.encode()`.
use bff.Prelude.{
  ℕ, zero, suc, ◌+◌, ◌/◌, ◌%◌, ℤ, pos, negsuc, true, false, List, [], ◌∷◌, ◌++◌, map, ltb, ◌==◌,
  if◌then◌else◌, sort_by,
}
use bff.Text.{Text, codes, text_le}
use bff.Ids.{hex}
use bff.Json.{Json, null, bool, int, str, arr, obj, Items, nil, cons, Fields, end, field}

-- An escaped code point of a string.
escape : ℕ → Text
escape c =
    if c == b'"'
    then 92 ∷ b'"' ∷ []
    else if c == 92
    then 92 ∷ 92 ∷ []
    else if c == 10
    then 92 ∷ b'n' ∷ []
    else if c == 13
    then 92 ∷ b'r' ∷ []
    else if c == 9
    then 92 ∷ b't' ∷ []
    else if c == 12
    then 92 ∷ b'f' ∷ []
    else if c == 8
    then 92 ∷ b'b' ∷ []
    else if ltb c 32
    then 92 ∷ b'u' ∷ b'0' ∷ b'0' ∷ hex (c / 16) ∷ hex (c % 16) ∷ []
    else c ∷ []

escaped : Text → Text
unfolding escape
escaped [] = []
escaped (c ∷ s) = escape c ++ escaped s

quoted : Text → Text
unfolding escaped
quoted s = b'"' ∷ (escaped s ++ b'"' ∷ [])

-- The decimal digits of `n`, before `rest`; `n + 1` rounds are enough.
decimal : ℕ → ℕ → Text → Text
decimal zero n rest = rest
decimal (suc f) n rest =
    let more = decimal f (n / 10) ((b'0' + n % 10) ∷ rest) in
    if ltb n 10 then (b'0' + n) ∷ rest else more

unfoldable pub number : ℤ → Text
unfolding decimal
number (pos n) = decimal (n + 1) n []
number (negsuc n) = b'-' ∷ decimal (n + 2) (n + 1) []

joined : List Text → Text
joined [] = []
joined (s ∷ []) = s
joined (s ∷ t ∷ r) = s ++ b',' ∷ joined (t ∷ r)

by_key : List (Text × Text) → List (Text × Text)
unfolding text_le
by_key = sort_by (λ p q. text_le p.0 q.0)

members : List (Text × Text) → Text
unfolding by_key joined quoted
members ps = b'{' ∷ (joined (map (λ p. quoted p.0 ++ b':' ∷ p.1) (by_key ps)) ++ b'}' ∷ [])

unfoldable mutual
  unfolding quoted number joined members

  pub dumps : Json → Text
  dumps null = codes "null"
  dumps (bool true) = codes "true"
  dumps (bool false) = codes "false"
  dumps (int z) = number z
  dumps (str s) = quoted s
  dumps (arr xs) = b'[' ∷ (joined (dumps_items xs) ++ b']' ∷ [])
  dumps (obj fs) = members (dumps_fields fs)

  pub dumps_items : Items → List Text
  dumps_items nil = []
  dumps_items (cons x xs) = dumps x ∷ dumps_items xs

  pub dumps_fields : Fields → List (Text × Text)
  dumps_fields end = []
  dumps_fields (field k v fs) = (k, dumps v) ∷ dumps_fields fs

-- A code point in UTF-8.
encode_char : ℕ → List ℕ
encode_char c =
    if ltb c 0x80
    then c ∷ []
    else if ltb c 0x800
    then (0xc0 + c / 64) ∷ (0x80 + c % 64) ∷ []
    else if ltb c 0x10000
    then (0xe0 + c / 4096) ∷ (0x80 + c / 64 % 64) ∷ (0x80 + c % 64) ∷ []
    else (0xf0 + c / 262144) ∷ (0x80 + c / 4096 % 64) ∷ (0x80 + c / 64 % 64) ∷ (0x80 + c % 64) ∷ []

unfoldable pub encode : Text → List ℕ
unfolding encode_char
encode [] = []
encode (c ∷ s) = encode_char c ++ encode s
