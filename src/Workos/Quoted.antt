-- ===== src/Workos/Quoted.antt =====
-- What `quote` writes.
use bff.Prelude.{
  All-append, ℕ, ◌<◌, ◌/◌, ◌%◌, ◌==◌, ltb, leb, true, ◌||◌, ◌&&◌, List, [], ◌∷◌, ◌≡◌, refl, All,
  arith, Bool-cases, inl, inr,
}
use mathlib.Core.Path.{subst}
use bff.Result.{guard_ok, Error, ok, >>=_ok, ok-injective}
use bff.Text.{Text}
use bff.Workos.Profiles.{quote, quote_bytes, quote_byte, utf8, is_unreserved, hex_upper}

abbrev pub IsText : Text → Type 0
IsText s = All (λ c. c < 0x110000) s

-- A character that neither ends a path's segment nor starts a query
abbrev pub IsSegment : Text → Type 0
IsSegment s = All (λ c. (is_unreserved c || c == b'%') ≡ true) s

IsByte : List ℕ → Type 0
IsByte bytes = All (λ b. b < 256) bytes

utf8-IsByte : (c : ℕ) → c < 0x110000 → IsByte (utf8 c)
unfolding IsByte
utf8-IsByte c h = elim (Bool-cases (ltb c 0x80)) [
  | inl e ↦ rw e (ground arith)
  | inr e ↦ elim (Bool-cases (ltb c 0x800)) [
    | inl q ↦ rw (e, q) (ground arith)
    | inr q ↦ elim (Bool-cases (ltb c 0x10000)) [
      | inl r ↦ rw (e, q, r) (ground arith)
      | inr r ↦ rw (e, q, r) (ground arith)
    ]
  ]
]

hex_upper-IsSegment : (d : ℕ) → d < 16 → (is_unreserved (hex_upper d) || hex_upper d == b'%') ≡ true
hex_upper-IsSegment d h = elim (Bool-cases (ltb d 10)) [
  | inl e ↦ rw e (ground arith)
  | inr e ↦ rw e (ground arith)
]

quote_byte-IsSegment : (b : ℕ) → b < 256 → IsSegment (quote_byte b)
quote_byte-IsSegment b h = elim (Bool-cases (is_unreserved b)) [
  | inl e ↦ rw e (rw e refl, tt)
  | inr e ↦ rw e (
    refl,
    (hex_upper-IsSegment (b / 16) (omega arith), (hex_upper-IsSegment (b % 16) (omega arith), tt)),
  )
]

quote_bytes-IsSegment : (bytes : List ℕ) → IsByte bytes → IsSegment (quote_bytes bytes)
unfolding quote_bytes IsByte
quote_bytes-IsSegment [] h = tt
quote_bytes-IsSegment (b ∷ bytes) h =
    All-append _ (quote_byte b) (quote_bytes bytes) (quote_byte-IsSegment b h.0)
      (quote_bytes-IsSegment bytes h.1)

-- Whatever the code points of a text, `quote` writes no character but unreserved ones and `%`.
pub quote-IsSegment : (s path : Text) → IsText s → quote s ≡ ok path → IsSegment path
unfolding quote
quote-IsSegment [] path h e = subst IsSegment (ok-injective e) tt
quote-IsSegment (c ∷ s) path h e =
    let (rest, (there, k)) = >>=_ok (quote s) _ path e in
    let (_, same) = guard_ok (leb 0xd800 c && leb c 0xdfff) Error.value_error _ path k in
    subst IsSegment (ok-injective same) (
      All-append _ (quote_bytes (utf8 c)) rest (quote_bytes-IsSegment (utf8 c) (utf8-IsByte c h.0))
        (quote-IsSegment s rest h.1 there))
