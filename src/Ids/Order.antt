-- ===== src/Ids/Order.antt =====
-- The texts of two UUIDs stand in the order of their values.
use bff.Prelude.{
  ℕ, zero, suc, ◌+◌, ◌*◌, ◌/◌, ◌%◌, ◌^◌, ◌<◌, [], ◌∷◌, ◌++◌, leb, ltb, ◌==◌, ◌&&◌, if◌then◌else◌,
  arith, ◌≡◌, sym, Bool, true, ap, ◌∙◌, inl, inr, ◌⊎◌,
}
use mathlib.Core.Path.{subst}
use mathlib.Core.List.{append-nil}
use native.Mathlib.Nat.{
  mul-le-mul_right, mul-add-mod_self_left, mod-eq_of_lt, mod-lt, div-add-mod, pow-suc, mod-one,
}
use bff.Text.{Text, text_le}
use bff.Ids.{hex_digits, uuid_str, hex}

lt_cases : (d e : ℕ) → (d < e) ⊎ ((d ≡ e) ⊎ (e < d))
lt_cases d e = omega arith

-- Digits compare as their values do, and leave the rest of the text to decide a tie.
hex-text_le :
    (d e : ℕ) (s t : Text)
    → d < 16
    → e < 16
    → text_le (hex d ∷ s) (hex e ∷ t) ≡ (if ltb d e then true else d == e && text_le s t)
unfolding text_le
hex-text_le d e s t p q = ground arith

-- `d * p + r` and `e * p + s` with remainders below `p` compare by `d` and `e`, then by `r` and `s`.
module _ (d e r s p : ℕ) (hr : r < p) (hs : s < p) where
  apart : d < e → d * p + r < e * p + s
  apart h = omega (arith, mul-le-mul_right {m = suc d} {n = e} p h)

  mixed_radix_lt : ltb (d * p + r) (e * p + s) ≡ (if ltb d e then true else d == e && ltb r s)
  mixed_radix_lt = elim (lt_cases d e) [
    | inl h ↦ ground (arith, apart h)
    | inr (inl h) ↦ ground (arith, ap (λ (x : ℕ). x * p) h)
    | inr (inr h) ↦ ground (arith, mul-le-mul_right {m = suc e} {n = d} p h)
  ]

  mixed_radix_eq : (d * p + r == e * p + s) ≡ (d == e && r == s)
  mixed_radix_eq = elim (lt_cases d e) [
    | inl h ↦ ground (arith, apart h)
    | inr (inl h) ↦ ground (arith, ap (λ (x : ℕ). x * p) h)
    | inr (inr h) ↦ ground (arith, mul-le-mul_right {m = suc e} {n = d} p h)
  ]

split_mod : (a q p : ℕ) → 0 < q → 0 < p → a % (q * p) ≡ a / p % q * p + a % p
split_mod a q p hq hp =
    let u = a / p in
    let rest = u % q * p + a % p in
    let below : rest < q * p =
      omega (arith, mul-le-mul_right {m = suc (u % q)} {n = q} p (mod-lt u hq), mod-lt a hp) in
    let whole : a ≡ q * p * (u / q) + rest =
      omega (arith, div-add-mod a p, ap (λ (x : ℕ). x * p) (div-add-mod u q)) in
    ap (λ (x : ℕ). x % (q * p)) whole
    ∙ mul-add-mod_self_left (q * p) (u / q) rest
    ∙ mod-eq_of_lt below

pow_pos : (k : ℕ) → 0 < 16 ^ k
pow_pos zero = omega arith
pow_pos (suc k) = rw pow-suc (omega (arith, pow_pos k))

pow-suc' : (k : ℕ) → 16 ^ suc k ≡ 16 * 16 ^ k
pow-suc' k = rw pow-suc (omega arith)

-- How two texts compare whose first parts show `a` and `b`.
abbrev lexico : ℕ → ℕ → Bool → Bool
lexico a b rest = if ltb a b then true else a == b && rest

lexico-split :
    (a b q p : ℕ) (rest : Bool)
    → 0 < q
    → 0 < p
    → lexico (a % (q * p)) (b % (q * p)) rest
      ≡ lexico (a / p % q) (b / p % q) (lexico (a % p) (b % p) rest)
lexico-split a b q p rest hq hp =
    rw (split_mod a q p hq hp, split_mod b q p hq hp)
      (rw
        (
          mixed_radix_lt (a / p % q) (b / p % q) (a % p) (b % p) p (mod-lt a hp) (mod-lt b hp),
          mixed_radix_eq (a / p % q) (b / p % q) (a % p) (b % p) p (mod-lt a hp) (mod-lt b hp),
        )
        (ground arith))

hex_digits-text_le :
    (k a b : ℕ) (s t : Text)
    → text_le (hex_digits k a ++ s) (hex_digits k b ++ t)
      ≡ lexico (a % 16 ^ k) (b % 16 ^ k) (text_le s t)
unfolding hex_digits
hex_digits-text_le zero a b s t = ground (arith, mod-one a, mod-one b)
hex_digits-text_le (suc k) a b s t =
    hex-text_le (a / 16 ^ k % 16) (b / 16 ^ k % 16) (hex_digits k a ++ s) (hex_digits k b ++ t)
      (omega arith) (omega arith)
    ∙ ap (lexico (a / 16 ^ k % 16) (b / 16 ^ k % 16)) (hex_digits-text_le k a b s t)
    ∙ sym (
        subst
          (λ m.
            lexico (a % m) (b % m) (text_le s t)
            ≡ lexico (a / 16 ^ k % 16) (b / 16 ^ k % 16)
                (lexico (a % 16 ^ k) (b % 16 ^ k) (text_le s t)))
          (sym (pow-suc' k)) (lexico-split a b 16 (16 ^ k) (text_le s t) (omega arith) (pow_pos k)))

-- A group of `k` digits before a dash.
group-text_le :
    (k a b : ℕ) (s t : Text)
    → text_le (hex_digits k a ++ b'-' ∷ s) (hex_digits k b ++ b'-' ∷ t)
      ≡ lexico (a % 16 ^ k) (b % 16 ^ k) (text_le s t)
unfolding text_le
group-text_le k a b s t = hex_digits-text_le k a b (b'-' ∷ s) (b'-' ∷ t)

last-text_le :
    (a b : ℕ)
    → text_le (hex_digits 12 a) (hex_digits 12 b) ≡ lexico (a % 16 ^ 12) (b % 16 ^ 12) true
unfolding text_le
last-text_le a b =
    rw (append-nil (hex_digits 12 a), append-nil (hex_digits 12 b)) at
      (hex_digits-text_le 12 a b [] [])

-- The groups of `str(uuid)` put together again, from the right.
groups : (a b : ℕ) → text_le (uuid_str a) (uuid_str b) ≡ lexico (a % 16 ^ 32) (b % 16 ^ 32) true
unfolding uuid_str
groups a b =
    rw (group-text_le, group-text_le, group-text_le, group-text_le, last-text_le)
      (rw (
        ← lexico-split a b (16 ^ 4) (16 ^ 12) true (omega arith) (omega arith),
        ← lexico-split a b (16 ^ 4) (16 ^ 16) true (omega arith) (omega arith),
        ← lexico-split a b (16 ^ 4) (16 ^ 20) true (omega arith) (omega arith),
        ← lexico-split a b (16 ^ 8) (16 ^ 24) true (omega arith) (omega arith),
      ))

-- `str` keeps the order of UUIDs: comparing their texts compares their 128-bit values.
pub text_le-uuid_str :
    (a b : ℕ) → a < 16 ^ 32 → b < 16 ^ 32 → text_le (uuid_str a) (uuid_str b) ≡ leb a b
text_le-uuid_str a b ha hb = groups a b ∙ rw (mod-eq_of_lt ha, mod-eq_of_lt hb) (ground arith)
