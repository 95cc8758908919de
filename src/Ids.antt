-- ===== src/Ids.antt =====
-- Identifiers: `uuid7` of apps/control-api/src/bff_control/core/ids.py, and `str` of a `UUID`,
-- which the Connection policies sort by.
pub mod Order
use Prim.Native.Nat.{bit_or}
use bff.Prelude.{ℕ, zero, suc, ◌+◌, ◌*◌, ◌/◌, ◌%◌, ◌^◌, [], ◌∷◌, ◌++◌, leb, ltb, if◌then◌else◌}
use bff.Result.{Result, ok, err, overflow_error}
use bff.Text.{Text}

-- One reading of `time.time_ns()` with the two values of `secrets.randbits`.
pub record Draw : Type 0 where
  pub time_ns : ℕ
  pub rand_a : ℕ
  pub rand_b : ℕ

abbrev pub unix_ms_bits : ℕ
unix_ms_bits = 48

infixl 72 ◌<<◌
abbrev ◌<<◌ : ℕ → ℕ → ℕ
x << k = x * 2 ^ k

unfoldable pub uuid7 : Draw → Result ℕ
uuid7 d =
    let unix_ms = d.time_ns / 1_000_000 in
    if leb (1 << unix_ms_bits) unix_ms
    then err overflow_error
    else let value = bit_or (unix_ms << 80) (0x7 << 76) in
      let value = bit_or value (d.rand_a << 64) in
      let value = bit_or value (0b10 << 62) in ok (bit_or value d.rand_b)

-- A digit of `'%032x'`, as a code point.
abbrev pub hex : ℕ → ℕ
hex d = if ltb d 10 then b'0' + d else 87 + d

-- The `k` lowest hexadecimal digits, the highest of them first.
unfoldable pub hex_digits : ℕ → ℕ → Text
hex_digits zero n = []
hex_digits (suc k) n = hex (n / 16 ^ k % 16) ∷ hex_digits k n

-- `str(uuid)`: the 32 digits in groups of 8, 4, 4, 4 and 12.
unfoldable pub uuid_str : ℕ → Text
uuid_str n =
    hex_digits 8 (n / 16 ^ 24)
    ++ b'-'
      ∷ (hex_digits 4 (n / 16 ^ 20)
          ++ b'-'
            ∷ (hex_digits 4 (n / 16 ^ 16)
                ++ b'-' ∷ (hex_digits 4 (n / 16 ^ 12) ++ b'-' ∷ hex_digits 12 n)))
