-- ===== src/Workos/Times.antt =====
-- `datetime.fromtimestamp(value, tz=UTC)` of an integer, on a platform with 64-bit times.
use bff.Prelude.{
  ◌*◌, ℕ, ◌+◌, ◌-◌, ◌<◌, ℤ, pos, negsuc, pos_part, neg_part, ltb_ℤ, ltb, if◌then◌else◌, true, ◌≡◌,
  arith,
}
use bff.Result.{Result, ok, err, Error, value_error, overflow_error, os_error}

-- The seconds from 0001-01-01 to 1970-01-01. A timestamp is counted from the former, in microseconds.
abbrev pub unix_epoch : ℕ
unix_epoch = 62135596800

-- The last second of the year 9999
abbrev pub max_time : ℕ
max_time = 253402300799

-- The bounds of the platform's `gmtime`, and of its type of times
abbrev pub max_gmtime : ℕ
max_gmtime = 67768036191676799

abbrev pub min_gmtime : ℕ
min_gmtime = 67768040609740800

abbrev pub time_limit : ℕ
time_limit = 9223372036854775808

-- The error for a time before the year 1 or after the year 9999
abbrev pub out_of_range : ℤ → Error
out_of_range (pos n) =
    if ltb n time_limit then if ltb max_gmtime n then os_error else value_error else overflow_error
out_of_range (negsuc n) =
    if ltb n time_limit
    then if ltb min_gmtime (n + 1) then os_error else value_error
    else overflow_error

unfoldable pub fromtimestamp : ℤ → Result ℕ
fromtimestamp (pos n) =
    if ltb max_time n then err (out_of_range (pos n)) else ok ((n + unix_epoch) * 1_000_000)
fromtimestamp (negsuc n) =
    if ltb n unix_epoch
    then ok ((unix_epoch - (n + 1)) * 1_000_000)
    else err (out_of_range (negsuc n))

-- A time that is returned is the value in microseconds, counted from the year 1.
pub fromtimestamp_ok :
    (a : ℤ) (x : ℕ)
    → fromtimestamp a ≡ ok x
    → x + neg_part a * 1_000_000 ≡ (pos_part a + unix_epoch) * 1_000_000
unfolding fromtimestamp
fromtimestamp_ok (pos n) x h = ground arith
fromtimestamp_ok (negsuc n) x h = ground arith

pub fromtimestamp-lt :
    (a b : ℤ) (x y : ℕ) → fromtimestamp a ≡ ok x → fromtimestamp b ≡ ok y → ltb_ℤ a b ≡ true → x < y
fromtimestamp-lt a b x y p q h = ground (arith, fromtimestamp_ok a x p, fromtimestamp_ok b y q)
