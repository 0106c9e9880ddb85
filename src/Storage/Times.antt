-- ===== src/Storage/Times.antt =====
-- How internal/storage/store.go writes times and truth values as integers: `unixTime`, `fromUnix`,
-- `boolToInt` and `intToBool`. A time is a number of nanoseconds since the year 1; what lies before,
-- of which no time that is written is, reads as the zero time.
use googlysync.Prelude.{
  ℕ, zero, suc, ◌+◌, ◌-◌, ◌*◌, ◌/◌, Bool, true, false, ◌≡◌, refl, arith, ◌==◌, if◌then◌else◌, ℤ,
  pos, negsuc, sub_ℕ, Time, zero_time, is_zero,
}

abbrev pub second : ℕ
second = 1_000_000_000

-- the seconds from the year 1 to 1970
abbrev pub epoch : ℕ
epoch = 62_135_596_800

-- `t.Unix()`
abbrev pub unix : Time → ℤ
unix t = sub_ℕ (t / second) epoch

unfoldable pub unix_time : Time → ℤ
unix_time t = if is_zero t then pos 0 else unix t

unfoldable pub from_unix : ℤ → Time
from_unix (pos zero) = zero_time
from_unix (pos (suc n)) = (epoch + suc n) * second
from_unix (negsuc n) = (epoch - suc n) * second

unfoldable pub bool_to_int : Bool → ℤ
bool_to_int true = pos 1
bool_to_int false = pos 0

unfoldable pub int_to_bool : ℤ → Bool
int_to_bool (pos zero) = false
int_to_bool (pos (suc n)) = true
int_to_bool (negsuc n) = true

pub int_to_bool-bool_to_int : (b : Bool) → int_to_bool (bool_to_int b) ≡ b
unfolding int_to_bool bool_to_int
int_to_bool-bool_to_int true = refl
int_to_bool-bool_to_int false = refl

-- What is read back of a time that is written: whole seconds, and nothing of the first second of
-- 1970, which reads as no time at all.
unfoldable pub kept_time : Time → Time
kept_time t = if t / second == epoch then zero_time else t / second * second

-- A time that is written and read back is cut to whole seconds, except that the zero time is kept
-- and that the first second of 1970 becomes the zero time.
pub from_unix-unix_time : (t : Time) → from_unix (unix_time t) ≡ kept_time t
unfolding from_unix unix_time kept_time
from_unix-unix_time t = ground arith
