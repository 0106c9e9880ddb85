-- ===== src/Prelude/Clock.antt =====
-- Go's `time.Time` without its monotonic reading: nanoseconds since the zero time (year 1). Times
-- before it are not modelled. A reading of the clock is an argument of what calls `time.Now`.
use Prim.Native.Nat.{ℕ}
use mathlib.Core.Bool.{Bool}
use googlysync.Prelude.Tests.{◌==◌, if◌then◌else◌}

abbrev pub Time : Type 0
Time = ℕ

abbrev pub zero_time : Time
zero_time = 0

-- `t.IsZero()`
abbrev pub is_zero : Time → Bool
is_zero t = t == zero_time

-- `if t.IsZero() { t = time.Now() }`
abbrev pub or_now : Time → Time → Time
or_now t now = if is_zero t then now else t
