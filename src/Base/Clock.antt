-- ===== src/Base/Clock.antt =====
-- Go's `time.Time` and `time.Duration`. An instant is its number of nanoseconds, counted from 2^63
-- seconds before the zero time, which is where the 64-bit seconds of a `Time` begin; a duration is a
-- 64-bit number of nanoseconds.
use emovis_micro_service.Base.Tests.{◌==◌, ltb, leb, if◌then◌else◌}
use emovis_micro_service.Base.Int.{ℤ, pos, negsuc}
use mathlib.Core.Bool.{Bool}
use Prim.Native.Nat.{ℕ, ◌+◌, ◌-◌, ◌*◌, ◌%◌, ◌^◌, min}

pub data Zone : Type 0 where
  utc : Zone
  zone : ℕ → Zone

pub record Time : Type 0 where
  pub instant : ℕ
  pub location : Zone

abbrev pub second : ℕ
second = 1000000000

abbrev pub minute : ℕ
minute = 60 * second

abbrev pub zero_instant : ℕ
zero_instant = 2 ^ 63 * second

-- `t.IsZero()`
unfoldable pub time_is_zero : Time → Bool
time_is_zero t = t.instant == zero_instant

-- `t.UTC()`
unfoldable pub to_utc : Time → Time
to_utc t = record { instant = t.instant; location = utc }

-- `t.Add(d)` for a duration that is not negative: the seconds stop at the last representable one.
unfoldable pub add : Time → ℕ → Time
add t d =
    let sum = t.instant + d in
    record t {
      instant = if ltb sum (2 ^ 64 * second) then sum else (2 ^ 64 - 1) * second + sum % second;
    }

-- `t.After(u)`
unfoldable pub after : Time → Time → Bool
after t u = ltb u.instant t.instant

-- `t.Sub(u)`, which stops at the least and the greatest duration.
unfoldable pub sub : Time → Time → ℤ
sub t u =
    if leb u.instant t.instant
    then pos (min (t.instant - u.instant) (2 ^ 63 - 1))
    else negsuc (min (u.instant - t.instant - 1) (2 ^ 63 - 1))
