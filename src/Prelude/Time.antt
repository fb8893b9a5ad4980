-- ===== src/Prelude/Time.antt =====
-- Go's time.Time as nanoseconds since its zero value, and the part of package time that the code
-- calls with numbers: a difference saturates at the ends of int64.
use Prim.Native.Nat.{ℕ}
use mathlib.Core.Bool.{Bool}
use wantmytime.Prelude.Tests.{ltb, if◌then◌else◌}
use wantmytime.Prelude.Int64.{ℤ, pos, negsuc, ◌-ℤ◌, ltb_ℤ, max_int64}

abbrev pub Time : Type 0
Time = ℕ

abbrev pub zero_time : Time
zero_time = 0

-- A calendar date, as the days since 0001-01-01, which was a Monday.
abbrev pub Date : Type 0
Date = ℕ

-- time.Second, time.Minute, time.Hour
abbrev pub second : ℕ
second = 1_000_000_000

abbrev pub minute : ℕ
minute = 60_000_000_000

abbrev pub hour : ℕ
hour = 3_600_000_000_000

-- Twenty-four hours.
abbrev pub day : ℕ
day = 86_400_000_000_000

-- t.Sub(u)
unfoldable pub sub_time : Time → Time → ℤ
sub_time t u =
    if ltb_ℤ max_int64 (pos t -ℤ pos u)
    then max_int64
    else if ltb_ℤ (pos t -ℤ pos u) (negsuc 9_223_372_036_854_775_807)
    then negsuc 9_223_372_036_854_775_807
    else pos t -ℤ pos u

-- t.After(u)
abbrev pub after : Time → Time → Bool
after t u = ltb u t
