-- ===== src/Availability/Clock/Bounds.antt =====
-- A time of day that the code reads is a minute of the day (availability.go).
use Prim.Native.String.{len}
use wantmytime.Prelude.{
  ℕ, ◌+◌, ◌*◌, ◌<◌, ◌≡◌, ◌==◌, ltb, ltb→lt, String, some, false, inl, inr, true, Bool-cases, arith,
}
use wantmytime.Prelude.Chars.{trim_space}
use wantmytime.Prelude.Options.{Gives, each, each_with, where_true, gives, require, ◌>>=◌, ◌>>◌}
use wantmytime.Availability.Clock.{
  getnum, skip_colon, at_end, skip_fraction, parse_15_04, parse_15_04_05, parse_trimmed,
  parse_clock_minutes,
}

abbrev IsClock : ℕ × ℕ → Type 0
IsClock x = (x.0 < 24) × (x.1 < 60)

parse_15_04-IsClock : (s : String) → Gives IsClock (parse_15_04 s)
unfolding parse_15_04
parse_15_04-IsClock s = each (getnum false s) λ x. where_true (ltb x.0 24) λ c.
    each (skip_colon x.1) λ s2. each (getnum true s2) λ y.
      where_true (ltb y.0 60) λ d. each (at_end y.1) λ _. gives (ltb→lt x.0 24 c, ltb→lt y.0 60 d)

parse_15_04_05-IsClock : (s : String) → Gives (λ x. IsClock (x.0, x.1)) (parse_15_04_05 s)
unfolding parse_15_04_05
parse_15_04_05-IsClock s = each (getnum false s) λ x. where_true (ltb x.0 24) λ c.
    each (skip_colon x.1) λ s2. each (getnum true s2) λ y. where_true (ltb y.0 60) λ d.
      each (skip_colon y.1) λ s4. each (getnum true s4) λ z.
        where_true (ltb z.0 60)
          λ _. each (at_end (skip_fraction z.1)) λ _. gives (ltb→lt x.0 24 c, ltb→lt y.0 60 d)

abbrev IsMinuteOfDay : ℕ → Type 0
IsMinuteOfDay m = m < 1440

long :
    (s : String)
    → Gives IsMinuteOfDay (parse_15_04_05 s >>= λ x. require (x.2 == 0) >> some (x.0 * 60 + x.1))
long s =
    each_with (parse_15_04_05-IsClock s)
      λ x c. where_true (x.2 == 0) λ _. gives (omega (arith, c.0, c.1))

short : (s : String) → Gives IsMinuteOfDay (parse_15_04 s >>= λ x. some (x.0 * 60 + x.1))
short s = each_with (parse_15_04-IsClock s) λ x c. gives (omega (arith, c.0, c.1))

trimmed : (s : String) → Gives IsMinuteOfDay (parse_trimmed s)
unfolding parse_trimmed
trimmed s = elim (Bool-cases (len s == 8)) [ inl e ↦ rw e (long s) | inr e ↦ rw e (short s) ]

-- A time of day that parseClockMinutes reads, from whatever text, is a minute before midnight.
pub parse_clock_minutes-bound : (s : String) (m : ℕ) → parse_clock_minutes s ≡ some m → m < 1440
unfolding parse_clock_minutes
parse_clock_minutes-bound s m e = (trimmed (trim_space s)).value m e
