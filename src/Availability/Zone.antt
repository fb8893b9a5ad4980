-- ===== src/Availability/Zone.antt =====
-- Time zones: what the code asks of a time.Location. The database of the zones is outside the
-- repository, so a zone is a parameter.
use wantmytime.Prelude.{
  ℕ, ◌/◌, ◌%◌, ◌+◌, ◌*◌, ◌==◌, ◌||◌, ltb, String, str_eq, Option, none, some, Bool, if◌then◌else◌,
}
use wantmytime.Prelude.Time.{Time, Date, minute, day}
use Prim.Native.String.{len}

-- `date_of` and `clock_of` give the date of an instant in the zone, and the nanoseconds that its
-- clock shows; `instant` is time.Date, which picks an instant for a date and a clock reading.
pub record Zone : Type 0 where
  pub name : String
  pub date_of : Time → Date
  pub clock_of : Time → ℕ
  pub instant : Date → ℕ → Time

-- time.LoadLocation
abbrev pub Zones : Type 0
Zones = String → Option Zone

unfoldable pub load_named_timezone : Zones → String → Option Zone
load_named_timezone zones zone =
    if str_eq zone "" || str_eq zone "Local" || ltb 64 (len zone) then none else zones zone

-- The minute of the day that a clock shows, and what is left of it.
abbrev pub wall_minute : ℕ → ℕ
wall_minute clock = clock / minute

abbrev pub is_whole_minute : ℕ → Bool
is_whole_minute clock = clock % minute == 0

-- 0 is Sunday.
abbrev pub weekday_of : Date → ℕ
weekday_of date = (date + 1) % 7

-- Midnight of a date.
abbrev pub midnight : Zone → Date → Time
midnight zone date = zone.instant date 0

-- t.AddDate(0, 0, days)
abbrev pub add_days : Zone → Time → ℕ → Time
add_days zone t days = zone.instant (zone.date_of t + days) (zone.clock_of t)

-- time.UTC
abbrev pub utc : Zone
utc = record {
  name = "UTC";
  date_of = λ t. t / day;
  clock_of = λ t. t % day;
  instant = λ date clock. date * day + clock;
}

-- mustLocation
unfoldable pub must_location : Zones → String → Zone
must_location zones zone = elim (zones zone) [ none ↦ utc | some z ↦ z ]
