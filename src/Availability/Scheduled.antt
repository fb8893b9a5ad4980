-- ===== src/Availability/Scheduled.antt =====
-- The test of a start time that a buyer asks for: validScheduledTime (availability.go), and
-- calendarConflict (calendar.go) with its statement (calendar.sql.go).
use wantmytime.Prelude.{
  ℕ, ◌+◌, ◌*◌, ◌/◌, ◌%◌, ◌==◌, Bool, false, not, ◌&&◌, ◌||◌, String, str_eq, Option, none, some,
  List, ltb, leb, if◌then◌else◌,
}
use wantmytime.Prelude.Int64.{pos_part}
use wantmytime.Prelude.Time.{Time, Date, minute, second}
use wantmytime.Store.Schema.{Db, Booking, CalendarBusyBlock}
use wantmytime.Store.Monad.{Tx, Result, ok, err, Session, ◌>>=◌, pure, select}
use wantmytime.Prelude.Tables.{any}
use wantmytime.Availability.Zone.{Zone, Zones, wall_minute, weekday_of}
use wantmytime.Availability.Clock.{parse_15_04, parse_15_04_05}
use wantmytime.Availability.Hours.{MinuteWindow}
use wantmytime.Availability.Slots.{
  Interval, local_instants, busy_in, weekly_windows, find_override, is_closed, replacement_of,
}

abbrev pub end_of : Booking → Time
end_of b = b.starts_at + pos_part b.duration_minutes * minute

-- A busy range that sits inside the booking that is being moved.
abbrev pub inside_own : Option String → Db → CalendarBusyBlock → Bool
inside_own none d bb = false
inside_own (some id) d bb =
    any
      (λ (own : Booking).
        str_eq own.id id && leb own.starts_at bb.busy_from && leb bb.busy_to (end_of own))
      d.bookings

unfoldable pub calendar_conflict : String → Interval → Option String → Db → Bool
calendar_conflict seller_id range ignore d =
    any (λ bb. busy_in seller_id range bb && not (inside_own ignore d bb)) d.calendar_busy_blocks

-- A local time: what a clock on the wall and a calendar show.
pub record LocalTime : Type 0 where
  pub date : Date
  pub clock : ℕ

abbrev pub in_zone : Zone → Time → LocalTime
in_zone zone t = record { date = zone.date_of t; clock = zone.clock_of t }

abbrev pub on_quarter : LocalTime → Bool
on_quarter local =
    local.clock / second % 60 == 0 && local.clock % second == 0 && wall_minute local.clock % 15 == 0

abbrev pub is_instant : Time → Time → Bool
is_instant start t = t == start

abbrev both : Option (ℕ × ℕ) → Option (ℕ × ℕ) → Option MinuteWindow
both none o = none
both (some a) none = none
both (some a) (some b) = some (record { start = a.0 * 60 + a.1; end = b.0 * 60 + b.1 })

abbrev without_seconds : Option (ℕ × ℕ × ℕ) → Option (ℕ × ℕ)
without_seconds none = none
without_seconds (some (h, m, s)) = some (h, m)

abbrev or_else : {A : Type 0} → Option A → Option A → Option A
or_else none o = o
or_else (some a) o = some a

-- The layout with seconds for both texts, or the layout without for both.
unfoldable pub scan_window : String × String → Option MinuteWindow
scan_window w =
    let short = both (parse_15_04 w.0) (parse_15_04 w.1) in
    or_else (both (without_seconds (parse_15_04_05 w.0)) (without_seconds (parse_15_04_05 w.1)))
      short

-- A window that starts before it ends, and holds the conversation.
abbrev pub spans : Time → Time → Time → Time → Bool
spans start end window_start window_end =
    ltb window_start window_end && leb window_start start && leb end window_end

unfoldable pub window_allows : Zone → Date → ℕ → ℕ → Time → MinuteWindow → Bool
window_allows zone date m length_minutes start w =
    let end = start + length_minutes * minute in
    not (ltb m w.start || ltb w.end (m + length_minutes))
    && any (λ ws. any (spans start end ws) (local_instants zone date w.end))
        (local_instants zone date w.start)

abbrev pub allows : Zone → Date → ℕ → ℕ → Time → Option MinuteWindow → Bool
allows zone date m length_minutes start none = false
allows zone date m length_minutes start (some w) = window_allows zone date m length_minutes start w

unfoldable pub windows_allow : Zone → LocalTime → ℕ → Time → List (String × String) → Bool
windows_allow zone local length_minutes start =
    any (λ w. allows zone local.date (wall_minute local.clock) length_minutes start (scan_window w))

abbrev pub override_windows :
    Option (List (String × String)) → Tx (List (String × String)) → Tx (List (String × String))
override_windows none weekly = weekly
override_windows (some ws) weekly = pure ws

unfoldable pub check_windows : String → Zone → String → LocalTime → ℕ → Time → Tx Bool
check_windows seller_id zone zone_name local length_minutes start = do
  override ← select (λ t d. find_override seller_id local.date d)
  if is_closed override
      then pure false
      else override_windows (replacement_of override)
          (select (λ t d. weekly_windows seller_id (weekday_of local.date) zone_name d))
        >>= λ windows. pure (windows_allow zone local length_minutes start windows)

abbrev pub shows_start : Zone → LocalTime → Time → Bool
shows_start zone local start =
    on_quarter local
    && any (is_instant start) (local_instants zone local.date (wall_minute local.clock))

unfoldable pub check_scheduled :
    String → Zone → String → LocalTime → Time → ℕ → Option String → Tx Bool
check_scheduled seller_id zone zone_name local start length_minutes ignore = do
  conflict ← select (λ t d.
      calendar_conflict seller_id (record { start = start; end = start + length_minutes * minute })
        ignore d)
  if conflict || not (shows_start zone local start)
      then pure false
      else check_windows seller_id zone zone_name local length_minutes start

-- A statement that fails makes the answer `false`.
abbrev pub or_false : Result Bool × Session → Result Bool × Session
or_false (ok b, s) = (ok b, s)
or_false (err e, s) = (ok false, s)

-- `length_minutes` is duration + buffer, which the code always adds.
unfoldable pub valid_scheduled_time :
    Zones → String → String → LocalTime → Time → ℕ → Option String → Tx Bool
valid_scheduled_time zones seller_id zone_name local start length_minutes ignore s =
    elim (zones zone_name) [
      | none ↦ (ok false, s)
      | some zone ↦
          or_false (check_scheduled seller_id zone zone_name local start length_minutes ignore s)
    ]
