-- ===== src/Availability/Slots.antt =====
-- The slots of a day (availability.go): localInstants and sellerDaySlots.
use wantmytime.Prelude.{
  ℕ, zero, suc, ◌+◌, ◌-◌, ◌*◌, ◌/◌, ◌%◌, ◌==◌, Bool, true, false, not, ◌&&◌, ◌||◌, String, str_eq,
  Option, none, some, List, [], ◌∷◌, ◌++◌, map, find, ltb, leb, if◌then◌else◌,
}
use wantmytime.Prelude.Chars.{leb_text}
use wantmytime.Prelude.Time.{Time, Date, minute, hour, after}
use wantmytime.Store.Schema.{
  Db, AvailabilityWindow, AvailabilityOverride, SlotReservation, CalendarBusyBlock,
}
use wantmytime.Store.Monad.{Tx, ◌>>=◌, pure, select, clock}
use wantmytime.Prelude.Tables.{any, keep_if, append_all}
use wantmytime.Availability.Zone.{Zone, midnight, add_days, wall_minute, weekday_of}
use wantmytime.Availability.Clock.{parse_clock_minutes}
use wantmytime.Availability.Hours.{MinuteWindow, when_both}
use wantmytime.Availability.Overrides.{is_override}

-- for x := from; x + room <= last; x += step
unfoldable pub count_up : ℕ → ℕ → ℕ → ℕ → ℕ → List ℕ
count_up zero step room last x = []
count_up (suc fuel) step room last x =
    let rest = count_up fuel step room last (x + step) in
    if leb (x + room) last then x ∷ rest else []

-- An instant at which the clock of the zone shows this minute of this date.
abbrev pub shows : Zone → Date → ℕ → Time → Bool
shows zone date m t =
    zone.date_of t == date
    && wall_minute (zone.clock_of t) == m
    && zone.clock_of t / 1_000_000_000 % 60 == 0

-- The quarters of an hour within four hours of the instant that time.Date picks.
abbrev pub candidates : Time → List Time
candidates center = count_up 33 (15 * minute) 0 (center + 4 * hour) (center - 4 * hour)

unfoldable pub local_instants : Zone → Date → ℕ → List Time
local_instants zone date m =
    keep_if (shows zone date m) (candidates (zone.instant date (m * minute)))

-- A range of instants with its start and without its end.
pub record Interval : Type 0 where
  pub start : Time
  pub end : Time

-- `&&` of PostgreSQL on two such ranges: an empty range overlaps none.
unfoldable pub ranges_overlap : Interval → Interval → Bool
ranges_overlap a b =
    ltb a.start b.end && ltb b.start a.end && ltb a.start a.end && ltb b.start b.end

pub record SlotSeller : Type 0 where
  pub id : String
  pub zone_name : String
  pub zone : Zone
  pub notice : ℕ
  pub horizon : ℕ
  pub buffer : ℕ

abbrev pub window_texts : AvailabilityWindow → String × String
window_texts w = (w.local_start, w.local_end)

abbrev pub insert_by_start : String × String → List (String × String) → List (String × String)
insert_by_start w [] = w ∷ []
insert_by_start w (x ∷ l) =
    let rest = insert_by_start w l in if leb_text w.0 x.0 then w ∷ x ∷ l else x ∷ rest

-- ORDER BY local_start
unfoldable pub order_by_start : List (String × String) → List (String × String)
order_by_start [] = []
order_by_start (w ∷ l) = insert_by_start w (order_by_start l)

abbrev pub serves_on : String → ℕ → String → AvailabilityWindow → Bool
serves_on seller_id weekday timezone w =
    str_eq w.seller_id seller_id && w.weekday == weekday && str_eq w.timezone timezone

unfoldable pub weekly_windows : String → ℕ → String → Db → List (String × String)
weekly_windows seller_id weekday timezone d =
    map window_texts (keep_if (serves_on seller_id weekday timezone) d.availability_windows)

-- The override of the date, if any: whether it is closed, and the windows in place of the weekly.
unfoldable pub find_override : String → Date → Db → Option AvailabilityOverride
find_override seller_id date d = find (is_override seller_id date) d.availability_overrides

abbrev pub is_closed : Option AvailabilityOverride → Bool
is_closed none = false
is_closed (some o) = o.closed

abbrev pub replaced :
    Option (List (String × String)) → List (String × String) → List (String × String)
replaced none windows = windows
replaced (some ws) windows = ws

abbrev pub replacement_of : Option AvailabilityOverride → Option (List (String × String))
replacement_of none = none
replacement_of (some o) = o.replacement_windows

abbrev lasts_after : Time → Option Time → Bool
lasts_after now none = false
lasts_after now (some t) = after t now

abbrev blocks_slots : String → Interval → Time → SlotReservation → Bool
blocks_slots seller_id range now r =
    str_eq r.seller_id seller_id
    && r.active
    && (str_eq r.reservation_kind "booking" || lasts_after now r.expires_at)
    && ranges_overlap (record { start = r.occupied_from; end = r.occupied_to }) range

abbrev pub occupied : SlotReservation → Interval
occupied r = record { start = r.occupied_from; end = r.occupied_to }

unfoldable pub reserved_between : String → Interval → Time → Db → List Interval
reserved_between seller_id range now d =
    map occupied (keep_if (blocks_slots seller_id range now) d.slot_reservations)

abbrev pub busy : CalendarBusyBlock → Interval
busy b = record { start = b.busy_from; end = b.busy_to }

abbrev pub busy_in : String → Interval → CalendarBusyBlock → Bool
busy_in seller_id range b = str_eq b.seller_id seller_id && ranges_overlap (busy b) range

unfoldable pub busy_blocks_between : String → Interval → Db → List Interval
busy_blocks_between seller_id range d =
    map busy (keep_if (busy_in seller_id range) d.calendar_busy_blocks)

abbrev pub clashes : Time → Time → Interval → Bool
clashes start end b = ltb start b.end && ltb b.start end

-- What the loops know of the day.
pub record DayContext : Type 0 where
  pub date : Date
  pub min_start : Time
  pub max_start : Time
  pub occupied_by : List Interval

unfoldable pub slot_is_free : SlotSeller → DayContext → ℕ → Time → Bool
slot_is_free seller c duration start =
    let end = start + (duration + seller.buffer) * minute in
    not
      (ltb start c.min_start || after start c.max_start || not (seller.zone.date_of end == c.date))
    && not (any (clashes start end) c.occupied_by)

-- A step of fifteen minutes is at most this often in a window.
abbrev pub slot_fuel : MinuteWindow → ℕ
slot_fuel w = suc (w.end / 15)

abbrev pub slot_minutes : SlotSeller → ℕ → MinuteWindow → List ℕ
slot_minutes seller duration w = count_up (slot_fuel w) 15 (duration + seller.buffer) w.end w.start

unfoldable pub minute_slots : SlotSeller → DayContext → ℕ → ℕ → List Time
minute_slots seller c duration m =
    keep_if (slot_is_free seller c duration) (local_instants seller.zone c.date m)

unfoldable pub window_slots : SlotSeller → DayContext → ℕ → MinuteWindow → List Time
window_slots seller c duration w =
    append_all (minute_slots seller c duration) (slot_minutes seller duration w)

abbrev ordered_window : ℕ → ℕ → Option MinuteWindow
ordered_window sm em = if leb em sm then none else some (record { start = sm; end = em })

unfoldable pub read_window : String × String → Option MinuteWindow
read_window w = when_both (parse_clock_minutes w.0) (parse_clock_minutes w.1) ordered_window

abbrev pub slots_of_window : SlotSeller → DayContext → ℕ → Option MinuteWindow → List Time
slots_of_window seller c duration none = []
slots_of_window seller c duration (some w) = window_slots seller c duration w

unfoldable pub day_slots : SlotSeller → DayContext → ℕ → List (String × String) → List Time
day_slots seller c duration [] = []
day_slots seller c duration (w ∷ ws) =
    slots_of_window seller c duration (read_window w) ++ day_slots seller c duration ws

-- The day, which is given by an instant, and its neighbours: the handler looks there for what
-- occupies the seller.
abbrev pub around : Zone → Time → Interval
around zone day_start = record { start = day_start - 24 * hour; end = add_days zone day_start 2 }

abbrev pub day_context : Zone → SlotSeller → Time → Time → List Interval → DayContext
day_context server seller day_start now occupied_by = record {
  date = seller.zone.date_of day_start;
  min_start = now + seller.notice * minute;
  max_start = add_days server now seller.horizon;
  occupied_by = occupied_by;
}

unfoldable pub open_day_slots :
    Zone → SlotSeller → Time → ℕ → List (String × String) → Tx (List Time)
open_day_slots server seller day_start duration windows = do
  now ← clock
  reserved ← select (reserved_between seller.id (around seller.zone day_start))
  blocked ← select (λ t d. busy_blocks_between seller.id (around seller.zone day_start) d)
  pure (
      day_slots seller (day_context server seller day_start now (reserved ++ blocked)) duration
        windows)

abbrev pub is_empty : {A : Type 0} → List A → Bool
is_empty [] = true
is_empty (x ∷ l) = false

unfoldable pub day_in_horizon : SlotSeller → Time → Time → Bool
day_in_horizon seller now day_start = not (
    after (midnight seller.zone (seller.zone.date_of now)) day_start
    || after day_start (add_days seller.zone now seller.horizon))

unfoldable pub windows_of_day : SlotSeller → Time → Tx (List (String × String))
windows_of_day seller day_start = do
  let date = seller.zone.date_of day_start
  weekly ←
      select (λ t d. order_by_start (weekly_windows seller.id (weekday_of date) seller.zone_name d))
  override ← select (λ t d. find_override seller.id date d)
  pure (if is_closed override then [] else replaced (replacement_of override) weekly)

unfoldable pub horizon_day_slots : Zone → SlotSeller → Time → ℕ → Tx (List Time)
horizon_day_slots server seller day_start duration = do
  windows ← windows_of_day seller day_start
  if is_empty windows then pure [] else open_day_slots server seller day_start duration windows

-- `server` is the zone of time.Now; `day_start` is midnight of the day in the zone of the seller.
-- A day that is closed has no windows.
unfoldable pub seller_day_slots : Zone → SlotSeller → Time → ℕ → Tx (List Time)
seller_day_slots server seller day_start duration = clock >>= λ now.
    if day_in_horizon seller now day_start
    then horizon_day_slots server seller day_start duration
    else pure []
