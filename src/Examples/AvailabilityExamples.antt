-- ===== src/Examples/AvailabilityExamples.antt =====
-- A seller who is free from 09:00 to 10:00 on a Thursday, and is asked for half an hour.
use wantmytime.Prelude.{
  ℕ, ◌+◌, ◌*◌, ◌<◌, ◌≡◌, ◌↔◌, inl, refl, true, false, none, some, List, [], ◌∷◌, arith,
}
use wantmytime.Prelude.Int64.{pos}
use wantmytime.Prelude.Chars.{trim_space, leb_text}
use wantmytime.Prelude.Time.{Time, minute, hour, day}
use wantmytime.Store.Schema.{Db}
use wantmytime.Store.Monad.{Session, ok, query, select, exec, in_transaction, finish, commit}
use wantmytime.Availability.Zone.{Zones, utc, load_named_timezone, must_location}
use wantmytime.Availability.Clock.{
  getnum, skip_colon, parse_15_04, parse_15_04_05, parse_trimmed, parse_clock_minutes,
  format_clock_minutes,
}
use wantmytime.Availability.Clock.RoundTrip.{parse_clock_minutes-format_clock_minutes}
use wantmytime.Availability.Clock.Bounds.{parse_clock_minutes-bound}
use wantmytime.Availability.Hours.{
  AvailabilityConfig, MinuteWindow, config_in_range, minute_window, day_window, day_windows,
  sort_windows, has_overlap, week_has_overlap, update_schedule, delete_availability_windows,
  insert_availability_window, insert_availability_windows, save_availability, check_availability,
  put_availability,
}
use wantmytime.Availability.Overrides.{
  OverrideInput, override_in_shape, replacement_windows, find_seller, date_in_horizon,
  check_replacement, upsert_override, put_availability_override,
}
use wantmytime.Availability.Overlap.{ArePairwiseDisjoint, has_overlap-exact}
use wantmytime.Availability.Slots.{
  SlotSeller, DayContext, count_up, local_instants, ranges_overlap, order_by_start, weekly_windows,
  find_override, reserved_between, busy_blocks_between, slot_is_free, minute_slots, window_slots,
  read_window, day_slots, open_day_slots, day_in_horizon, windows_of_day, horizon_day_slots,
  seller_day_slots,
}
use wantmytime.Availability.Scheduled.{in_zone, valid_scheduled_time}
use wantmytime.Availability.Exact.{has_time}
use wantmytime.Availability.Allowed.{IsAllowed, day_slots-exact}
use wantmytime.Availability.Steady.{IsSteady}
use wantmytime.Availability.Saved.{HasSavedHours}
use wantmytime.Availability.Kept.{
  put_availability-HasSavedHours, put_availability_override-HasSavedHours,
}
use wantmytime.Availability.Shown.{working, shown_slot_is_valid}
use wantmytime.Prelude.Tables.{Some}
use wantmytime.Examples.LedgerExamples.{empty}
use wantmytime.Examples.Rows.{seller_profile}

-- Everything that the runs below compute with.
unfoldable code : ℕ
unfolding trim_space leb_text load_named_timezone must_location getnum skip_colon parse_15_04
    parse_15_04_05 parse_trimmed parse_clock_minutes format_clock_minutes config_in_range
    minute_window day_window day_windows sort_windows has_overlap week_has_overlap update_schedule
    delete_availability_windows insert_availability_window insert_availability_windows
    save_availability check_availability put_availability override_in_shape replacement_windows
    find_seller date_in_horizon check_replacement upsert_override put_availability_override count_up
    local_instants ranges_overlap order_by_start weekly_windows find_override reserved_between
    busy_blocks_between slot_is_free minute_slots window_slots read_window day_slots open_day_slots
    day_in_horizon windows_of_day horizon_day_slots seller_day_slots query select exec
    in_transaction finish commit
code = 0

abbrev zones : Zones
zones name = some utc

abbrev seller : SlotSeller
seller = record {
  id = "s-1";
  zone_name = "Etc/UTC";
  zone = utc;
  notice = 60;
  horizon = 30;
  buffer = 15;
}

abbrev tables : Db
tables = record empty.db {
  seller_profiles = seller_profile ∷ [];
  availability_windows =
      record {
        seller_id = "s-1";
        weekday = 4;
        local_start = "09:00:00";
        local_end = "10:00:00";
        timezone = "Etc/UTC";
      }
      ∷ [];
}

tables-HasSavedHours : HasSavedHours tables
unfolding format_clock_minutes
tables-HasSavedHours = (
  ((record { start = 540; end = 600 }, (omega arith, omega arith, refl, refl), inl refl), tt),
  tt,
)

utc-IsSteady : IsSteady utc 10
utc-IsSteady = record {
  begins = omega arith;
  dated = λ clock h. omega (arith, h);
  in_day = λ t h. (omega (arith, h), omega (arith, h));
  shown = λ clock h. omega (arith, h);
  picked = λ clock h. omega (arith, h);
  ends = omega arith;
}

abbrev nine : Time
nine = 10 * day + 9 * hour

shown_slot_is_valid_example :
    (valid_scheduled_time zones "s-1" "Etc/UTC"
      (in_zone utc nine)
      nine
      45
      none
      (working tables (10 * day))).0
    ≡ ok true
unfolding code
shown_slot_is_valid_example =
    shown_slot_is_valid utc seller zones 10 30 nine tables (10 * day)
      (nine ∷ (nine + 15 * minute) ∷ []) refl tables-HasSavedHours utc-IsSteady refl refl

parse_clock_minutes-format_clock_minutes_example :
    parse_clock_minutes (format_clock_minutes 545) ≡ some 545
parse_clock_minutes-format_clock_minutes_example =
    parse_clock_minutes-format_clock_minutes 545 (omega arith)

parse_clock_minutes-bound_example : 545 < 1440
unfolding code
parse_clock_minutes-bound_example = parse_clock_minutes-bound " 9:05" 545 refl

abbrev hours : List MinuteWindow
hours = record { start = 600; end = 660 } ∷ record { start = 540; end = 600 } ∷ []

has_overlap-exact_example : has_overlap hours ≡ false ↔ ArePairwiseDisjoint hours
has_overlap-exact_example = has_overlap-exact hours (omega arith, (omega arith, tt))

abbrev morning : DayContext
morning = record { date = 10; min_start = 10 * day; max_start = 20 * day; occupied_by = [] }

day_slots-exact_example :
    has_time nine (day_slots seller morning 30 (("09:00", "10:00") ∷ [])) ≡ true
    ↔ Some (IsAllowed seller morning 30 nine) (("09:00", "10:00") ∷ [])
day_slots-exact_example = day_slots-exact seller morning 30 nine (("09:00", "10:00") ∷ [])

abbrev config : AvailabilityConfig
config = record {
  timezone = " Etc/UTC";
  minimum_notice = pos 120;
  horizon_days = pos 60;
  buffer_minutes = pos 0;
  windows = record { weekday = pos 1; start = "9:00"; end = "17:30:00" } ∷ [];
}

abbrev before : Session
before = working tables (10 * day)

put_availability-HasSavedHours_example :
    HasSavedHours (put_availability zones "u-2" config before).1.db
unfolding code
put_availability-HasSavedHours_example =
    put_availability-HasSavedHours zones "u-2" config before
      (put_availability zones "u-2" config before).1 refl tables-HasSavedHours

abbrev shorter : OverrideInput
shorter = record {
  closed = false;
  windows = record { weekday = pos 0; start = "09:30"; end = "11:00" } ∷ [];
}

put_availability_override-HasSavedHours_example :
    HasSavedHours (put_availability_override zones "u-2" 12 shorter before).1.db
unfolding code
put_availability_override-HasSavedHours_example =
    put_availability_override-HasSavedHours zones "u-2" 12 shorter before
      (put_availability_override zones "u-2" 12 shorter before).1 refl tables-HasSavedHours
