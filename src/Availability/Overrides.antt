-- ===== src/Availability/Overrides.antt =====
-- The dates on which a seller's hours differ (availability.go): putAvailabilityOverride and
-- deleteAvailabilityOverride, from their parsed date and decoded input on.
use wantmytime.Prelude.{
  ℕ, ◌==◌, Bool, not, ◌&&◌, ◌||◌, String, str_eq, Option, none, some, List, [], ◌∷◌, ◌++◌, map,
  find, length, ltb, if◌then◌else◌, Unit0,
}
use wantmytime.Prelude.Time.{Time, Date, after}
use wantmytime.Store.Schema.{AvailabilityOverride}
use wantmytime.Store.Monad.{
  Tx, Result, ok, err, ◌>>=◌, ◌>>◌, fail, pure, guard, lift, select, exec, clock, invalid_override,
  overlapping_windows, profile_not_found, date_out_of_range,
}
use wantmytime.Store.Schema.{SellerProfile}
use wantmytime.Prelude.Tables.{any, update_where, without}
use wantmytime.Availability.Zone.{Zone, Zones, must_location, midnight, add_days}
use wantmytime.Availability.Clock.{format_clock_minutes}
use wantmytime.Availability.Hours.{
  InputWindow, MinuteWindow, minute_window, cons_all, has_overlap, owned_by,
}

pub record OverrideInput : Type 0 where
  pub closed : Bool
  pub windows : List InputWindow

unfoldable pub override_in_shape : OverrideInput → Bool
override_in_shape input = not (
    ltb 12 (length input.windows)
    || (input.closed && not (length input.windows == 0))
    || (not input.closed && length input.windows == 0))

unfoldable pub replacement_windows : List InputWindow → Option (List MinuteWindow)
replacement_windows [] = some []
replacement_windows (w ∷ ws) = cons_all (minute_window w.start w.end) (replacement_windows ws)

abbrev pub clock_texts : MinuteWindow → String × String
clock_texts w = (format_clock_minutes w.start, format_clock_minutes w.end)

unfoldable pub find_seller : String → Tx SellerProfile
find_seller user_id = do
  found ← select (λ t d. find (owned_by user_id) d.seller_profiles)
  elim found [ none ↦ fail profile_not_found | some sp ↦ pure sp ]

-- Not before today, and not after the end of the horizon.
unfoldable pub date_in_horizon : Zone → ℕ → Time → Date → Bool
date_in_horizon zone horizon now date = not (
    after (midnight zone (zone.date_of now)) (midnight zone date)
    || after (midnight zone date) (add_days zone now horizon))

unfoldable pub check_replacement : List InputWindow → Result (List MinuteWindow)
check_replacement windows = elim (replacement_windows windows) [
  | none ↦ err invalid_override
  | some ws ↦ if has_overlap ws then err overlapping_windows else ok ws
]

abbrev pub is_override : String → Date → AvailabilityOverride → Bool
is_override seller_id date o = str_eq o.seller_id seller_id && o.local_date == date

abbrev pub replace_hours : AvailabilityOverride → AvailabilityOverride → AvailabilityOverride
replace_hours row o = record o {
  closed = row.closed;
  replacement_windows = row.replacement_windows;
}

-- INSERT … ON CONFLICT (seller_id, local_date) DO UPDATE
unfoldable pub upsert_override : AvailabilityOverride → Tx Unit0
upsert_override row = exec (λ t d. record d {
  availability_overrides =
      if any (is_override row.seller_id row.local_date) d.availability_overrides
      then update_where (is_override row.seller_id row.local_date) (replace_hours row)
          d.availability_overrides
      else d.availability_overrides ++ (row ∷ []);
})

-- The column holds the windows that json.Marshal wrote, and that json.Unmarshal reads back.
abbrev pub override_row : String → Date → Bool → List MinuteWindow → AvailabilityOverride
override_row seller_id date closed windows = record {
  seller_id = seller_id;
  local_date = date;
  closed = closed;
  replacement_windows = if closed then none else some (map clock_texts windows);
}

unfoldable pub put_availability_override : Zones → String → Date → OverrideInput → Tx Unit0
put_availability_override zones user_id date input = do
  guard (override_in_shape input) invalid_override
  sp ← find_seller user_id
  now ← clock
  let zone = must_location zones sp.timezone
  guard (date_in_horizon zone sp.booking_horizon_days now date) date_out_of_range
  windows ← lift (check_replacement input.windows)
  upsert_override (override_row sp.id (zone.date_of (midnight zone date)) input.closed windows)

-- DELETE … USING seller_profiles: nothing is removed for a user without a profile.
unfoldable pub delete_availability_override : String → Date → Tx Unit0
delete_availability_override user_id date = exec (λ t d. record d {
  availability_overrides = elim (find (owned_by user_id) d.seller_profiles) [
    | none ↦ d.availability_overrides
    | some sp ↦ without (is_override sp.id date) d.availability_overrides
  ];
})
