-- ===== src/Availability/Hours.antt =====
-- The hours that a seller sets (availability.go): putAvailability from its decoded input on.
use Prim.Native.String.{◌++◌ as text_append}
use wantmytime.Prelude.{
  ℕ, ◌%◌, Bool, false, not, ◌||◌, String, str_eq, Option, none, some, List, [], ◌∷◌, ◌++◌, map,
  find, length, ltb, ◌==◌, if◌then◌else◌, Unit0,
}
use wantmytime.Prelude.Chars.{trim_space}
use wantmytime.Prelude.Int64.{ℤ, pos, ltb_ℤ, pos_part}
use wantmytime.Store.Schema.{AvailabilityWindow, SellerProfile}
use wantmytime.Store.Monad.{
  Tx, Result, ok, err, ◌>>=◌, ◌>>◌, pure, fail, lift, query, exec, in_transaction,
  invalid_availability, invalid_timezone, overlapping_windows, profile_not_found,
}
use wantmytime.Prelude.Tables.{any, update_where, without}
use wantmytime.Availability.Zone.{Zone, Zones, load_named_timezone}
use wantmytime.Availability.Clock.{parse_clock_minutes, format_clock_minutes}

pub record InputWindow : Type 0 where
  pub weekday : ℤ
  pub start : String
  pub end : String

pub record AvailabilityConfig : Type 0 where
  pub timezone : String
  pub minimum_notice : ℤ
  pub horizon_days : ℤ
  pub buffer_minutes : ℤ
  pub windows : List InputWindow

pub record MinuteWindow : Type 0 where
  pub start : ℕ
  pub end : ℕ

-- A window on a weekday, or with what stands for the day elsewhere.
pub record DayWindow : Type 0 where
  pub weekday : ℕ
  pub minutes : MinuteWindow

abbrev pub outside : ℤ → ℕ → ℕ → Bool
outside n low high = ltb_ℤ n (pos low) || ltb_ℤ (pos high) n

unfoldable pub config_in_range : AvailabilityConfig → Bool
config_in_range config = not (
    ltb 56 (length config.windows)
    || outside config.minimum_notice 0 10_080
    || outside config.horizon_days 1 365
    || outside config.buffer_minutes 0 240)

-- Both clock texts, on quarters of an hour and in order.
abbrev pub in_quarters : ℕ → ℕ → Option MinuteWindow
in_quarters sm em =
    if not (ltb sm em) || not (sm % 15 == 0) || not (em % 15 == 0)
    then none
    else some (record { start = sm; end = em })

abbrev pub when_both : {A : Type 0} → Option ℕ → Option ℕ → (ℕ → ℕ → Option A) → Option A
when_both none o f = none
when_both (some a) none f = none
when_both (some a) (some b) f = f a b

unfoldable pub minute_window : String → String → Option MinuteWindow
minute_window start end =
    when_both (parse_clock_minutes start) (parse_clock_minutes end) in_quarters

abbrev keep_window : ℤ → Option MinuteWindow → Option DayWindow
keep_window weekday none = none
keep_window weekday (some w) = some (record { weekday = pos_part weekday; minutes = w })

unfoldable pub day_window : InputWindow → Option DayWindow
day_window w =
    if outside w.weekday 0 6 then none else keep_window w.weekday (minute_window w.start w.end)

abbrev pub cons_all : {A : Type 0} → Option A → Option (List A) → Option (List A)
cons_all none rest = none
cons_all (some a) none = none
cons_all (some a) (some l) = some (a ∷ l)

unfoldable pub day_windows : List InputWindow → Option (List DayWindow)
day_windows [] = some []
day_windows (w ∷ ws) = cons_all (day_window w) (day_windows ws)

-- sort.Slice by the start; the order of windows with the same start does not matter to the code,
-- which refuses them.
abbrev pub insert_window : MinuteWindow → List MinuteWindow → List MinuteWindow
insert_window w [] = w ∷ []
insert_window w (x ∷ l) =
    let rest = insert_window w l in if ltb x.start w.start then x ∷ rest else w ∷ x ∷ l

unfoldable pub sort_windows : List MinuteWindow → List MinuteWindow
sort_windows [] = []
sort_windows (w ∷ l) = insert_window w (sort_windows l)

-- Whether a window starts before the one in front of it ends.
abbrev pub starts_early : MinuteWindow → List MinuteWindow → Bool
starts_early w [] = false
starts_early w (x ∷ l) = let rest = starts_early x l in ltb x.start w.end || rest

abbrev pub overlapping_neighbours : List MinuteWindow → Bool
overlapping_neighbours [] = false
overlapping_neighbours (w ∷ l) = starts_early w l

unfoldable pub has_overlap : List MinuteWindow → Bool
has_overlap ws = overlapping_neighbours (sort_windows ws)

abbrev pub on_weekday : ℕ → List DayWindow → List MinuteWindow
on_weekday day [] = []
on_weekday day (w ∷ l) =
    let rest = on_weekday day l in if w.weekday == day then w.minutes ∷ rest else rest

unfoldable pub week_has_overlap : List DayWindow → Bool
week_has_overlap ws = any (λ day. has_overlap (on_weekday day ws)) (0 ∷ 1 ∷ 2 ∷ 3 ∷ 4 ∷ 5 ∷ 6 ∷ [])

-- A `time` of PostgreSQL that is given as `HH:MM` is printed with its seconds.
abbrev pub time_column : String → String
time_column clock = text_append clock ":00"

abbrev pub owned_by : String → SellerProfile → Bool
owned_by user_id sp = str_eq sp.user_id user_id

abbrev scheduled : String → AvailabilityConfig → SellerProfile → SellerProfile
scheduled timezone config sp = record sp {
  timezone = timezone;
  minimum_notice_minutes = pos_part config.minimum_notice;
  booking_horizon_days = pos_part config.horizon_days;
  buffer_minutes = pos_part config.buffer_minutes;
}

unfoldable pub update_schedule : String → String → AvailabilityConfig → Tx (Option SellerProfile)
update_schedule user_id timezone config = query (λ t d. (
  find (owned_by user_id) d.seller_profiles,
  record d {
    seller_profiles = update_where (owned_by user_id) (scheduled timezone config) d.seller_profiles;
  },
))

abbrev pub hours_of : String → AvailabilityWindow → Bool
hours_of seller_id w = str_eq w.seller_id seller_id

unfoldable pub delete_availability_windows : String → Tx Unit0
delete_availability_windows seller_id =
    exec (λ t d. record d {
      availability_windows = without (hours_of seller_id) d.availability_windows;
    })

abbrev pub window_row : String → String → DayWindow → AvailabilityWindow
window_row seller_id timezone w = record {
  seller_id = seller_id;
  weekday = w.weekday;
  local_start = time_column (format_clock_minutes w.minutes.start);
  local_end = time_column (format_clock_minutes w.minutes.end);
  timezone = timezone;
}

unfoldable pub insert_availability_window : AvailabilityWindow → Tx Unit0
insert_availability_window row =
    exec (λ t d. record d { availability_windows = d.availability_windows ++ (row ∷ []) })

unfoldable pub insert_availability_windows : List AvailabilityWindow → Tx Unit0
insert_availability_windows [] = pure tt
insert_availability_windows (w ∷ ws) = do
  insert_availability_window w
  insert_availability_windows ws

abbrev pub found_profile : Option SellerProfile → Tx SellerProfile
found_profile none = fail profile_not_found
found_profile (some sp) = pure sp

unfoldable pub save_availability : String → Zone → AvailabilityConfig → List DayWindow → Tx Unit0
save_availability user_id zone config windows = do
  found ← update_schedule user_id zone.name config
  sp ← found_profile found
  delete_availability_windows sp.id
  insert_availability_windows (map (window_row sp.id zone.name) windows)

-- The tests of the input, in the order of the handler.
unfoldable pub check_availability : Zones → AvailabilityConfig → Result (Zone × List DayWindow)
check_availability zones config =
    if not (config_in_range config)
    then err invalid_availability
    else elim (load_named_timezone zones (trim_space config.timezone)) [
      | none ↦ err invalid_timezone
      | some zone ↦ elim (day_windows config.windows) [
        | none ↦ err invalid_availability
        | some windows ↦
            if week_has_overlap windows then err overlapping_windows else ok (zone, windows)
      ]
    ]

unfoldable pub put_availability : Zones → String → AvailabilityConfig → Tx Unit0
put_availability zones user_id config = do
  (zone, windows) ← lift (check_availability zones config)
  in_transaction (save_availability user_id zone config windows)
