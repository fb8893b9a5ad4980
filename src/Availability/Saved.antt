-- ===== src/Availability/Saved.antt =====
-- The hours in the tables (availability.go): whatever is saved is on quarters of an hour, in order,
-- and read back by the slots and by the test of a start time as the same window.
use wantmytime.Prelude.{
  ℕ, ◌+◌, ◌*◌, ◌/◌, ◌%◌, ◌<◌, ◌≡◌, ◌==◌, ◌⊎◌, inl, inr, refl, Bool, false, not, ◌||◌, String,
  Option, none, some, List, ltb, lt→leb_false, arith, Bool-cases,
}
use mathlib.Core.Path.{subst}
use wantmytime.Prelude.Tables.{All}
use wantmytime.Prelude.Options.{some_inj}
use wantmytime.Store.Schema.{Db, AvailabilityOverride}
use wantmytime.Availability.Clock.{parse_clock_minutes, format_clock_minutes}
use wantmytime.Availability.Clock.RoundTrip.{parse_clock_minutes-format_clock_minutes}
use wantmytime.Availability.Clock.Bounds.{parse_clock_minutes-bound}
use wantmytime.Availability.SavedClock.{
  parse_clock_minutes-time_column, parse_15_04_05-time_column, parse_15_04_05-format_clock_minutes,
  parse_15_04-format_clock_minutes,
}
use wantmytime.Availability.Hours.{MinuteWindow, minute_window, in_quarters, time_column, when_both}
use wantmytime.Availability.Overrides.{clock_texts}
use wantmytime.Availability.Slots.{read_window, window_texts}
use wantmytime.Availability.Scheduled.{scan_window}

abbrev pub IsQuarter : MinuteWindow → Type 0
IsQuarter w = (w.start < w.end) × (w.end < 1440) × (w.start % 15 ≡ 0) × (w.end % 15 ≡ 0)

abbrev pub column_texts : MinuteWindow → String × String
column_texts w =
    (time_column (format_clock_minutes w.start), time_column (format_clock_minutes w.end))

abbrev pub IsSaved : String × String → Type 0
IsSaved texts =
    (w : MinuteWindow) × IsQuarter w × ((texts ≡ column_texts w) ⊎ (texts ≡ clock_texts w))

abbrev pub AreSaved : Option (List (String × String)) → Type 0
AreSaved none = Unit
AreSaved (some l) = All IsSaved l

abbrev pub HasSavedHours : Db → Type 0
HasSavedHours d =
    All (λ w. IsSaved (window_texts w)) d.availability_windows
    × All (λ (o : AvailabilityOverride). AreSaved o.replacement_windows) d.availability_overrides

both_read :
    (a b : Option ℕ) (w : MinuteWindow)
    → when_both a b in_quarters ≡ some w
    → (sm : ℕ) × (em : ℕ) × (a ≡ some sm) × (b ≡ some em) × (in_quarters sm em ≡ some w)
both_read none b w h = cc
both_read (some sm) none w h = cc
both_read (some sm) (some em) w h = (sm, em, refl, refl, h)

abbrev refused : (sm em : ℕ) → Bool
refused sm em = not (ltb sm em) || not (sm % 15 == 0) || not (em % 15 == 0)

let_through :
    (sm em : ℕ) → em < 1440 → refused sm em ≡ false → IsQuarter (record { start = sm; end = em })
let_through sm em bound e = (ground (arith, e), bound, ground (arith, e), ground (arith, e))

in_quarters-IsQuarter :
    (sm em : ℕ) (w : MinuteWindow) → em < 1440 → in_quarters sm em ≡ some w → IsQuarter w
in_quarters-IsQuarter sm em w bound h = elim (Bool-cases (refused sm em)) [
  | inl e ↦ absurd (none-some (rw e at h))
  | inr e ↦ subst IsQuarter (some_inj (rw e at h)) (let_through sm em bound e)
]
  where
    none-some : {v : MinuteWindow} → none ≡ some v → ⊥
    none-some h = cc

-- What the checks let through.
pub minute_window-IsQuarter :
    (start end : String) (w : MinuteWindow) → minute_window start end ≡ some w → IsQuarter w
unfolding minute_window
minute_window-IsQuarter start end w h =
    let r = both_read (parse_clock_minutes start) (parse_clock_minutes end) w h in
    in_quarters-IsQuarter r.0 r.1 w (parse_clock_minutes-bound end r.1 r.3) r.4

whole : (m : ℕ) → m / 60 * 60 + m % 60 ≡ m
whole m = omega arith

module _ (w : MinuteWindow) (q : IsQuarter w) where
  start_in_day : w.start < 1440
  start_in_day = omega (arith, q.0, q.1)

  read_column : read_window (column_texts w) ≡ some w
  unfolding read_window
  read_column =
      rw
        (
          parse_clock_minutes-time_column w.start start_in_day,
          parse_clock_minutes-time_column w.end q.1,
          lt→leb_false w.start w.end q.0,
        )
        refl

  read_clock : read_window (clock_texts w) ≡ some w
  unfolding read_window
  read_clock =
      rw
        (
          parse_clock_minutes-format_clock_minutes w.start start_in_day,
          parse_clock_minutes-format_clock_minutes w.end q.1,
          lt→leb_false w.start w.end q.0,
        )
        refl

  scan_column : scan_window (column_texts w) ≡ some w
  unfolding scan_window
  scan_column =
      rw
        (
          parse_15_04_05-time_column w.start start_in_day,
          parse_15_04_05-time_column w.end q.1,
          whole w.start,
          whole w.end,
        )
        refl

  scan_clock : scan_window (clock_texts w) ≡ some w
  unfolding scan_window
  scan_clock =
      rw
        (
          parse_15_04_05-format_clock_minutes w.start start_in_day,
          parse_15_04-format_clock_minutes w.start start_in_day,
          parse_15_04-format_clock_minutes w.end q.1,
          whole w.start,
          whole w.end,
        )
        refl

-- Both readers find the window that was saved.
pub saved_read :
    (texts : String × String) (saved : IsSaved texts)
    → (read_window texts ≡ some saved.0) × (scan_window texts ≡ some saved.0)
saved_read texts (w, q, inl e) = rw e (read_column w q, scan_column w q)
saved_read texts (w, q, inr e) = rw e (read_clock w q, scan_clock w q)
