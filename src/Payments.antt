-- ===== src/Payments.antt =====
-- services/core/cmd/api/payment_processing.go: fundsAvailableAt here, and applyVerifiedCharge below.
pub mod Money
pub mod Settlement
pub mod Charged
pub mod Booked
pub mod Late
pub mod Returned
pub mod Notices
pub mod Charge
pub mod Journal
pub mod Keeps
pub mod Outbound
pub mod Balanced
use wantmytime.Prelude.{
  ℕ, zero, suc, ◌+◌, ◌*◌, ◌/◌, ◌%◌, Bool, ◌||◌, String, str_eq, Option, none, some, ◌==◌,
  if◌then◌else◌,
}
use wantmytime.Prelude.Int64.{ℤ, pos, ltb_ℤ, pos_part}
use wantmytime.Prelude.Time.{Time, hour}

abbrev pub day : ℕ
day = 86_400_000_000_000

-- time.Weekday of a time in UTC, from 0 for Sunday. The zero time is a Monday.
abbrev pub weekday : Time → ℕ
weekday t = (t / day + 1) % 7

abbrev pub is_weekend : Time → Bool
is_weekend t = weekday t == 6 || weekday t == 0

-- The loop over the days, with fuel.
unfoldable pub skip_weekend : ℕ → Time → Time
skip_weekend zero t = t
skip_weekend (suc fuel) t =
    let rest = skip_weekend fuel (t + day) in if is_weekend t then rest else t

-- The argument is what strconv.Atoi makes of SETTLEMENT_WAIT_HOURS or CARD_SETTLEMENT_HOURS.
abbrev pub wait_hours : Option ℤ → ℕ
wait_hours none = 24
wait_hours (some h) = if ltb_ℤ h (pos 0) || ltb_ℤ (pos 168) h then 24 else pos_part h

-- Two rounds are the most that the loop makes; one more shows that it ended.
unfoldable pub funds_available_at : Option ℤ → String → Time → Time
unfolding skip_weekend
funds_available_at hours channel paid =
    if str_eq channel "bank_transfer" then paid else skip_weekend 3 (paid + wait_hours hours * hour)
