-- ===== src/Payments/Settlement.antt =====
-- The money of a payment is available on a working day (fundsAvailableAt).
use wantmytime.Prelude.{◌+◌, ◌*◌, ◌%◌, ◌≤◌, ◌≡◌, refl, false, true, String, str_eq, Option, arith}
use wantmytime.Prelude.Int64.{ℤ}
use wantmytime.Prelude.Time.{Time, hour}
use wantmytime.Payments.{day, weekday, is_weekend, skip_weekend, wait_hours, funds_available_at}

weekday_next : (t : Time) → weekday (t + day) ≡ (weekday t + 1) % 7
weekday_next t = omega arith

-- Past the weekend, and by no more than it takes.
skip_weekend_lands :
    (t : Time)
    → (is_weekend (skip_weekend 3 t) ≡ false)
      × (t ≤ skip_weekend 3 t)
      × (skip_weekend 3 t ≤ t + 2 * day)
      × (is_weekend t ≡ false → skip_weekend 3 t ≡ t)
unfolding skip_weekend
skip_weekend_lands t = ground (arith, weekday_next t, weekday_next (t + day))

-- Money that does not come by bank transfer is available on a working day (of UTC), not before the
-- hours to wait have passed and at most two days after that, at once where that time is no weekend.
-- The loop over the days has ended by then. Money of a bank transfer is available when it is paid.
pub funds_available_at_lands :
    (hours : Option ℤ) (channel : String) (paid : Time)
    → (str_eq channel "bank_transfer" ≡ true → funds_available_at hours channel paid ≡ paid)
      × (str_eq channel "bank_transfer" ≡ false
          → (is_weekend (funds_available_at hours channel paid) ≡ false)
            × (paid + wait_hours hours * hour ≤ funds_available_at hours channel paid)
            × (funds_available_at hours channel paid ≤ paid + wait_hours hours * hour + 2 * day)
            × (is_weekend (paid + wait_hours hours * hour) ≡ false
                → funds_available_at hours channel paid ≡ paid + wait_hours hours * hour))
unfolding funds_available_at
funds_available_at_lands hours channel paid = (
  λ transfer. rw transfer refl,
  λ other. rw other (skip_weekend_lands (paid + wait_hours hours * hour)),
)
