-- ===== src/Cancellation/Refunded.antt =====
-- When a booking can be cancelled, and what its buyer gets back (previewCancellation).
use wantmytime.Prelude.{
  ℕ, ◌+◌, ◌*◌, ◌/◌, refl, ◌^◌, ◌<◌, ◌≡◌, ◌&&◌, ◌||◌, String, str_eq, if◌then◌else◌, leb, ltb, arith,
  Bool-cases, inl, inr, Bool,
}
use wantmytime.Prelude.Int64.{pos, mul64_pos, div64_pos, mul64, div64}
use wantmytime.Prelude.Time.{Time}
use wantmytime.Policy.{buyer_refund_percent, refund_notice}
use wantmytime.Refunds.Statements.{BookingForCancellation}
use wantmytime.Cancellation.Preview.{preview_cancellation}

whole_percent : (g : ℕ) → g * 100 < 2 ^ 63 → div64 (mul64 (pos g) (pos 100)) (pos 100) ≡ pos g
whole_percent g fits =
    let back : g * 100 / 100 ≡ g = omega arith in
    ground (arith, mul64_pos g 100, div64_pos (g * 100) 100)

no_percent : (g : ℕ) → g * 100 < 2 ^ 63 → div64 (mul64 (pos g) (pos 0)) (pos 100) ≡ pos 0
no_percent g fits = ground (arith, mul64_pos g 0, div64_pos 0 100)

percent_cases :
    (starts now : Time)
    → buyer_refund_percent starts now
      ≡ (if leb (now + refund_notice) starts then pos 100 else pos 0)
unfolding buyer_refund_percent
percent_cases starts now = ground arith

-- The booking is confirmed and has not started.
abbrev pub is_upcoming : BookingForCancellation → Time → Bool
is_upcoming b now = str_eq b.state "confirmed" && ltb now b.starts_at

-- The whole price comes back if the seller cancels, or the buyer does with a day's notice.
abbrev pub gives_all_back : BookingForCancellation → String → Time → Bool
gives_all_back b user_id now =
    str_eq user_id b.seller_user_id || leb (now + refund_notice) b.starts_at

-- A booking can be cancelled exactly while it is confirmed and has not started. For a price whose
-- hundredfold fits in an int64, the refund shown is then the whole price if the seller asks or 24
-- hours are left, and nothing otherwise; where the booking cannot be cancelled, it is nothing.
pub preview_cancellation_refund :
    (b : BookingForCancellation) (user_id : String) (now : Time) (g : ℕ)
    → b.gross_minor ≡ pos g
    → g * 100 < 2 ^ 63
    → ((preview_cancellation b user_id now).can_cancel ≡ is_upcoming b now)
      × ((preview_cancellation b user_id now).refund_minor
          ≡ pos (if is_upcoming b now && gives_all_back b user_id now then g else 0))
unfolding preview_cancellation
preview_cancellation_refund b user_id now g price fits =
    elim (Bool-cases (str_eq b.state "confirmed")) [
      | inr closed ↦ rw closed (refl, refl)
      | inl confirmed ↦ elim (Bool-cases (ltb now b.starts_at)) [
        | inr started ↦ rw (confirmed, started) (refl, refl)
        | inl upcoming ↦ elim (Bool-cases (str_eq user_id b.seller_user_id)) [
          | inl seller ↦ rw (confirmed, upcoming, seller, price) (refl, whole_percent g fits)
          | inr buyer ↦ elim (Bool-cases (leb (now + refund_notice) b.starts_at)) [
            | inl early ↦
                rw (confirmed, upcoming, buyer, price, percent_cases b.starts_at now, early)
                  (refl, whole_percent g fits)
            | inr late ↦
                rw (confirmed, upcoming, buyer, price, percent_cases b.starts_at now, late)
                  (refl, no_percent g fits)
          ]
        ]
      ]
    ]
