-- ===== src/Payouts/Hold.antt =====
-- payouts.go, payoutHoldSQL and payoutReleaseAtSQL: what holds a payout back, and when it is due.
use wantmytime.Prelude.{
  ℕ, ◌+◌, ◌*◌, ◌&&◌, Bool, true, false, String, str_eq, Option, none, some, find, leb, ltb,
  if◌then◌else◌,
}
use wantmytime.Prelude.Int64.{pos_part}
use wantmytime.Prelude.Time.{Time, minute}
use wantmytime.Store.Schema.{Db, Booking, SellerPayout, NoShowReport, Refund, failed}
use wantmytime.Refunds.Statements.{any, has_state, text_or_empty}

abbrev pub is_missing : {A : Type 0} → Option A → Bool
is_missing none = true
is_missing (some a) = false

abbrev pub is_set : {A : Type 0} → Option A → Bool
is_set none = false
is_set (some a) = true

-- COALESCE(issue_reported_by, 'buyer') = 'buyer'
abbrev pub by_buyer : Option String → Bool
by_buyer none = true
by_buyer (some role) = str_eq role "buyer"

abbrev pub has_problem : Booking → Bool
has_problem b =
    is_set b.issue_reason && is_missing b.issue_resolved_at && by_buyer b.issue_reported_by

abbrev pub is_open_or_disputed : String → Bool
is_open_or_disputed state = if str_eq state "open" then true else str_eq state "disputed"

abbrev pub reports_seller : String → NoShowReport → Bool
reports_seller booking_id r =
    str_eq r.booking_id booking_id && str_eq r.absent_role "seller" && is_open_or_disputed r.state

abbrev pub is_unfinished : String → Refund → Bool
is_unfinished booking_id r =
    str_eq (text_or_empty r.booking_id) booking_id
    && has_state r.state failed
    && str_eq r.seller_liability "payable"

unfoldable pub payout_hold : Db → Booking → String
payout_hold d b =
    if has_problem b
    then "problem_reported"
    else if any (reports_seller b.id) d.no_show_reports
    then "no_show_reported"
    else if any (is_unfinished b.id) d.refunds
    then "refund_unfinished"
    else ""

-- GREATEST
abbrev later : Time → Time → Time
later t u = if ltb t u then u else t

-- `delay` is payoutDelay in minutes. A booking's duration is positive.
unfoldable pub payout_release_at : ℕ → Booking → SellerPayout → Time
payout_release_at delay b p =
    later (b.starts_at + (pos_part b.duration_minutes + delay) * minute) p.funds_available_at

-- The hold, and whether the payout of the booking is due.
abbrev pub hold_and_due : ℕ → Time → Db → Booking → SellerPayout → String × Bool
hold_and_due delay now d b p = (payout_hold d b, leb (payout_release_at delay b p) now)

unfoldable pub find_hold : ℕ → String → Time → Db → Option (String × Bool)
find_hold delay booking_id now d =
    elim (find (λ (b : Booking). str_eq b.id booking_id) d.bookings) [
      | none ↦ none
      | some b ↦ elim (find (λ (p : SellerPayout). str_eq p.booking_id b.id) d.seller_payouts) [
        | none ↦ none
        | some p ↦ some (hold_and_due delay now d b p)
      ]
    ]
