-- ===== src/Examples/CancellationExamples.antt =====
-- A booking at 500.00 that its buyer cancels with more than a day's notice.
use wantmytime.Prelude.{ℕ, ◌*◌, ◌≡◌, refl, true, some, [], ◌∷◌, arith}
use wantmytime.Prelude.Int64.{pos}
use wantmytime.Prelude.Time.{hour}
use wantmytime.Store.Monad.{
  Session, Error, err, in_transaction, finish, commit, query, try_query, select, exec,
}
use wantmytime.Refunds.Statements.{
  lock_booking_for_cancellation, find_booking, joined_booking, insert_refund, create_refund_row,
  enqueue_booking_event,
}
use wantmytime.Refunds.Create.{
  nullable_string, create_refund, refund_plan, refund_switch, seller_liability,
}
use wantmytime.Policy.{buyer_refund_percent, next_refund_drop, refund_shares}
use wantmytime.Prelude.Int64.{add64, sub64, mul64, div64, rem64}
use wantmytime.Cancellation.Statements.{
  mark_booking_cancelled, release_booking_slot, cancel_upcoming_booking_mail,
  close_booking_requests, enqueue_calendar_sync,
}
use wantmytime.Cancellation.Preview.{preview_cancellation}
use wantmytime.Cancellation.Handler.{
  lock_participant_booking, refund_cancelled, tell_cancelled, apply_cancellation, cancel_agreed,
  cancel_booking,
}
use wantmytime.Cancellation.Refunded.{preview_cancellation_refund}
use wantmytime.Cancellation.Effect.{IsClosed}
use wantmytime.Cancellation.Repaid.{HasRepaid, cancel_booking_effect}
use wantmytime.Cancellation.Once.{cancel_booking_once}
use wantmytime.Examples.LedgerExamples.{rt, empty}
use wantmytime.Examples.Rows.{seller_profile, reservation, allocation, attempt}
use wantmytime.Examples.RefundExamples.{env, booking, booked}

abbrev opened : Session
opened = record empty {
  db = record empty.db {
    bookings = record booked { state = "confirmed"; starts_at = 48 * hour } ∷ [];
    seller_profiles = seller_profile ∷ [];
    payment_allocations = allocation ∷ [];
    payment_attempts = attempt ∷ [];
    slot_reservations = reservation ∷ [];
    reschedule_requests = record { booking_id = "b-1"; state = "pending"; version = pos 1 } ∷ [];
    calendar_connections =
        record { seller_id = "s-1"; status = "active"; add_events = true; create_meet_links = true }
        ∷ [];
  };
}

-- All that a run of `cancel_booking` computes with.
unfoldable cancel_code : ℕ
unfolding cancel_booking cancel_agreed lock_participant_booking lock_booking_for_cancellation
    find_booking joined_booking preview_cancellation apply_cancellation refund_cancelled
    tell_cancelled mark_booking_cancelled release_booking_slot cancel_upcoming_booking_mail
    close_booking_requests enqueue_calendar_sync create_refund refund_plan refund_switch
    seller_liability nullable_string insert_refund create_refund_row enqueue_booking_event
    in_transaction finish commit query try_query select exec buyer_refund_percent next_refund_drop
    refund_shares add64 sub64 mul64 div64 rem64
cancel_code = 0

abbrev closed : Session
closed = (cancel_booking env rt "u-1" "b-1" "ill" (some (pos 50_000)) opened).1

preview_cancellation_refund_example :
    ((preview_cancellation booking "u-2" 0).can_cancel ≡ true)
    × ((preview_cancellation booking "u-2" 0).refund_minor ≡ pos 50_000)
preview_cancellation_refund_example =
    preview_cancellation_refund booking "u-2" 0 50_000 refl (omega arith)

cancel_booking_effect_example :
    ((pos 50_000 ≡ pos 50_000) × IsClosed "b-1" closed.db)
    × HasRepaid env opened.db "b-1" "u-1" (pos 50_000) closed.db
unfolding cancel_code
cancel_booking_effect_example =
    cancel_booking_effect env rt "u-1" "b-1" "ill" (pos 50_000) (pos 50_000) opened closed refl

cancel_booking_once_example :
    (e : Error) × (cancel_booking env rt "u-2" "b-1" "again" (some (pos 0)) closed
      ≡ (err e, closed))
unfolding cancel_code
cancel_booking_once_example =
    cancel_booking_once env rt "u-1" "u-2" "b-1" "ill" "again" (pos 50_000) (pos 50_000)
      (some (pos 0)) opened closed refl refl
