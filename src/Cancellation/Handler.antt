-- ===== src/Cancellation/Handler.antt =====
-- cancellation.go, cancelBooking from the test of its input on, and what it calls. The caller,
-- `user_id`, is who the session or the guest's link says.
use Prim.Native.String.{◌++◌ as text_append, len}
use wantmytime.Prelude.{Bool, ◌||◌, ltb, String, str_eq, Option, some, none, Unit0, if◌then◌else◌}
use wantmytime.Prelude.Int64.{ℤ, pos, ltb_ℤ, eqb_ℤ}
use wantmytime.Store.Monad.{
  Tx, ◌>>=◌, ◌>>◌, pure, fail, guard, clock, in_transaction, no_rows, invalid_cancellation,
  refund_changed, cancellation_unavailable,
}
use wantmytime.Ledger.Journal.{Runtime}
use wantmytime.Refunds.Statements.{
  BookingForCancellation, lock_booking_for_cancellation, enqueue_booking_event,
}
use wantmytime.Refunds.Create.{Settings, nullable_string, create_refund}
use wantmytime.Cancellation.Preview.{preview_cancellation}
use wantmytime.Cancellation.Statements.{
  mark_booking_cancelled, release_booking_slot, cancel_upcoming_booking_mail,
  close_booking_requests, enqueue_calendar_sync,
}

abbrev pub takes_part : String → BookingForCancellation → Bool
takes_part user_id b = str_eq b.buyer_user_id user_id || str_eq b.seller_user_id user_id

unfoldable pub lock_participant_booking : String → String → Tx BookingForCancellation
lock_participant_booking booking_id user_id = do
  b ← lock_booking_for_cancellation booking_id
  guard (takes_part user_id b) no_rows
  pure b

abbrev pub refund_reason : String → String
refund_reason role = if str_eq role "seller" then "seller_cancelled" else "buyer_cancelled"

-- The refund's id, where something is refunded.
unfoldable pub refund_cancelled :
    Settings → Runtime → BookingForCancellation → String → ℤ → Option String → Tx (Option String)
refund_cancelled env rt b role refund actor =
    if ltb_ℤ (pos 0) refund
    then create_refund env rt b refund (refund_reason role) actor
    else pure none

-- The event of one of the two people.
unfoldable pub tell_cancelled : BookingForCancellation → String → String → Option String → Tx Unit0
tell_cancelled b user kind refund_id =
    enqueue_booking_event b.booking_id user kind
      (text_append (text_append b.booking_id ":cancelled:") kind) refund_id

unfoldable pub apply_cancellation :
    Settings → Runtime → BookingForCancellation → String → String → ℤ → Option String → Tx Unit0
apply_cancellation env rt b role reason refund actor = do
  mark_booking_cancelled role (nullable_string reason) b.booking_id
  release_booking_slot b.booking_id
  cancel_upcoming_booking_mail env "BOOKING_CANCELLED" b.booking_id
  close_booking_requests "Closed because the booking was cancelled." b.booking_id
  refund_id ← refund_cancelled env rt b role refund actor
  tell_cancelled b b.buyer_user_id "booking_cancelled_buyer" refund_id
  tell_cancelled b b.seller_user_id "booking_cancelled_seller" refund_id
  enqueue_calendar_sync b.booking_id

-- What the handler does in its transaction, for the refund that the caller agreed to.
unfoldable pub cancel_agreed : Settings → Runtime → String → String → String → ℤ → Tx ℤ
cancel_agreed env rt user_id booking_id reason expected = do
  b ← lock_participant_booking booking_id user_id
  now ← clock
  let preview = preview_cancellation b user_id now
  guard preview.can_cancel (cancellation_unavailable preview.reason)
  guard (eqb_ℤ expected preview.refund_minor) refund_changed
  apply_cancellation env rt b preview.role (env.trim_space reason) preview.refund_minor
      (some user_id)
  pure preview.refund_minor

-- The refund, or the refusal.
unfoldable pub cancel_booking : Settings → Runtime → String → String → String → Option ℤ → Tx ℤ
cancel_booking env rt user_id booking_id reason none = fail invalid_cancellation
cancel_booking env rt user_id booking_id reason (some expected) =
    if ltb 500 (len reason)
    then fail invalid_cancellation
    else in_transaction (cancel_agreed env rt user_id booking_id reason expected)
