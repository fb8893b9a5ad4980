-- ===== src/Cancellation/Statements.antt =====
-- refunds.sql.go and calendar.sql.go: the statements of a cancellation.
use wantmytime.Prelude.{
  ◌++◌, Bool, ◌&&◌, ◌||◌, false, String, str_eq, Option, some, none, List, [], ◌∷◌, Unit0,
  if◌then◌else◌, min,
}
use wantmytime.Prelude.Int64.{pos, add64}
use wantmytime.Prelude.Time.{Time}
use wantmytime.Store.Schema.{
  Db, Booking, SlotReservation, NotificationOutbox, CalendarConnection, CalendarJob,
}
use wantmytime.Store.Monad.{Tx, exec}
use wantmytime.Refunds.Statements.{update_where, any, text_or_empty}
use wantmytime.Refunds.Create.{Settings}

abbrev pub cancelled_booking : String → Option String → Time → Booking → Booking
cancelled_booking role reason t b = record b {
  state = "cancelled";
  cancelled_at = some t;
  cancelled_by_role = some role;
  cancellation_reason = reason;
}

unfoldable pub mark_booking_cancelled : String → Option String → String → Tx Unit0
mark_booking_cancelled role reason booking_id = exec (λ t d. record d {
  bookings =
      update_where (λ b. str_eq b.id booking_id && str_eq b.state "confirmed")
        (cancelled_booking role reason t) d.bookings;
})

abbrev pub holds_slot : String → SlotReservation → Bool
holds_slot booking_id r = str_eq (text_or_empty r.booking_id) booking_id && r.active

unfoldable pub release_booking_slot : String → Tx Unit0
release_booking_slot booking_id = exec (λ t d. record d {
  slot_reservations =
      update_where (holds_slot booking_id) (λ r. record r { active = false }) d.slot_reservations;
})

-- Emails about the booking that has not taken place.
abbrev is_upcoming_mail : Settings → String → NotificationOutbox → Bool
is_upcoming_mail env booking_id n =
    str_eq (text_or_empty n.booking_id) booking_id
    && str_eq n.state "queued"
    && (env.like n.kind "booking_reminder_%"
        || env.like n.kind "meeting_link_due_%"
        || str_eq n.kind "review_request_buyer"
        || str_eq n.kind "meeting_link_ready_buyer")

unfoldable pub cancel_upcoming_booking_mail : Settings → String → String → Tx Unit0
cancel_upcoming_booking_mail env reason_code booking_id = exec (λ t d. record d {
  notification_outbox =
      update_where (is_upcoming_mail env booking_id)
        (λ n. record n {
          state = "cancelled";
          claimed_at = none;
          last_error_code = some reason_code;
        })
        d.notification_outbox;
})

unfoldable pub close_booking_requests : String → String → Tx Unit0
close_booking_requests resolution booking_id = exec (λ t d. record d {
  cancellation_requests =
      update_where (λ r. str_eq r.booking_id booking_id && str_eq r.state "open")
        (λ r. record r { state = "resolved"; resolution = some resolution; resolved_at = some t })
        d.cancellation_requests;
  reschedule_requests =
      update_where (λ r. str_eq r.booking_id booking_id && str_eq r.state "pending")
        (λ r. record r { state = "expired"; version = add64 r.version (pos 1) })
        d.reschedule_requests;
})

-- The connection takes events or makes links for the seller.
abbrev serves : String → CalendarConnection → Bool
serves seller_id c =
    str_eq c.seller_id seller_id
    && (str_eq c.status "active" || str_eq c.status "error")
    && (c.add_events || c.create_meet_links)

abbrev is_queued_for : String → CalendarJob → Bool
is_queued_for booking_id j = str_eq j.booking_id booking_id && str_eq j.state "queued"

-- The booking is there and its seller has a connection.
abbrev syncs : String → Db → Bool
syncs booking_id d =
    any (λ (b : Booking). str_eq b.id booking_id && any (serves b.seller_id) d.calendar_connections)
      d.bookings

-- INSERT … ON CONFLICT (booking_id) WHERE state = 'queued' DO UPDATE SET due_at = LEAST(due_at, now())
abbrev queue_job : String → Time → List CalendarJob → List CalendarJob
queue_job booking_id t jobs =
    if any (is_queued_for booking_id) jobs
    then update_where (is_queued_for booking_id) (λ j. record j { due_at = min j.due_at t }) jobs
    else jobs ++ (record { booking_id = booking_id; state = "queued"; due_at = t } ∷ [])

unfoldable pub enqueue_calendar_sync : String → Tx Unit0
enqueue_calendar_sync booking_id = exec (λ t d.
    if syncs booking_id d
    then record d { calendar_jobs = queue_job booking_id t d.calendar_jobs }
    else d)
