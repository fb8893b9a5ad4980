-- ===== src/Payments/Notices.antt =====
-- notifications.go, enqueueBookingNotifications and enqueueBookingReminders, with enqueuePush
-- (push.go): what is sent about a new booking, and when.
use Prim.Native.String.{◌++◌ as text_append}
use wantmytime.Prelude.{
  ◌+◌, ◌*◌, ◌-◌, not, ◌||◌, Bool, true, false, String, str_eq, Option, none, some, List, [], ◌∷◌,
  ◌++◌, find, Unit0, if◌then◌else◌,
}
use wantmytime.Prelude.Int64.{ℤ, pos_part}
use wantmytime.Prelude.Time.{Time, minute, hour, after}
use wantmytime.Prelude.Tables.{any}
use wantmytime.Store.Schema.{
  Db, Booking, SellerProfile, NotificationOutbox, PushOutbox, PushSubscription,
}
use wantmytime.Store.Monad.{Tx, ◌>>=◌, ◌>>◌, pure, clock, select, exec, one_row}
use wantmytime.Refunds.Statements.{is_booking}
use wantmytime.Cancellation.Statements.{enqueue_calendar_sync}

pub record Participants : Type 0 where
  pub buyer_id : String
  pub seller_id : String
  pub starts_at : Time

unfoldable pub find_participants : String → Db → Option Participants
find_participants booking_id d = elim (find (is_booking booking_id) d.bookings) [
  | none ↦ none
  | some b ↦ elim (find (λ (sp : SellerProfile). str_eq sp.id b.seller_id) d.seller_profiles) [
    | none ↦ none
    | some sp ↦
        some
          (record { buyer_id = b.buyer_user_id; seller_id = sp.user_id; starts_at = b.starts_at })
  ]
]

unfoldable pub booking_participants : String → Tx Participants
booking_participants booking_id = do
  row ← select (λ t d. find_participants booking_id d)
  one_row row

-- INSERT … ON CONFLICT (event_key) DO NOTHING
unfoldable pub enqueue_notification : String → String → String → String → Time → Tx Unit0
enqueue_notification booking_id recipient kind event_key due = exec (λ t d.
    if any (λ (n : NotificationOutbox). str_eq n.event_key event_key) d.notification_outbox
    then d
    else record d {
      notification_outbox =
          d.notification_outbox
          ++ (record {
            event_key = event_key;
            booking_id = some booking_id;
            recipient_user_id = recipient;
            kind = kind;
            due_at = due;
            state = "queued";
            claimed_at = none;
            last_error_code = none;
            reference_id = none;
            payment_exception_id = none;
          }
              ∷ []);
    })

-- Only to a user with a subscription.
unfoldable pub enqueue_push : String → String → String → String → Time → Tx Unit0
enqueue_push booking_id user_id kind event_key due = exec (λ t d.
    if not (any (λ (p : PushSubscription). str_eq p.user_id user_id) d.push_subscriptions)
      || any (λ (p : PushOutbox). str_eq p.event_key event_key) d.push_outbox
    then d
    else record d {
      push_outbox =
          d.push_outbox
          ++ (record {
            event_key = event_key;
            user_id = user_id;
            booking_id = some booking_id;
            kind = kind;
            due_at = due;
          }
              ∷ []);
    })

-- An email: its kind, to whom, and when.
pub record Reminder : Type 0 where
  pub kind : String
  pub to_seller : Bool
  pub due : Time

-- The emails of one delay before the start, while their time is still to come.
abbrev when_ahead : Time → Time → List Reminder → List Reminder
when_ahead due now l = if after due now then l else []

abbrev reminders_at : Time → Time → String → String → List Reminder
reminders_at due now buyer_kind seller_kind = when_ahead due now (
    record { kind = buyer_kind; to_seller = false; due = due }
    ∷ record { kind = seller_kind; to_seller = true; due = due }
    ∷ [])

abbrev link_due_at : Time → Time → String → List Reminder
link_due_at due now kind =
    when_ahead due now (record { kind = kind; to_seller = true; due = due } ∷ [])

unfoldable pub booking_reminders : Time → Time → ℤ → List Reminder
booking_reminders now starts duration =
    reminders_at (starts - 24 * hour) now "booking_reminder_24h_buyer" "booking_reminder_24h_seller"
    ++ reminders_at (starts - hour) now "booking_reminder_1h_buyer" "booking_reminder_1h_seller"
    ++ link_due_at (starts - 24 * hour) now "meeting_link_due_24h_seller"
    ++ link_due_at (starts - 2 * hour) now "meeting_link_due_2h_seller"
    ++ (record {
      kind = "review_request_buyer";
      to_seller = false;
      due = starts + pos_part duration * minute + hour;
    }
        ∷ [])

-- `stamp` is the start in the format time.RFC3339.
unfoldable pub enqueue_reminders : String → String → Participants → List Reminder → Tx Unit0
enqueue_reminders booking_id stamp p [] = pure tt
enqueue_reminders booking_id stamp p (r ∷ l) = do
  enqueue_notification booking_id (if r.to_seller then p.seller_id else p.buyer_id) r.kind
      (text_append (text_append (text_append (text_append booking_id ":") r.kind) ":") stamp) r.due
  enqueue_reminders booking_id stamp p l

unfoldable pub find_booking_row : String → Tx Booking
find_booking_row booking_id = do
  row ← select (λ t d. find (is_booking booking_id) d.bookings)
  one_row row

unfoldable pub enqueue_booking_reminders : (Time → String) → String → Participants → Tx Unit0
enqueue_booking_reminders rfc3339 booking_id p = do
  now ← clock
  b ← find_booking_row booking_id
  enqueue_reminders booking_id (rfc3339 p.starts_at) p
      (booking_reminders now p.starts_at b.duration_minutes)

unfoldable pub enqueue_booking_notifications : (Time → String) → String → Tx Unit0
enqueue_booking_notifications rfc3339 booking_id = do
  p ← booking_participants booking_id
  now ← clock
  enqueue_notification booking_id p.buyer_id "booking_confirmed_buyer"
      (text_append booking_id ":booking-confirmed:buyer") now
  enqueue_notification booking_id p.seller_id "booking_confirmed_seller"
      (text_append booking_id ":booking-confirmed:seller") now
  enqueue_push booking_id p.seller_id "new_booking_seller"
      (text_append booking_id ":push:new-booking") now
  enqueue_calendar_sync booking_id
  enqueue_booking_reminders rfc3339 booking_id p
