-- ===== src/Payments/Outbound.antt =====
-- What a verified charge sends, gives back or holds again leaves the ledger alone (notifications.go,
-- unbooked.go and payment_processing.go).
use wantmytime.Prelude.{
  ℕ, Bool, String, Option, none, some, List, [], ◌∷◌, arith, ◌+◌, Option-cases, inl, inr,
}
use wantmytime.Prelude.Int64.{ℤ}
use wantmytime.Prelude.Time.{Time}
use wantmytime.Store.Schema.{SlotReservation, SellerProfile, RefundState}
use wantmytime.Store.Monad.{Tx, Result, ok, err, Session, exclusion_violation}
use wantmytime.Store.Logic.{either}
use wantmytime.Store.Always.{
  Always-bind, Always-select, Always-exec, Always-if, Always-pure, Always-clock,
  Always-in_transaction,
}
use wantmytime.Ledger.Journal.{Runtime}
use wantmytime.Ledger.Posting.{LedgerIsBalanced}
use wantmytime.Refunds.Create.{Settings}
use wantmytime.Refunds.Unbooked.{enqueue_exception_email}
use wantmytime.Cancellation.Statements.{enqueue_calendar_sync}
use wantmytime.Availability.Zone.{Zone, Zones}
use wantmytime.Availability.Scheduled.{
  LocalTime, in_zone, or_false, check_windows, check_scheduled, valid_scheduled_time,
  override_windows,
}
use wantmytime.Payments.Keeps.{Keeps, query-Keeps, try_query-Keeps, read_row-Keeps}
use wantmytime.Payments.Late.{
  revive_hold, insert_hold, extend_quote, take_slot, taken_is_false, hold_again, in_hours,
  reclaim_free_slot, find_late_seller, reclaim_late_slot, save_reservations,
}
use wantmytime.Payments.Returned.{
  insert_returned_refund, await_provider, tell_buyer, return_to, return_unbooked_payment,
}
use wantmytime.Payments.Notices.{
  Participants, Reminder, booking_participants, enqueue_notification, enqueue_push,
  enqueue_reminders, find_booking_row, enqueue_booking_reminders, enqueue_booking_notifications,
}

enqueue_notification-Keeps :
    (booking_id recipient kind event_key : String) (due : Time)
    → Keeps (enqueue_notification booking_id recipient kind event_key due)
unfolding enqueue_notification
enqueue_notification-Keeps booking_id recipient kind event_key due =
    Always-exec _ (λ t d p. either LedgerIsBalanced _ p p)

enqueue_push-Keeps :
    (booking_id user_id kind event_key : String) (due : Time)
    → Keeps (enqueue_push booking_id user_id kind event_key due)
unfolding enqueue_push
enqueue_push-Keeps booking_id user_id kind event_key due =
    Always-exec _ (λ t d p. either LedgerIsBalanced _ p p)

enqueue_calendar_sync-Keeps : (booking_id : String) → Keeps (enqueue_calendar_sync booking_id)
unfolding enqueue_calendar_sync
enqueue_calendar_sync-Keeps booking_id = Always-exec _ (λ t d p. either LedgerIsBalanced _ p p)

enqueue_exception_email-Keeps :
    (exception_id recipient kind : String)
    → Keeps (enqueue_exception_email exception_id recipient kind)
unfolding enqueue_exception_email
enqueue_exception_email-Keeps exception_id recipient kind =
    Always-exec _ (λ t d p. either LedgerIsBalanced _ p p)

enqueue_reminders-Keeps :
    (booking_id stamp : String) (p : Participants) (l : List Reminder)
    → Keeps (enqueue_reminders booking_id stamp p l)
unfolding enqueue_reminders
enqueue_reminders-Keeps booking_id stamp p [] = Always-pure
enqueue_reminders-Keeps booking_id stamp p (r ∷ l) =
    Always-bind (enqueue_notification-Keeps _ _ _ _ _)
      (λ _. enqueue_reminders-Keeps booking_id stamp p l)

enqueue_booking_reminders-Keeps :
    (rfc3339 : Time → String) (booking_id : String) (p : Participants)
    → Keeps (enqueue_booking_reminders rfc3339 booking_id p)
unfolding enqueue_booking_reminders find_booking_row
enqueue_booking_reminders-Keeps rfc3339 booking_id p =
    Always-bind Always-clock
      (λ now. Always-bind (read_row-Keeps _) (λ b. enqueue_reminders-Keeps booking_id _ p _))

pub enqueue_booking_notifications-Keeps :
    (rfc3339 : Time → String) (booking_id : String)
    → Keeps (enqueue_booking_notifications rfc3339 booking_id)
unfolding enqueue_booking_notifications booking_participants
enqueue_booking_notifications-Keeps rfc3339 booking_id = Always-bind (read_row-Keeps _) (λ p.
    Always-bind Always-clock (λ now. Always-bind (enqueue_notification-Keeps _ _ _ _ _) (λ _.
      Always-bind (enqueue_notification-Keeps _ _ _ _ _) (λ _.
        Always-bind (enqueue_push-Keeps _ _ _ _ _) (λ _.
          Always-bind (enqueue_calendar_sync-Keeps _)
            (λ _. enqueue_booking_reminders-Keeps rfc3339 booking_id p))))))

insert_returned_refund-Keeps :
    (rt : Runtime) (exception_id attempt_id : String) (amount : ℤ) (currency : String)
    (state : RefundState)
    → Keeps (insert_returned_refund rt exception_id attempt_id amount currency state)
unfolding insert_returned_refund
insert_returned_refund-Keeps rt exception_id attempt_id amount currency state =
    query-Keeps _ (λ t d. ground arith)

await_provider-Keeps :
    (exception_id resolution : String) → Keeps (await_provider exception_id resolution)
unfolding await_provider
await_provider-Keeps exception_id resolution = Always-exec _ (λ t d p. p)

tell_buyer-Keeps :
    (exception_id buyer_id : String) (refund_id : Option String)
    → Keeps (tell_buyer exception_id buyer_id refund_id)
tell_buyer-Keeps exception_id buyer_id none = Always-pure
tell_buyer-Keeps exception_id buyer_id (some refund_id) =
    Always-bind (await_provider-Keeps _ _) (λ _. enqueue_exception_email-Keeps _ _ _)

return_to-Keeps :
    (env : Settings) (rt : Runtime) (attempt_id : String) (amount : ℤ) (currency : String)
    (found : Option (String × String))
    → Keeps (return_to env rt attempt_id amount currency found)
return_to-Keeps env rt attempt_id amount currency none = Always-pure
return_to-Keeps env rt attempt_id amount currency (some (exception_id, buyer_id)) =
    Always-bind (insert_returned_refund-Keeps rt _ _ _ _ _)
      (λ refund_id. tell_buyer-Keeps exception_id buyer_id refund_id)

pub return_unbooked_payment-Keeps :
    (env : Settings) (rt : Runtime) (attempt_id kind : String) (amount : ℤ) (currency : String)
    → Keeps (return_unbooked_payment env rt attempt_id kind amount currency)
unfolding return_unbooked_payment
return_unbooked_payment-Keeps env rt attempt_id kind amount currency = Always-if _ Always-pure (
    Always-bind (Always-select _)
      (λ found. return_to-Keeps env rt attempt_id amount currency found))

-- or_false and taken_is_false change the answer alone.
or_false-kept :
    (r : Result Bool × Session) → LedgerIsBalanced r.1.db → LedgerIsBalanced (or_false r).1.db
or_false-kept (ok b, s) p = p
or_false-kept (err e, s) p = p

taken_is_false-kept :
    (r : Result Bool × Session) → LedgerIsBalanced r.1.db → LedgerIsBalanced (taken_is_false r).1.db
taken_is_false-kept (ok b, s) p = p
taken_is_false-kept (err exclusion_violation, s) p = p
taken_is_false-kept (err e, s) p = p

override_windows-Keeps :
    (o : Option (List (String × String))) {m : Tx (List (String × String))}
    → Keeps m
    → Keeps (override_windows o m)
override_windows-Keeps none h = h
override_windows-Keeps (some ws) h = Always-pure

check_windows-Keeps :
    (seller_id : String) (zone : Zone) (zone_name : String) (local : LocalTime) (length_minutes : ℕ)
    (start : Time)
    → Keeps (check_windows seller_id zone zone_name local length_minutes start)
unfolding check_windows
check_windows-Keeps seller_id zone zone_name local length_minutes start =
    Always-bind (Always-select _) (λ override.
      Always-if _ Always-pure
        (Always-bind (override_windows-Keeps _ (Always-select _)) (λ windows. Always-pure)))

valid_scheduled_time-Keeps :
    (zones : Zones) (seller_id zone_name : String) (local : LocalTime) (start : Time)
    (length_minutes : ℕ) (ignore : Option String)
    → Keeps (valid_scheduled_time zones seller_id zone_name local start length_minutes ignore)
unfolding valid_scheduled_time check_scheduled
valid_scheduled_time-Keeps zones seller_id zone_name local start length_minutes ignore = record {
  run = λ s p. elim (Option-cases (zones zone_name)) [
    | inl n ↦ rw (valid_scheduled_time, n) p
    | inr (zone, e) ↦ rw (valid_scheduled_time, e) (or_false-kept _ ((checked zone).run s p))
  ];
}
  where
    checked :
        (zone : Zone)
        → Keeps (check_scheduled seller_id zone zone_name local start length_minutes ignore)
    checked zone =
        Always-bind (Always-select _)
          (λ conflict. Always-if _ Always-pure (check_windows-Keeps _ zone _ local _ start))

take_slot-Keeps :
    (quote_id : String) (hold : SlotReservation) (until : Time)
    → Keeps (take_slot quote_id hold until)
unfolding take_slot revive_hold insert_hold extend_quote save_reservations
take_slot-Keeps quote_id hold until =
    Always-bind (try_query-Keeps _ (λ t d. ground arith)) (λ revived.
      Always-bind (Always-if _ Always-pure (try_query-Keeps _ (λ t d. ground arith)))
        (λ _. Always-bind (Always-exec _ (λ t d p. p)) (λ _. Always-pure)))

hold_again-Keeps :
    (quote_id seller_id : String) (starts : Time) (length_minutes : ℕ)
    → Keeps (hold_again quote_id seller_id starts length_minutes)
unfolding hold_again
hold_again-Keeps quote_id seller_id starts length_minutes = record {
  run =
      λ s p. taken_is_false-kept _ ((Always-in_transaction (take_slot-Keeps quote_id _ _)).run s p);
}

in_hours-Keeps :
    (zones : Zones) (sp : SellerProfile) (starts : Time) (duration : ℕ)
    → Keeps (in_hours zones sp starts duration)
in_hours-Keeps zones sp starts duration = record {
  run = λ s p. elim (Option-cases (zones sp.timezone)) [
    | inl n ↦ rw (in_hours, n) p
    | inr (zone, e) ↦
        rw (in_hours, e)
          ((valid_scheduled_time-Keeps zones sp.id sp.timezone (in_zone zone starts) starts
              (duration + sp.buffer_minutes) none).run
            s p)
  ];
}

pub reclaim_late_slot-Keeps :
    (zones : Zones) (quote_id seller_id : String) (starts : Time) (duration : ℕ)
    → Keeps (reclaim_late_slot zones quote_id seller_id starts duration)
unfolding reclaim_late_slot find_late_seller reclaim_free_slot
reclaim_late_slot-Keeps zones quote_id seller_id starts duration = Always-bind Always-clock (λ now.
    Always-if _ Always-pure (
      Always-bind (read_row-Keeps _) (λ sp.
        Always-bind (in_hours-Keeps zones sp starts duration)
          (λ valid. Always-if _ (hold_again-Keeps _ _ _ _) Always-pure))))
