-- ===== src/Refunds/Unbooked.antt =====
-- The refund of a payment that did not become a booking (unbooked.go, finalizeExceptionRefund), and
-- refunds.go, finalizeRefund, which chooses between it and the refund of a booking.
use Prim.Native.String.{◌++◌ as text_append}
use wantmytime.Prelude.{
  ◌++◌, Bool, true, false, not, ◌&&◌, String, str_eq, Option, none, some, [], ◌∷◌, find, Unit0,
  if◌then◌else◌,
}
use wantmytime.Store.Schema.{
  Db, Refund, RefundState, PaymentAttempt, Quote, PaymentException, NotificationOutbox, processed,
}
use wantmytime.Store.Monad.{Tx, ◌>>=◌, ◌>>◌, pure, select, exec, one_row, in_transaction}
use wantmytime.Ledger.Journal.{Runtime}
use wantmytime.Refunds.Statements.{
  update_where, any, has_state, is_refund, text_or_empty, mark_refund_processed,
}
use wantmytime.Refunds.Create.{Settings}
use wantmytime.Refunds.Finalize.{finalize_booking_refund}

-- The state of the refund, its exception and the buyer.
pub record UnbookedRefund : Type 0 where
  pub state : RefundState
  pub exception_id : String
  pub buyer_id : String

unfoldable pub find_unbooked_refund : Db → String → Option UnbookedRefund
find_unbooked_refund d id = elim (find (is_refund id) d.refunds) [
  | none ↦ none
  | some r ↦
      elim (find (λ (a : PaymentAttempt). str_eq a.id (text_or_empty r.payment_attempt_id))
        d.payment_attempts) [
          | none ↦ none
          | some a ↦ elim (find (λ (q : Quote). str_eq q.id (text_or_empty a.quote_id)) d.quotes) [
            | none ↦ none
            | some q ↦ some (record {
              state = r.state;
              exception_id = text_or_empty r.payment_exception_id;
              buyer_id = q.buyer_user_id;
            })
          ]
        ]
]

unfoldable pub resolve_exception : String → String → Tx Unit0
resolve_exception resolution id = exec (λ t d. record d {
  payment_exceptions =
      update_where (λ (e : PaymentException). str_eq e.id id && not (str_eq e.state "resolved"))
        (λ e. record e { state = "resolved"; resolution = some resolution; resolved_at = some t })
        d.payment_exceptions;
})

-- INSERT … ON CONFLICT (event_key) DO NOTHING
unfoldable pub enqueue_exception_email : String → String → String → Tx Unit0
enqueue_exception_email exception_id recipient kind =
    let event_key = text_append (text_append exception_id ":") kind in
    exec (λ t d.
      if any (λ (n : NotificationOutbox). str_eq n.event_key event_key) d.notification_outbox
      then d
      else record d {
        notification_outbox =
            d.notification_outbox
            ++ (record {
              event_key = event_key;
              booking_id = none;
              recipient_user_id = recipient;
              kind = kind;
              due_at = t;
              state = "queued";
              claimed_at = none;
              last_error_code = none;
              reference_id = none;
              payment_exception_id = some exception_id;
            }
                ∷ []);
      })

unfoldable pub finalize_exception_refund : String → Option String → Option String → Tx Unit0
finalize_exception_refund refund_id operator note = in_transaction do
  row ← select (λ t d. find_unbooked_refund d refund_id)
  r ← one_row row
  if has_state r.state processed then pure tt else do
    mark_refund_processed note operator refund_id
    resolve_exception
        (text_append (text_append "Refunded to the buyer in full (refund " refund_id) ").")
        r.exception_id
    enqueue_exception_email r.exception_id r.buyer_id "payment_returned_buyer"

abbrev pub is_given : Option String → Bool
is_given none = false
is_given (some s) = true

abbrev pub finalize_kind :
    Settings → Runtime → String → Option String → Option String → Refund → Tx Unit0
finalize_kind env rt refund_id operator note r =
    if is_given r.payment_exception_id
    then finalize_exception_refund refund_id operator note
    else finalize_booking_refund env rt refund_id operator note

unfoldable pub finalize_refund :
    Settings → Runtime → String → Option String → Option String → Tx Unit0
finalize_refund env rt refund_id operator note = do
  row ← select (λ t d. find (is_refund refund_id) d.refunds)
  r ← one_row row
  finalize_kind env rt refund_id operator note r
