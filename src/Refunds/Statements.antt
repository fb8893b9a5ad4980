-- ===== src/Refunds/Statements.antt =====
-- refunds.sql.go: the statements on refunds, one function on the tables for each.
use wantmytime.Prelude.{
  ℕ, suc, ◌+◌, ◌*◌, ◌++◌, Bool, not, ◌&&◌, ◌||◌, String, str_eq, Option, none, some, [], ◌∷◌, find,
  Unit0, ◌==◌, if◌then◌else◌,
}
use wantmytime.Prelude.Int64.{ℤ, pos, ◌+ℤ◌, ltb_ℤ, leb_ℤ, eqb_ℤ}
use wantmytime.Prelude.Time.{Time, second}
use wantmytime.Store.Schema.{
  Db, Refund, RefundState, pending_approval, queued, submitted, processed, failed, not_required,
  Booking, SellerProfile, PaymentAllocation, PaymentAttempt, SellerRecovery, NotificationOutbox,
}
use wantmytime.Store.Monad.{
  Tx, ◌>>=◌, select, exec, one_row, try_query, Result, ok, err, database_error, unique_violation,
}
use wantmytime.Ledger.Journal.{Runtime}
pub use wantmytime.Prelude.Tables.{any, update_where}

abbrev state_number : RefundState → ℕ
state_number pending_approval = 0
state_number queued = 1
state_number submitted = 2
state_number processed = 3
state_number failed = 4
state_number not_required = 5

abbrev pub has_state : RefundState → RefundState → Bool
has_state a b = state_number a == state_number b

-- COALESCE(v, old)
abbrev pub coalesce : {A : Type 0} → Option A → Option A → Option A
coalesce none old = old
coalesce (some v) old = some v

abbrev pub text_or_empty : Option String → String
text_or_empty none = ""
text_or_empty (some s) = s

-- A row of LockBookingForCancellation: the booking with its seller, its allocation and its verified
-- payment.
pub record BookingForCancellation : Type 0 where
  pub booking_id : String
  pub state : String
  pub payment_state : String
  pub starts_at : Time
  pub created_at : Time
  pub duration_minutes : ℤ
  pub gross_minor : ℤ
  pub currency : String
  pub buyer_user_id : String
  pub seller_user_id : String
  pub seller_id : String
  pub deduction_minor : ℤ
  pub payment_attempt_id : String
  pub buyer_fee_minor : ℤ

abbrev is_paid_attempt : String → PaymentAttempt → Bool
is_paid_attempt id a = str_eq (text_or_empty a.booking_id) id && str_eq a.canonical_state "success"

abbrev deduction_of : Option PaymentAllocation → ℤ
deduction_of none = pos 0
deduction_of (some a) = a.deduction_minor

abbrev attempt_of : Option PaymentAttempt → String × ℤ
attempt_of none = ("", pos 0)
attempt_of (some a) = (a.id, a.buyer_fee_minor)

unfoldable pub joined_booking : Db → Booking → SellerProfile → BookingForCancellation
joined_booking d b sp =
    let attempt = attempt_of (find (is_paid_attempt b.id) d.payment_attempts) in
    record {
      booking_id = b.id;
      state = b.state;
      payment_state = b.payment_state;
      starts_at = b.starts_at;
      created_at = b.created_at;
      duration_minutes = b.duration_minutes;
      gross_minor = b.gross_minor;
      currency = b.currency;
      buyer_user_id = b.buyer_user_id;
      seller_user_id = sp.user_id;
      seller_id = sp.id;
      deduction_minor = deduction_of (find (λ a. str_eq a.booking_id b.id) d.payment_allocations);
      payment_attempt_id = attempt.0;
      buyer_fee_minor = attempt.1;
    }

unfoldable pub find_booking : Db → String → Option BookingForCancellation
unfolding joined_booking
find_booking d id = elim (find (λ (b : Booking). str_eq b.id id) d.bookings) [
  | none ↦ none
  | some b ↦ elim (find (λ (sp : SellerProfile). str_eq sp.id b.seller_id) d.seller_profiles) [
    | none ↦ none
    | some sp ↦ some (joined_booking d b sp)
  ]
]

unfoldable pub lock_booking_for_cancellation : String → Tx BookingForCancellation
unfolding find_booking
lock_booking_for_cancellation id = do row ← select (λ t d. find_booking d id); one_row row

-- The parameters of CreateRefund.
pub record CreateRefundParams : Type 0 where
  pub booking_id : String
  pub payment_attempt_id : Option String
  pub amount_minor : ℤ
  pub currency : String
  pub platform_share_minor : ℤ
  pub seller_share_minor : ℤ
  pub reason : String
  pub state : RefundState
  pub requested_by : Option String
  pub note : Option String
  pub seller_liability : String

-- A refund of the booking that has not failed: the unique index refunds_one_per_booking.
abbrev pub is_live_for : String → Refund → Bool
is_live_for booking_id r =
    str_eq (text_or_empty r.booking_id) booking_id && not (has_state r.state failed)

-- The check constraint platform_share_minor + seller_share_minor = amount_minor and the signs.
abbrev pub shares_allowed : ℤ → ℤ → ℤ → Bool
shares_allowed amount platform seller =
    ltb_ℤ (pos 0) amount
    && leb_ℤ (pos 0) platform
    && leb_ℤ (pos 0) seller
    && eqb_ℤ (platform +ℤ seller) amount

abbrev pub new_refund : Runtime → Time → ℕ → CreateRefundParams → Refund
new_refund rt t draws p = record {
  id = rt.random_uuid draws;
  booking_id = some p.booking_id;
  payment_attempt_id = p.payment_attempt_id;
  amount_minor = p.amount_minor;
  currency = p.currency;
  platform_share_minor = p.platform_share_minor;
  seller_share_minor = p.seller_share_minor;
  reason = p.reason;
  state = p.state;
  provider_refund_id = none;
  attempts = pos 0;
  next_attempt_at = t;
  last_error = none;
  requested_by = p.requested_by;
  approved_by = none;
  note = p.note;
  submitted_at = none;
  processed_at = none;
  seller_liability = p.seller_liability;
  payment_exception_id = none;
}

unfoldable pub create_refund_row : Runtime → CreateRefundParams → Time → Db → Result String × Db
create_refund_row rt p t d =
    if not (shares_allowed p.amount_minor p.platform_share_minor p.seller_share_minor)
    then (err database_error, d)
    else if any (is_live_for p.booking_id) d.refunds
    then (err unique_violation, d)
    else (
      ok (rt.random_uuid d.draws),
      record d { draws = suc d.draws; refunds = d.refunds ++ (new_refund rt t d.draws p ∷ []) },
    )

unfoldable pub insert_refund : Runtime → CreateRefundParams → Tx String
unfolding create_refund_row
insert_refund rt p = try_query (create_refund_row rt p)

-- The rows of refunds that the `WHERE` of a statement picks, changed by its `SET`.
abbrev on_refunds : (Refund → Bool) → (Refund → Refund) → Db → Db
on_refunds p f d = record d { refunds = update_where p f d.refunds }

abbrev pub is_open : Refund → Bool
is_open r = has_state r.state queued || has_state r.state submitted

unfoldable pub mark_refund_failed : String → String → Tx Unit0
mark_refund_failed last_error id = exec (λ t.
    on_refunds (λ r. str_eq r.id id && (is_open r || has_state r.state pending_approval))
      (λ r. record r { state = failed; last_error = some last_error }))

unfoldable pub mark_refund_processed : Option String → Option String → String → Tx Unit0
mark_refund_processed note approved_by id = exec (λ t.
    on_refunds (λ r. str_eq r.id id)
      (λ r. record r {
        state = processed;
        processed_at = some t;
        note = coalesce note r.note;
        approved_by = coalesce approved_by r.approved_by;
      }))

unfoldable pub mark_refund_submitted : String → ℕ → Option String → String → Tx Unit0
mark_refund_submitted provider_refund_id poll_seconds last_error id = exec (λ t.
    on_refunds (λ r. str_eq r.id id && is_open r)
      (λ r. record r {
        state = submitted;
        provider_refund_id = some provider_refund_id;
        submitted_at = coalesce r.submitted_at (some t);
        next_attempt_at = t + poll_seconds * second;
        last_error = last_error;
      }))

unfoldable pub retry_refund_later : ℕ → String → String → Tx Unit0
retry_refund_later retry_seconds last_error id = exec (λ t.
    on_refunds (λ r. str_eq r.id id && is_open r)
      (λ r. record r {
        next_attempt_at = t + retry_seconds * second;
        last_error = some last_error;
      }))

unfoldable pub nudge_refund_by_provider_id : String → Tx Unit0
nudge_refund_by_provider_id provider_refund_id = exec (λ t.
    on_refunds
      (λ r.
        str_eq (text_or_empty r.provider_refund_id) provider_refund_id
        && has_state r.state submitted)
      (λ r. record r { next_attempt_at = t }))

-- A row of LockRefundForFinalize: the refund with its booking.
pub record RefundForFinalize : Type 0 where
  pub id : String
  pub state : RefundState
  pub seller_liability : String
  pub amount_minor : ℤ
  pub currency : String
  pub platform_share_minor : ℤ
  pub seller_share_minor : ℤ
  pub booking_id : String
  pub seller_id : String
  pub gross_minor : ℤ
  pub payment_state : String
  pub buyer_user_id : String

abbrev pub joined_refund : Refund → Booking → RefundForFinalize
joined_refund r b = record {
  id = r.id;
  state = r.state;
  seller_liability = r.seller_liability;
  amount_minor = r.amount_minor;
  currency = r.currency;
  platform_share_minor = r.platform_share_minor;
  seller_share_minor = r.seller_share_minor;
  booking_id = b.id;
  seller_id = b.seller_id;
  gross_minor = b.gross_minor;
  payment_state = b.payment_state;
  buyer_user_id = b.buyer_user_id;
}

abbrev pub is_refund : String → Refund → Bool
is_refund id r = str_eq r.id id

abbrev pub is_booking : String → Booking → Bool
is_booking id b = str_eq b.id id

unfoldable pub find_refund_for_finalize : Db → String → Option RefundForFinalize
find_refund_for_finalize d id = elim (find (is_refund id) d.refunds) [
  | none ↦ none
  | some r ↦ elim (find (is_booking (text_or_empty r.booking_id)) d.bookings) [
    | none ↦ none
    | some b ↦ some (joined_refund r b)
  ]
]

unfoldable pub lock_refund_for_finalize : String → Tx RefundForFinalize
unfolding find_refund_for_finalize
lock_refund_for_finalize id = do row ← select (λ t d. find_refund_for_finalize d id); one_row row

-- INSERT … ON CONFLICT (refund_id) DO NOTHING
unfoldable pub insert_seller_recovery : Runtime → String → String → ℤ → String → Tx Unit0
insert_seller_recovery rt seller_id refund_id amount currency = exec (λ t d.
    if any (λ (s : SellerRecovery). str_eq s.refund_id refund_id) d.seller_recoveries
    then d
    else record d {
      draws = suc d.draws;
      seller_recoveries =
          d.seller_recoveries
          ++ (record {
            id = rt.random_uuid d.draws;
            seller_id = seller_id;
            refund_id = refund_id;
            amount_minor = amount;
            recovered_minor = pos 0;
            currency = currency;
          }
              ∷ []);
    })

unfoldable pub set_booking_payment_state : String → String → Tx Unit0
set_booking_payment_state payment_state booking_id = exec (λ t d. record d {
  bookings =
      update_where (is_booking booking_id) (λ b. record b { payment_state = payment_state })
        d.bookings;
})

-- INSERT … ON CONFLICT (event_key) DO NOTHING
unfoldable pub enqueue_booking_event : String → String → String → String → Option String → Tx Unit0
enqueue_booking_event booking_id recipient kind event_key reference_id = exec (λ t d.
    if any (λ (n : NotificationOutbox). str_eq n.event_key event_key) d.notification_outbox
    then d
    else record d {
      notification_outbox =
          d.notification_outbox
          ++ (record {
            event_key = event_key;
            booking_id = some booking_id;
            recipient_user_id = recipient;
            kind = kind;
            due_at = t;
            state = "queued";
            claimed_at = none;
            last_error_code = none;
            reference_id = reference_id;
            payment_exception_id = none;
          }
              ∷ []);
    })
