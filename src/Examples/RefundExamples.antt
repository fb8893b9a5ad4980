-- ===== src/Examples/RefundExamples.antt =====
-- A booking at 500.00 with a fee of 5 % and a transfer fee of 1.00, cancelled by its seller.
use wantmytime.Prelude.{false, ℕ, ◌≡◌, refl, none, some, [], ◌∷◌, arith, true}
use wantmytime.Prelude.Int64.{pos}
use wantmytime.Store.Schema.{Refund, Booking, submitted, queued}
use wantmytime.Store.Monad.{Session, ok, in_transaction, finish, commit, query, select, exec}
use wantmytime.Ledger.Journal.{check_journal}
use wantmytime.Refunds.Statements.{
  BookingForCancellation, joined_refund, lock_refund_for_finalize, find_refund_for_finalize,
  mark_refund_processed, insert_seller_recovery, set_booking_payment_state, enqueue_booking_event,
}
use wantmytime.Refunds.Create.{Settings, RefundPlan, refund_plan}
use wantmytime.Refunds.Split.{Prices, IsFair, refund_plan-IsFair, refund_plan_seller_fault}
use wantmytime.Refunds.Finalize.{
  refund_lines, finalize_booking_refund, finish_refund, record_recovery, refunded_state,
  is_finished,
}
use wantmytime.Refunds.Journal.{MovesRefund, refund_lines-accepted}
use wantmytime.Refunds.Recorded.{finalize_refund_repeat}
use wantmytime.Refunds.Unbooked.{
  finalize_refund, finalize_exception_refund, find_unbooked_refund, resolve_exception,
  enqueue_exception_email,
}
use wantmytime.Examples.LedgerExamples.{rt, empty, journal_code}
use wantmytime.Examples.Rows.{attempt, held_quote}

abbrev pub env : Settings
env = record { trim_space = λ s. s; like = λ text pattern. false; refunds_enabled = true }

abbrev pub booking : BookingForCancellation
booking = record {
  booking_id = "b-1";
  state = "confirmed";
  payment_state = "paid";
  starts_at = 1_000;
  created_at = 10;
  duration_minutes = pos 30;
  gross_minor = pos 50_000;
  currency = "NGN";
  buyer_user_id = "u-1";
  seller_user_id = "u-2";
  seller_id = "s-1";
  deduction_minor = pos 2_500;
  payment_attempt_id = "a-1";
  buyer_fee_minor = pos 100;
}

booking-Prices : Prices booking 50_000 2_500 100
booking-Prices = record {
  gross = refl;
  deduction = refl;
  fee = refl;
  priced = omega arith;
  within = omega arith;
  fits = omega arith;
  product_fits = omega arith;
}

abbrev plan : RefundPlan
plan = record {
  amount = pos 50_100;
  platform = pos 2_600;
  seller = pos 47_500;
  state = queued;
  note = none;
}

refund_plan_seller_fault_example : refund_plan env booking (pos 50_000) "seller_cancelled" ≡ ok plan
refund_plan_seller_fault_example =
    refund_plan_seller_fault env booking 50_000 2_500 100 "seller_cancelled" booking-Prices refl
      refl refl refl

refund_plan-IsFair_example : IsFair 50_000 2_500 100 plan
refund_plan-IsFair_example =
    refund_plan-IsFair env booking 50_000 2_500 100 50_000 "seller_cancelled" booking-Prices
      (omega arith) refund_plan_seller_fault_example

abbrev refund : Refund
refund = record {
  id = "r-1";
  booking_id = some "b-1";
  payment_attempt_id = some "a-1";
  amount_minor = pos 50_100;
  currency = "NGN";
  platform_share_minor = pos 2_600;
  seller_share_minor = pos 47_500;
  reason = "seller_cancelled";
  state = submitted;
  provider_refund_id = some "wmt-refund-r1";
  attempts = pos 1;
  next_attempt_at = 0;
  last_error = none;
  requested_by = none;
  approved_by = none;
  note = none;
  submitted_at = some 5;
  processed_at = none;
  seller_liability = "receivable";
  payment_exception_id = none;
}

abbrev pub booked : Booking
booked = record {
  id = "b-1";
  seller_id = "s-1";
  buyer_user_id = "u-1";
  duration_minutes = pos 30;
  starts_at = 1_000;
  created_at = 10;
  gross_minor = pos 50_000;
  currency = "NGN";
  state = "cancelled";
  payment_state = "paid";
  cancelled_at = none;
  cancelled_by_role = none;
  cancellation_reason = none;
  quote_id = some "q-1";
  buyer_name = "Bayo";
  guest_email = "bayo@example.test";
  issue_reason = none;
  issue_resolved_at = none;
  issue_reported_by = none;
}

abbrev pub before : Session
before = record empty { db = record empty.db { refunds = refund ∷ []; bookings = booked ∷ [] } }

refund_lines-accepted_example :
    (check_journal "refund" "r-1" "NGN" (refund_lines (joined_refund refund booked)) ≡ ok tt)
    × MovesRefund
        (joined_refund refund booked)
        2_600
        47_500
        (refund_lines (joined_refund refund booked))
refund_lines-accepted_example =
    refund_lines-accepted (joined_refund refund booked) "NGN" 2_600 47_500 refl refl refl
      (omega arith) (omega arith) refl refl

-- All that a run of `finalize_refund` computes with.
unfoldable refund_code : ℕ
unfolding journal_code finalize_refund finalize_exception_refund find_unbooked_refund
    resolve_exception enqueue_exception_email finalize_booking_refund finish_refund in_transaction
    finish commit lock_refund_for_finalize find_refund_for_finalize mark_refund_processed
    record_recovery insert_seller_recovery refund_lines refunded_state set_booking_payment_state
    enqueue_booking_event is_finished query select exec
refund_code = 0

-- A refund of a booking, and a refund of a payment that did not become one.
abbrev two_refunds : Session
two_refunds = record empty {
  db = record empty.db {
    refunds =
        refund
        ∷ record refund {
          id = "r-2";
          booking_id = none;
          payment_attempt_id = some "a-1";
          payment_exception_id = some "x-1";
        }
        ∷ [];
    bookings = booked ∷ [];
    payment_attempts = attempt ∷ [];
    quotes = held_quote ∷ [];
  };
}

abbrev first_done : Session
first_done = (finalize_refund env rt "r-1" none none two_refunds).1

abbrev both_done : Session
both_done = (finalize_refund env rt "r-2" none none first_done).1

finalize_refund_repeat_example :
    (finalize_refund env rt "r-1" none none first_done ≡ (ok tt, first_done))
    × (finalize_refund env rt "r-2" none none both_done ≡ (ok tt, both_done))
unfolding refund_code
finalize_refund_repeat_example = (
  finalize_refund_repeat env rt "r-1" none none none none two_refunds first_done refl refl,
  finalize_refund_repeat env rt "r-2" none none none none first_done both_done refl refl,
)
