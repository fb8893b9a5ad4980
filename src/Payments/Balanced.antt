-- ===== src/Payments/Balanced.antt =====
-- A verified charge keeps the ledger balanced, however its run ends (payment_processing.go).
use wantmytime.Prelude.{
  ◌^◌, ◌<◌, ◌≡◌, true, String, Option, none, some, List, refl, if◌then◌else◌, arith, ap,
}
use wantmytime.Prelude.Int64.{ℤ, pos_part, add64, sub64}
use wantmytime.Prelude.Time.{Time}
use wantmytime.Store.Schema.{PaymentAttempt, Quote, Booking, SlotReservation}
use wantmytime.Store.Monad.{Tx, Result, Error, ok, err, Session, ◌>>=◌, pure}
use wantmytime.Store.Logic.{Ensures, Post, bind, Ensures-if, ensured}
use wantmytime.Store.Always.{
  Always-bind, Always-Ensures, Always-if, Always-pure, Always-clock, Always-guard, Always-lift,
}
use wantmytime.Store.Transaction.{Ensures-in_transaction, in_transaction_rollback}
use wantmytime.Ledger.Totals.{LedgerLine}
use wantmytime.Ledger.Sums.{AmountsFit}
use wantmytime.Ledger.Journal.{Runtime, post_ledger_journal}
use wantmytime.Ledger.Posting.{LedgerIsBalanced, post_ledger_journal-LedgerIsBalanced}
use wantmytime.Payments.Keeps.{
  Keeps, balanced_entries, query-Keeps, lock_payment_attempt_by_reference-Keeps,
  add_payment_exception-Keeps, mark_payment_attempt_exception-Keeps,
  record_payment_attempt_status-Keeps, record_payment_channel-Keeps, record_payment_card-Keeps,
  record_buyer_fee-Keeps, mark_payment_attempt_success-Keeps, booking_id_for_quote-Keeps,
  lock_quote_for_payment-Keeps, lock_hold_for_quote-Keeps, lock_seller_availability-Keeps,
  lock_offer_state-Keeps, verified_email_for_user-Keeps, create_paid_booking_from_quote-Keeps,
  create_payment_allocation-Keeps, create_settlement_item_for_booking-Keeps,
  schedule_seller_payout-Keeps, convert_quote-Keeps, convert_offer-Keeps,
  confirm_hold_as_booking-Keeps, record_server_product_event-Keeps, confirm_marketing_email-Keeps,
}
use wantmytime.Payments.Outbound.{
  enqueue_booking_notifications-Keeps, return_unbooked_payment-Keeps, reclaim_late_slot-Keeps,
}
use wantmytime.Payments.Charged.{booking_id_for_quote}
use wantmytime.Payments.Charge.{
  Desk, VerifiedCharge, Snapshot, apply_verified_charge, charge_lines, with_fee, book_charge,
  draw_uuid, convert_step, give_back, record_payment_exception, refuse_mismatch,
  record_failed_charge, check_offer, check_seller, check_hold, hold_is_good, reclaim_step,
  once_per_quote, take_charge, look_for_duplicate, accept_charge, card_step, fee_step,
  settle_charge,
}

pub sub64_fits : (a b : ℤ) → pos_part (sub64 a b) < 2 ^ 63
unfolding sub64
sub64_fits a b = ground arith

pub add64_fits : (a b : ℤ) → pos_part (add64 a b) < 2 ^ 63
unfolding add64
add64_fits a b = ground arith

charge_lines-AmountsFit :
    (c : Snapshot) (seller_id : String) (fee : ℤ)
    → pos_part fee < 2 ^ 63
    → AmountsFit (charge_lines c seller_id fee)
unfolding charge_lines
charge_lines-AmountsFit c seller_id fee fits = ground (
  arith,
  sub64_fits c.expected fee,
  add64_fits c.platform_fee c.buyer_fee,
  sub64_fits c.price c.platform_fee,
)

-- Only a success has to leave the ledger balanced: an error rolls back.
abbrev pub KeepsIfOk : {A : Type 0} → Tx A → Type 0
KeepsIfOk m = Ensures LedgerIsBalanced m (λ _. LedgerIsBalanced)

pub post_ledger_journal-KeepsIfOk :
    (rt : Runtime) (source_type source_id currency description : String) (lines : List LedgerLine)
    → AmountsFit lines
    → KeepsIfOk (post_ledger_journal rt source_type source_id currency description lines)
post_ledger_journal-KeepsIfOk rt source_type source_id currency description lines fits = record {
  run = λ s p.
      go s p (post_ledger_journal rt source_type source_id currency description lines s) refl;
}
  where
    go :
        (s : Session)
        → LedgerIsBalanced s.db
        → (r : Result String × Session)
        → post_ledger_journal rt source_type source_id currency description lines s ≡ r
        → Post (λ _. LedgerIsBalanced) r
    go s p (err e, s') h = tt
    go s p (ok id, s') h =
        post_ledger_journal-LedgerIsBalanced rt source_type source_id currency description lines s
          s' fits p h

convert_step-Keeps :
    (booking_id : String) (offer_id : Option String) → Keeps (convert_step booking_id offer_id)
convert_step-Keeps booking_id none = Always-pure
convert_step-Keeps booking_id (some offer_id) =
    Always-bind (convert_offer-Keeps _ _) (λ changed. Always-guard _ _)

-- Each statement before the journal keeps the ledger balanced.
pub next :
    {A B : Type 0} {m : Tx A} {f : A → Tx B}
    → Keeps m
    → ((a : A) → KeepsIfOk (f a))
    → KeepsIfOk (m >>= f)
next h k = bind (Always-Ensures h) k

module _ (desk : Desk) (a : PaymentAttempt) (reference : String) (charge : VerifiedCharge) where
  give_back-Keeps :
      (kind ref : String) (amount : ℤ) (currency reason : String)
      → Keeps (give_back desk a charge kind ref amount currency reason)
  unfolding give_back record_payment_exception
  give_back-Keeps kind ref amount currency reason =
      Always-bind
        (Always-bind (add_payment_exception-Keeps _ _ _ _ _ _ _)
          (λ _. mark_payment_attempt_exception-Keeps _ _))
        (λ _. Always-bind (return_unbooked_payment-Keeps _ _ _ _ _ _) (λ _. Always-pure))

  returned :
      (kind ref : String) (amount : ℤ) (currency reason : String)
      → KeepsIfOk (give_back desk a charge kind ref amount currency reason)
  returned kind ref amount currency reason =
      Always-Ensures (give_back-Keeps kind ref amount currency reason)

  refuse_mismatch-Keeps : (c : Snapshot) → Keeps (refuse_mismatch desk a c reference charge)
  unfolding refuse_mismatch record_payment_exception
  refuse_mismatch-Keeps c = Always-if _ (give_back-Keeps _ _ _ _ _) (
      Always-bind
        (Always-bind (add_payment_exception-Keeps _ _ _ _ _ _ _)
          (λ _. mark_payment_attempt_exception-Keeps _ _))
        (λ _. Always-pure))

  record_failed_charge-Keeps : Keeps (record_failed_charge a charge)
  unfolding record_failed_charge
  record_failed_charge-Keeps =
      Always-bind (record_payment_attempt_status-Keeps _ _ _) (λ _. Always-pure)

  module _ (fits : pos_part charge.fee < 2 ^ 63) where
    book_charge-KeepsIfOk :
        (c : Snapshot) (quote : Quote) → KeepsIfOk (book_charge desk a c reference charge quote)
    unfolding book_charge draw_uuid
    book_charge-KeepsIfOk c quote = next (query-Keeps _ (λ t d. refl)) (λ booking_id.
        next (verified_email_for_user-Keeps _) (λ email.
          next (create_paid_booking_from_quote-Keeps _ _ _) (λ _.
            next (confirm_marketing_email-Keeps _) (λ _.
              next (record_server_product_event-Keeps _ _ _ _) (λ _.
                next (create_payment_allocation-Keeps _ _ _ _ _ _ _) (λ _.
                  next (create_settlement_item_for_booking-Keeps _ _) (λ _.
                    next Always-clock (λ now.
                      next (schedule_seller_payout-Keeps _ _ _ _ _ _ _) (λ _.
                        next (mark_payment_attempt_success-Keeps _ _ _) (λ _.
                          next (convert_quote-Keeps _) (λ _. next (convert_step-Keeps _ _) (λ _.
                            next (confirm_hold_as_booking-Keeps _ _) (λ _.
                              next (enqueue_booking_notifications-Keeps _ _) (λ _.
                                bind
                                  (post_ledger_journal-KeepsIfOk _ _ _ _ _ _
                                    (charge_lines-AmountsFit c _ _ fits))
                                  (λ _. Always-Ensures Always-pure)))))))))))))))

    check_offer-KeepsIfOk :
        (c : Snapshot) (quote : Quote) (offer_id : Option String)
        → KeepsIfOk (check_offer desk a c reference charge quote offer_id)
    unfolding check_offer
    check_offer-KeepsIfOk c quote none = book_charge-KeepsIfOk c quote
    check_offer-KeepsIfOk c quote (some offer_id) =
        next (lock_offer_state-Keeps _)
          (λ offer. Ensures-if _ (book_charge-KeepsIfOk c quote) (returned _ _ _ _ _))

    check_seller-KeepsIfOk :
        (c : Snapshot) (quote : Quote) → KeepsIfOk (check_seller desk a c reference charge quote)
    unfolding check_seller
    check_seller-KeepsIfOk c quote =
        next (lock_seller_availability-Keeps _)
          (λ available. Ensures-if _ (check_offer-KeepsIfOk c quote _) (returned _ _ _ _ _))

    kept_step-Keeps :
        (now : Time) (quote : Quote) (hold : Option SlotReservation)
        → Keeps (if hold_is_good now quote hold then pure true else reclaim_step desk quote)
    kept_step-Keeps now quote hold =
        Always-if _ Always-pure (Always-if _ (reclaim_late_slot-Keeps _ _ _ _ _) Always-pure)

    check_hold-KeepsIfOk : (c : Snapshot) → KeepsIfOk (check_hold desk a c reference charge)
    unfolding check_hold
    check_hold-KeepsIfOk c = next (lock_quote_for_payment-Keeps _) (λ quote.
        next (lock_hold_for_quote-Keeps _) (λ hold. next Always-clock (λ now.
          next (kept_step-Keeps now quote hold)
            (λ kept. Ensures-if kept (check_seller-KeepsIfOk c quote) (returned _ _ _ _ _)))))

    once_per_quote-KeepsIfOk :
        (c : Snapshot) (booked : Option Booking)
        → KeepsIfOk (once_per_quote desk a c reference charge booked)
    unfolding once_per_quote
    once_per_quote-KeepsIfOk c none = check_hold-KeepsIfOk c
    once_per_quote-KeepsIfOk c (some b) =
        next (mark_payment_attempt_success-Keeps _ _ _) (λ _. Always-Ensures Always-pure)

    look_for_duplicate-Keeps : (c : Snapshot) → Keeps (look_for_duplicate a c)
    look_for_duplicate-Keeps c = go a.booking_id
      where
        go :
            (o : Option String)
            → Keeps {A = Option Booking}
                (elim o [ none ↦ booking_id_for_quote c.quote_id | some id ↦ pure none ])
        go none = booking_id_for_quote-Keeps _
        go (some id) = Always-pure

    take_charge-KeepsIfOk : (c : Snapshot) → KeepsIfOk (take_charge desk a c reference charge)
    unfolding take_charge
    take_charge-KeepsIfOk c = next (look_for_duplicate-Keeps c) (λ other.
        Ensures-if _ (returned _ _ _ _ _)
          (next (booking_id_for_quote-Keeps _) (λ booked. once_per_quote-KeepsIfOk c booked)))

    card_step-Keeps : Keeps (card_step a charge)
    card_step-Keeps = Always-if _ Always-pure (record_payment_card-Keeps _ _)

    fee_step-Keeps : (c : Snapshot) → Keeps (fee_step a c charge)
    fee_step-Keeps c = Always-if _ (record_buyer_fee-Keeps _ _ _) Always-pure

    accept_charge-KeepsIfOk : (c : Snapshot) → KeepsIfOk (accept_charge desk a c reference charge)
    unfolding accept_charge
    accept_charge-KeepsIfOk c = next (record_payment_channel-Keeps _ _ _) (λ _.
        next card_step-Keeps (λ _.
          Ensures-if _ (returned _ _ _ _ _)
            (next (fee_step-Keeps c) (λ _. take_charge-KeepsIfOk (with_fee c charge)))))

    settle_charge-KeepsIfOk : (c : Snapshot) → KeepsIfOk (settle_charge desk a c reference charge)
    unfolding settle_charge
    settle_charge-KeepsIfOk c =
        Ensures-if _ (Always-Ensures record_failed_charge-Keeps)
          (Ensures-if _ (Always-Ensures (refuse_mismatch-Keeps c)) (accept_charge-KeepsIfOk c))

apply_verified_charge-KeepsIfOk :
    (desk : Desk) (reference : String) (charge : VerifiedCharge)
    → pos_part charge.fee < 2 ^ 63
    → KeepsIfOk (apply_verified_charge desk reference charge)
unfolding apply_verified_charge
apply_verified_charge-KeepsIfOk desk reference charge fits = Ensures-in_transaction (
    next (lock_payment_attempt_by_reference-Keeps _ _)
      (λ a. next Always-lift (λ c. settle_charge-KeepsIfOk desk a reference charge fits c)))

apply_verified_charge_failed :
    (desk : Desk) (reference : String) (charge : VerifiedCharge) (s s' : Session) (e : Error)
    → apply_verified_charge desk reference charge s ≡ (err e, s')
    → s'.db ≡ s.db
unfolding apply_verified_charge
apply_verified_charge_failed desk reference charge s s' e h = in_transaction_rollback _ s s' e h

-- applyVerifiedCharge keeps the ledger balanced, journal by journal, however its run ends: whatever
-- the provider reports, the fee being an int64, and whatever statement of the database fails.
pub apply_verified_charge-LedgerIsBalanced :
    (desk : Desk) (reference : String) (charge : VerifiedCharge) (s : Session)
    → pos_part charge.fee < 2 ^ 63
    → LedgerIsBalanced s.db
    → LedgerIsBalanced (apply_verified_charge desk reference charge s).1.db
apply_verified_charge-LedgerIsBalanced desk reference charge s fits h =
    go (apply_verified_charge desk reference charge s) refl
  where
    go :
        (r : Result String × Session)
        → apply_verified_charge desk reference charge s ≡ r
        → LedgerIsBalanced r.1.db
    go (ok id, s') e = ensured (apply_verified_charge-KeepsIfOk desk reference charge fits) h e
    go (err x, s') e =
        balanced_entries s.db s'.db
          (ap (λ d. d.ledger_entries) (apply_verified_charge_failed desk reference charge s s' x e))
          h
