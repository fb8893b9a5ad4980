-- ===== src/Payments/Keeps.antt =====
-- Outside of postLedgerJournal, the statements of a verified charge leave the entries of the ledger
-- alone (payment_processing.go).
use wantmytime.Prelude.{ℕ, String, Option, List, arith, ◌≡◌}
use wantmytime.Prelude.Int64.{ℤ}
use wantmytime.Prelude.Time.{Time}
use wantmytime.Store.Schema.{Db}
use wantmytime.Store.Monad.{Tx, Result, ◌>>=◌, one_row, select, query, try_query}
use wantmytime.Store.Logic.{either}
use wantmytime.Store.Always.{
  Always, Always-bind, Always-query, Always-select, Always-exec, Always-try_query, Always-one_row,
}
use wantmytime.Ledger.Journal.{Runtime}
use wantmytime.Ledger.Posting.{LedgerIsBalanced}
use wantmytime.Refunds.Create.{Settings}
use wantmytime.Payments.Charged.{
  lock_payment_attempt_by_reference, add_payment_exception, mark_payment_attempt_exception,
  record_payment_attempt_status, record_payment_channel, record_payment_card, record_buyer_fee,
  mark_payment_attempt_success, booking_id_for_quote, lock_quote_for_payment, lock_hold_for_quote,
  lock_seller_availability, lock_offer_state, verified_email_for_user,
}
use wantmytime.Payments.Booked.{
  create_paid_booking_row, create_paid_booking_from_quote, create_payment_allocation,
  create_settlement_item_row, create_settlement_item_for_booking, schedule_seller_payout,
  convert_quote, convert_offer, confirm_hold_as_booking, record_server_product_event,
  confirm_marketing_email,
}

-- Every run keeps the ledger balanced, whether it succeeds or not.
abbrev pub Keeps : {A : Type 0} → Tx A → Type 0
Keeps m = Always LedgerIsBalanced m

-- The ledger is balanced by its entries alone.
pub balanced_entries :
    (d d' : Db) → d'.ledger_entries ≡ d.ledger_entries → LedgerIsBalanced d → LedgerIsBalanced d'
balanced_entries d d' h p j = rw h (p j)

-- To read a row that has to be there.
pub read_row-Keeps :
    {A : Type 0} (f : Time → Db → Option A) → Keeps (select f >>= λ row. one_row row)
read_row-Keeps f = Always-bind (Always-select f) Always-one_row

pub lock_payment_attempt_by_reference-Keeps :
    (environment reference : String)
    → Keeps (lock_payment_attempt_by_reference environment reference)
unfolding lock_payment_attempt_by_reference
lock_payment_attempt_by_reference-Keeps environment reference = read_row-Keeps _

pub add_payment_exception-Keeps :
    (rt : Runtime) (id kind reference : String) (amount : ℤ) (currency reason : String)
    → Keeps (add_payment_exception rt id kind reference amount currency reason)
unfolding add_payment_exception
add_payment_exception-Keeps rt id kind reference amount currency reason =
    Always-exec _ (λ t d p. either LedgerIsBalanced _ p p)

pub mark_payment_attempt_exception-Keeps :
    (transaction_id : Option String) (id : String)
    → Keeps (mark_payment_attempt_exception transaction_id id)
unfolding mark_payment_attempt_exception
mark_payment_attempt_exception-Keeps transaction_id id = Always-exec _ (λ t d p. p)

pub record_payment_attempt_status-Keeps :
    (state : String) (transaction_id : Option String) (id : String)
    → Keeps (record_payment_attempt_status state transaction_id id)
unfolding record_payment_attempt_status
record_payment_attempt_status-Keeps state transaction_id id = Always-exec _ (λ t d p. p)

pub record_payment_channel-Keeps :
    (channel : String) (paid : ℤ) (id : String) → Keeps (record_payment_channel channel paid id)
unfolding record_payment_channel
record_payment_channel-Keeps channel paid id = Always-exec _ (λ t d p. p)

pub record_payment_card-Keeps :
    (country : Option String) (id : String) → Keeps (record_payment_card country id)
unfolding record_payment_card
record_payment_card-Keeps country id = Always-exec _ (λ t d p. p)

-- A statement that is refused, or changes tables outside of the entries.
pub try_query-Keeps :
    {A : Type 0} (f : Time → Db → Result A × Db)
    → ((t : Time) (d : Db) → (f t d).1.ledger_entries ≡ d.ledger_entries)
    → Keeps (try_query f)
try_query-Keeps f h = Always-try_query f (λ t d p. balanced_entries d (f t d).1 (h t d) p)

pub query-Keeps :
    {A : Type 0} (f : Time → Db → A × Db)
    → ((t : Time) (d : Db) → (f t d).1.ledger_entries ≡ d.ledger_entries)
    → Keeps (query f)
query-Keeps f h = Always-query f (λ t d p. balanced_entries d (f t d).1 (h t d) p)

pub record_buyer_fee-Keeps :
    (expected fee : ℤ) (id : String) → Keeps (record_buyer_fee expected fee id)
unfolding record_buyer_fee
record_buyer_fee-Keeps expected fee id = try_query-Keeps _ (λ t d. ground arith)

pub mark_payment_attempt_success-Keeps :
    (booking_id transaction_id : Option String) (id : String)
    → Keeps (mark_payment_attempt_success booking_id transaction_id id)
unfolding mark_payment_attempt_success
mark_payment_attempt_success-Keeps booking_id transaction_id id = Always-exec _ (λ t d p. p)

pub booking_id_for_quote-Keeps : (quote_id : String) → Keeps (booking_id_for_quote quote_id)
unfolding booking_id_for_quote
booking_id_for_quote-Keeps quote_id = Always-select _

pub lock_quote_for_payment-Keeps : (id : String) → Keeps (lock_quote_for_payment id)
unfolding lock_quote_for_payment
lock_quote_for_payment-Keeps id = read_row-Keeps _

pub lock_hold_for_quote-Keeps : (quote_id : String) → Keeps (lock_hold_for_quote quote_id)
unfolding lock_hold_for_quote
lock_hold_for_quote-Keeps quote_id = Always-select _

pub lock_seller_availability-Keeps : (id : String) → Keeps (lock_seller_availability id)
unfolding lock_seller_availability
lock_seller_availability-Keeps id = read_row-Keeps _

pub lock_offer_state-Keeps : (id : String) → Keeps (lock_offer_state id)
unfolding lock_offer_state
lock_offer_state-Keeps id = read_row-Keeps _

pub verified_email_for_user-Keeps : (id : String) → Keeps (verified_email_for_user id)
unfolding verified_email_for_user
verified_email_for_user-Keeps id = read_row-Keeps _

pub create_paid_booking_from_quote-Keeps :
    (booking_id email quote_id : String)
    → Keeps (create_paid_booking_from_quote booking_id email quote_id)
unfolding create_paid_booking_from_quote create_paid_booking_row
create_paid_booking_from_quote-Keeps booking_id email quote_id =
    try_query-Keeps _ (λ t d. ground arith)

pub create_payment_allocation-Keeps :
    (rt : Runtime) (booking_id : String) (gross deduction entitlement cost bps : ℤ)
    → Keeps (create_payment_allocation rt booking_id gross deduction entitlement cost bps)
unfolding create_payment_allocation
create_payment_allocation-Keeps rt booking_id gross deduction entitlement cost bps =
    try_query-Keeps _ (λ t d. ground arith)

pub create_settlement_item_for_booking-Keeps :
    (reference booking_id : String)
    → Keeps (create_settlement_item_for_booking reference booking_id)
unfolding create_settlement_item_for_booking create_settlement_item_row
create_settlement_item_for_booking-Keeps reference booking_id =
    try_query-Keeps _ (λ t d. ground arith)

pub schedule_seller_payout-Keeps :
    (env : Settings) (rt : Runtime) (booking_id seller_id : String) (entitlement : ℤ)
    (currency : String) (funds_at : Time)
    → Keeps (schedule_seller_payout env rt booking_id seller_id entitlement currency funds_at)
unfolding schedule_seller_payout
schedule_seller_payout-Keeps env rt booking_id seller_id entitlement currency funds_at =
    try_query-Keeps _ (λ t d. ground arith)

pub convert_quote-Keeps : (id : String) → Keeps (convert_quote id)
unfolding convert_quote
convert_quote-Keeps id = Always-exec _ (λ t d p. p)

pub convert_offer-Keeps : (booking_id id : String) → Keeps (convert_offer booking_id id)
unfolding convert_offer
convert_offer-Keeps booking_id id = Always-query _ (λ t d p. p)

pub confirm_hold_as_booking-Keeps :
    (booking_id quote_id : String) → Keeps (confirm_hold_as_booking booking_id quote_id)
unfolding confirm_hold_as_booking
confirm_hold_as_booking-Keeps booking_id quote_id = Always-exec _ (λ t d p. p)

pub record_server_product_event-Keeps :
    (event_name : String) (subject_hash : List ℕ) (environment seller_id : String)
    → Keeps (record_server_product_event event_name subject_hash environment seller_id)
unfolding record_server_product_event
record_server_product_event-Keeps event_name subject_hash environment seller_id =
    Always-exec _ (λ t d p. p)

pub confirm_marketing_email-Keeps : (email : String) → Keeps (confirm_marketing_email email)
unfolding confirm_marketing_email
confirm_marketing_email-Keeps email = Always-exec _ (λ t d p. p)
