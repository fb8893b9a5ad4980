-- ===== src/Payouts.antt =====
-- services/core/cmd/api/payouts.go: the record of a payout that was transferred (markPayoutPaid) here,
-- and the other operations on payouts below.
pub mod Journal
pub mod Hold
pub mod Reference
pub mod Release
pub mod Status
pub mod Retry
pub mod Provider
pub mod Send
pub mod Reversal
pub mod Event
pub mod Worker
pub mod Once
pub mod Untouched
pub mod Sound
pub mod Owed
pub mod Kept
pub mod Again
pub mod Runs
pub mod Cycle
pub mod Reasons
pub mod Held
pub mod Due
pub mod Markets
pub mod AccountInput
pub mod Account
pub mod Cooldown
use Prim.Native.String.{◌++◌ as text_append}
use wantmytime.Prelude.{
  ◌++◌, Bool, true, false, ◌&&◌, String, str_eq, Option, none, some, List, [], ◌∷◌, find, Unit0,
  if◌then◌else◌,
}
use wantmytime.Prelude.Int64.{ℤ, pos, ltb_ℤ, max_ℤ, sub64}
use wantmytime.Prelude.Time.{Time}
use wantmytime.Store.Schema.{
  Db, PayoutState, scheduled, processing, paid, payout_failed, cancelled, SellerPayout,
  SellerProfile, PaymentAllocation, SettlementItem,
}
use wantmytime.Store.Monad.{
  Result, ok, err, no_rows, database_error, Tx, ◌>>=◌, ◌>>◌, pure, exec, try_query,
}
use wantmytime.Ledger.Totals.{LedgerLine, ledger_line}
use wantmytime.Ledger.Journal.{Runtime, post_ledger_journal}
use wantmytime.Refunds.Statements.{any, update_where, enqueue_booking_event}
use wantmytime.Refunds.Create.{Settings, nullable_string}

-- What the provider says of a transfer. The status is success, pending, failed or reversed.
pub record PayoutTransfer : Type 0 where
  pub reference : String
  pub status : String
  pub amount : ℤ
  pub fee_minor : ℤ
  pub message : String

-- What the statement returns.
pub record PaidPayout : Type 0 where
  pub booking_id : String
  pub seller_id : String
  pub seller_user : String
  pub reference : String
  pub currency : String
  pub amount : ℤ
  pub recovery : ℤ

abbrev pub is_processing : PayoutState → Bool
is_processing processing = true
is_processing scheduled = false
is_processing paid = false
is_processing payout_failed = false
is_processing cancelled = false

abbrev pub is_sent : String → SellerPayout → Bool
is_sent id p = str_eq p.id id && is_processing p.state

-- COALESCE(NULLIF(code, ''), old)
abbrev new_code : Option String → Option String → Option String
new_code none old = old
new_code (some code) old = some code

abbrev pub paid_payout : PayoutTransfer → Time → SellerPayout → SellerPayout
paid_payout t now p = record p {
  state = paid;
  paid_at = some now;
  last_error = none;
  updated_at = now;
  provider_transfer_code = new_code (nullable_string t.reference) p.provider_transfer_code;
  fee_minor = max_ℤ t.fee_minor (pos 0);
}

abbrev returned : SellerPayout → SellerProfile → ℤ → PaidPayout
returned p sp amount = record {
  booking_id = p.booking_id;
  seller_id = p.seller_id;
  seller_user = sp.user_id;
  reference = p.reference;
  currency = p.currency;
  amount = amount;
  recovery = p.recovery_minor;
}

-- UPDATE … FROM seller_profiles … RETURNING. An amount that is NULL cannot be scanned.
unfoldable pub set_payout_paid_row : String → PayoutTransfer → Time → Db → Result PaidPayout × Db
set_payout_paid_row id t now d = elim (find (is_sent id) d.seller_payouts) [
  | none ↦ (err no_rows, d)
  | some p ↦ elim (find (λ (sp : SellerProfile). str_eq sp.id p.seller_id) d.seller_profiles) [
    | none ↦ (err no_rows, d)
    | some sp ↦ elim p.amount_minor [
      | none ↦ (err database_error, d)
      | some amount ↦ (
        ok (returned p sp amount),
        record d {
          seller_payouts = update_where (is_sent id) (paid_payout t now) d.seller_payouts;
        },
      )
    ]
  ]
]

unfoldable pub set_payout_paid : String → PayoutTransfer → Tx PaidPayout
set_payout_paid id t = try_query (set_payout_paid_row id t)

-- The transfer, and the provider's fee for it.
unfoldable pub payout_lines : String → ℤ → ℤ → List LedgerLine
payout_lines seller_id net fee =
    (if ltb_ℤ (pos 0) net
      then ledger_line "seller_payable" (some seller_id) "debit" net
        ∷ ledger_line "provider_receivable" none "credit" net
        ∷ []
      else [])
    ++ (if ltb_ℤ (pos 0) fee
        then ledger_line "processor_fee_expense" none "debit" fee
          ∷ ledger_line "provider_receivable" none "credit" fee
          ∷ []
        else [])

-- Each attempt at a payout has a reference, and so a journal, of its own.
unfoldable pub post_payout : Runtime → String → String → String → List LedgerLine → Tx Unit0
post_payout rt id reference currency [] = pure tt
post_payout rt id reference currency (line ∷ lines) = do
  post_ledger_journal rt "payout" (text_append (text_append id ":") reference) currency
      "seller payout" (line ∷ lines)
  pure tt

-- The allocation of the booking is the one that the item settles.
abbrev settles : Db → String → SettlementItem → Bool
settles d booking_id i =
    any (λ (a : PaymentAllocation). str_eq a.booking_id booking_id && str_eq a.id i.allocation_id)
      d.payment_allocations

unfoldable pub mark_items : String → String → Tx Unit0
mark_items state booking_id = exec (λ t d. record d {
  settlement_items =
      update_where (settles d booking_id) (λ i. record i { state = state }) d.settlement_items;
})

unfoldable pub mark_payout_paid : Settings → Runtime → String → PayoutTransfer → Tx Unit0
mark_payout_paid env rt id t = do
  p ← set_payout_paid id t
  let net = sub64 p.amount p.recovery
  post_payout rt id p.reference (env.trim_space p.currency)
      (payout_lines p.seller_id net t.fee_minor)
  mark_items "paid_out" p.booking_id
  enqueue_booking_event p.booking_id p.seller_user "payout_sent_seller"
      (text_append (text_append id ":paid:") p.reference) (some id)
