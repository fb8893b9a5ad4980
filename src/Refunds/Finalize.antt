-- ===== src/Refunds/Finalize.antt =====
-- refunds.go, finalizeRefund for the refund of a booking: the journal, the debt of a seller who was
-- paid already, the payment state of the booking and the buyer's email, in one transaction.
use wantmytime.Prelude.{
  Bool, ◌&&◌, ◌||◌, String, str_eq, Option, none, some, List, [], ◌∷◌, ◌++◌, Unit0, if◌then◌else◌,
}
use wantmytime.Prelude.Int64.{pos, ltb_ℤ, leb_ℤ}
use wantmytime.Store.Schema.{RefundState, processed, not_required}
use wantmytime.Store.Monad.{Tx, ◌>>=◌, ◌>>◌, pure, in_transaction}
use wantmytime.Ledger.Totals.{LedgerLine, ledger_line}
use wantmytime.Ledger.Journal.{Runtime, post_ledger_journal}
use wantmytime.Refunds.Statements.{
  RefundForFinalize, has_state, lock_refund_for_finalize, mark_refund_processed,
  insert_seller_recovery, set_booking_payment_state, enqueue_booking_event,
}
use wantmytime.Refunds.Create.{Settings}
use Prim.Native.String.{◌++◌ as text_append}

-- The seller's part comes out of the payout that is still held, or becomes a debt.
abbrev pub is_payable : RefundForFinalize → Bool
is_payable r = ltb_ℤ (pos 0) r.seller_share_minor && str_eq r.seller_liability "payable"

unfoldable pub refund_lines : RefundForFinalize → List LedgerLine
refund_lines r =
    ledger_line "provider_receivable" none "credit" r.amount_minor
    ∷ ((if ltb_ℤ (pos 0) r.platform_share_minor
          then ledger_line "platform_fee_revenue" none "debit" r.platform_share_minor ∷ []
          else [])
        ++ (if is_payable r
            then ledger_line "seller_payable" (some r.seller_id) "debit" r.seller_share_minor ∷ []
            else if ltb_ℤ (pos 0) r.seller_share_minor
            then ledger_line "seller_receivable" (some r.seller_id) "debit" r.seller_share_minor
              ∷ []
            else []))

-- The debt, where there is one.
unfoldable pub record_recovery : Runtime → RefundForFinalize → String → Tx Unit0
record_recovery rt r currency =
    if is_payable r
    then pure tt
    else if ltb_ℤ (pos 0) r.seller_share_minor
    then insert_seller_recovery rt r.seller_id r.id r.seller_share_minor currency
    else pure tt

unfoldable pub refunded_state : RefundForFinalize → String
refunded_state r = if leb_ℤ r.gross_minor r.amount_minor then "refunded" else "partially_refunded"

unfoldable pub finish_refund :
    Settings → Runtime → RefundForFinalize → Option String → Option String → Tx Unit0
unfolding record_recovery refunded_state
finish_refund env rt r operator note = do
  mark_refund_processed note operator r.id
  let currency = env.trim_space r.currency
  record_recovery rt r currency
  post_ledger_journal rt "refund" r.id currency "buyer refund" (refund_lines r)
  set_booking_payment_state (refunded_state r) r.booking_id
  enqueue_booking_event r.booking_id r.buyer_user_id "refund_processed_buyer"
      (text_append r.id ":refund-processed") (some r.id)

unfoldable pub is_finished : RefundState → Bool
is_finished state = has_state state processed || has_state state not_required

-- After the test for an unbooked payment, which has a function of its own.
unfoldable pub finalize_booking_refund :
    Settings → Runtime → String → Option String → Option String → Tx Unit0
unfolding finish_refund is_finished
finalize_booking_refund env rt refund_id operator note = in_transaction do
  r ← lock_refund_for_finalize refund_id
  if is_finished r.state then pure tt else finish_refund env rt r operator note
