-- ===== src/Payouts/Status.antt =====
-- payouts.go, failPayout and applyTransferStatus: what the provider says of a transfer decides the
-- state of its payout.
use Prim.Native.String.{◌++◌ as text_append}
use wantmytime.Prelude.{
  ℕ, ◌-◌, ◌*◌, ◌^◌, ◌++◌, ◌||◌, Bool, String, str_eq, none, some, [], ◌∷◌, find, Unit0, ltb,
  if◌then◌else◌,
}
use wantmytime.Prelude.Int64.{ℤ, pos_part}
use wantmytime.Prelude.Chars.{decimal}
use wantmytime.Prelude.Time.{Time}
use wantmytime.Store.Schema.{Db, payout_failed, SellerPayout, SellerProfile, NotificationOutbox}
use wantmytime.Store.Monad.{Tx, ◌>>=◌, pure, query, exec, in_transaction}
use wantmytime.Refunds.Statements.{any, update_where}
use wantmytime.Payouts.{PayoutTransfer, is_sent, is_processing, mark_payout_paid}
use wantmytime.Payouts.Release.{PayoutDesk, is_payout, lock_payout, payout_waits}

-- retryBackoff, in seconds.
unfoldable pub retry_backoff : ℤ → ℕ
retry_backoff attempts = let n = pos_part attempts - 1 in 60 * 2 ^ (if ltb 5 n then 5 else n)

abbrev pub failed_payout : String → Time → SellerPayout → SellerPayout
failed_payout message t p = record p {
  state = payout_failed;
  last_error = some message;
  updated_at = t;
}

-- payoutFailedEmailSQL: once for each attempt.
abbrev failed_key : SellerPayout → String
failed_key p = text_append p.id (text_append ":failed:" (decimal p.generation))

abbrev failed_notice : SellerPayout → SellerProfile → Time → NotificationOutbox
failed_notice p sp t = record {
  event_key = failed_key p;
  booking_id = some p.booking_id;
  recipient_user_id = sp.user_id;
  kind = "payout_failed_seller";
  due_at = t;
  state = "queued";
  claimed_at = none;
  last_error_code = none;
  reference_id = none;
  payment_exception_id = none;
}

abbrev add_notice : NotificationOutbox → Db → Db
add_notice n d =
    if any (λ (m : NotificationOutbox). str_eq m.event_key n.event_key) d.notification_outbox
    then d
    else record d { notification_outbox = d.notification_outbox ++ (n ∷ []) }

unfoldable pub payout_failed_row : String → Time → Db → Db
payout_failed_row id t d = elim (find (is_payout id) d.seller_payouts) [
  | none ↦ d
  | some p ↦ elim (find (λ (sp : SellerProfile). str_eq sp.id p.seller_id) d.seller_profiles) [
    | none ↦ d
    | some sp ↦ add_notice (failed_notice p sp t) d
  ]
]

unfoldable pub payout_failed_email : String → Tx Unit0
payout_failed_email id = exec (payout_failed_row id)

-- Whether the row was changed.
unfoldable pub set_payout_failed : String → String → Tx Bool
set_payout_failed id message = query (λ t d. (
  any (is_sent id) d.seller_payouts,
  record d {
    seller_payouts = update_where (is_sent id) (failed_payout message t) d.seller_payouts;
  },
))

unfoldable pub fail_payout : String → String → Tx Unit0
fail_payout id message = do
  changed ← set_payout_failed id message
  if changed then payout_failed_email id else pure tt

abbrev pub settle_sent : PayoutDesk → PayoutTransfer → SellerPayout → Tx Unit0
settle_sent desk t p =
    if is_processing p.state then mark_payout_paid desk.settings desk.runtime p.id t else pure tt

abbrev pub is_final_failure : String → Bool
is_final_failure status = str_eq status "failed" || str_eq status "reversed" || str_eq status "otp"

unfoldable pub apply_transfer_status : PayoutDesk → String → PayoutTransfer → Tx Unit0
apply_transfer_status desk id t =
    if str_eq t.status "success"
    then in_transaction (lock_payout id >>= settle_sent desk t)
    else if is_final_failure t.status
    then fail_payout id t.message
    else payout_waits id "" 600
