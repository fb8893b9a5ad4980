-- ===== src/Payouts/Release.antt =====
-- payouts.go, releasePayout: what is owed is fixed once the payout is due.
use wantmytime.Prelude.{
  ℕ, ◌+◌, ◌*◌, ◌-◌, ◌/◌, not, ◌&&◌, ◌||◌, Bool, true, false, String, str_eq, Option, none, some,
  List, [], ◌∷◌, find, Unit0, if◌then◌else◌,
}
use wantmytime.Prelude.Int64.{ℤ, pos, leb_ℤ, ltb_ℤ, eqb_ℤ, sub64, ◌+ℤ◌, max_int64}
use wantmytime.Prelude.Time.{Time, minute, second, hour, after}
use wantmytime.Store.Schema.{
  PayoutState, scheduled, processing, paid, payout_failed, cancelled, SellerPayout,
  SellerPayoutAccount, Refund, failed,
}
use wantmytime.Store.Monad.{
  ok, err, database_error, Tx, ◌>>=◌, ◌>>◌, pure, lift, clock, select, exec, try_query, one_row,
  in_transaction,
}
use wantmytime.Ledger.Totals.{LedgerLine, ledger_line}
use wantmytime.Ledger.Journal.{Runtime, post_ledger_journal}
use wantmytime.Refunds.Statements.{any, update_where, has_state, text_or_empty}
use wantmytime.Refunds.Create.{Settings}
use wantmytime.Refunds.Recovery.{take_recovery}
use wantmytime.Payouts.{PayoutTransfer, is_processing, mark_items, mark_payout_paid}
use wantmytime.Payouts.Hold.{find_hold}

-- What the worker takes from elsewhere: the delay in minutes (payoutDelay) and the cap on
-- recoveries (recoveryMaxBps).
pub record PayoutDesk : Type 0 where
  pub settings : Settings
  pub runtime : Runtime
  pub delay : ℕ
  pub max_bps : ℤ

abbrev pub is_payout : String → SellerPayout → Bool
is_payout id p = str_eq p.id id

abbrev pub is_scheduled : PayoutState → Bool
is_scheduled scheduled = true
is_scheduled processing = false
is_scheduled paid = false
is_scheduled payout_failed = false
is_scheduled cancelled = false

abbrev pub can_wait : String → SellerPayout → Bool
can_wait id p = is_payout id p && (is_scheduled p.state || is_processing p.state)

unfoldable pub payout_waits : String → String → ℕ → Tx Unit0
payout_waits id message seconds = exec (λ t d. record d {
  seller_payouts =
      update_where (can_wait id)
        (λ p. record p {
          last_error = some message;
          next_attempt_at = t + seconds * second;
          updated_at = t;
        })
        d.seller_payouts;
})

unfoldable pub lock_payout : String → Tx SellerPayout
lock_payout id = do row ← select (λ t d. find (is_payout id) d.seller_payouts); one_row row

unfoldable pub hold_of_payout : ℕ → String → Tx (String × Bool)
hold_of_payout delay booking_id = do
  row ← select (λ t d. find_hold delay booking_id t d)
  one_row row

abbrev pub takes_from : String → Refund → Bool
takes_from booking_id r =
    str_eq (text_or_empty r.booking_id) booking_id
    && str_eq r.seller_liability "payable"
    && not (has_state r.state failed)

abbrev pub refunded_sum : String → List Refund → ℤ
refunded_sum booking_id [] = pos 0
refunded_sum booking_id (r ∷ l) =
    let rest = refunded_sum booking_id l in
    if takes_from booking_id r then r.seller_share_minor +ℤ rest else rest

-- The cast of the sum to bigint.
unfoldable pub refunded_share : String → Tx ℤ
refunded_share booking_id = do
  total ← select (λ t d. refunded_sum booking_id d.refunds)
  lift (if ltb_ℤ max_int64 total then err database_error else ok total)

abbrev pub cancelled_payout : Time → SellerPayout → SellerPayout
cancelled_payout t p = record p {
  state = cancelled;
  amount_minor = some (pos 0);
  released_at = some t;
  last_error = none;
  updated_at = t;
}

unfoldable pub cancel_payout : String → Tx Unit0
cancel_payout id = exec (λ t d. record d {
  seller_payouts = update_where (is_payout id) (cancelled_payout t) d.seller_payouts;
})

unfoldable pub find_payout_account : String → Tx (Option SellerPayoutAccount)
find_payout_account seller_id = select (λ t d.
    find (λ (a : SellerPayoutAccount). str_eq a.seller_id seller_id) d.seller_payout_accounts)

abbrev pub paid_into : SellerPayoutAccount → SellerPayout → SellerPayout
paid_into a p = record p {
  bank_code = some a.bank_code;
  account_sealed = a.account_sealed;
  account_name = some a.account_name;
  account_last4 = some a.account_last4;
  bank_name = some a.bank_name;
  destination_type = a.destination_type;
}

abbrev pub released_payout : SellerPayoutAccount → ℤ → ℤ → Time → SellerPayout → SellerPayout
released_payout a amount recovery t p = record (paid_into a p) {
  state = processing;
  amount_minor = some amount;
  recovery_minor = recovery;
  released_at = some t;
  next_attempt_at = t;
  last_error = none;
  updated_at = t;
}

-- The checks of the table: no negative amount, and no recovery above it.
abbrev pub refuses_amounts : ℤ → ℤ → Bool
refuses_amounts amount recovery =
    ltb_ℤ amount (pos 0) || ltb_ℤ recovery (pos 0) || ltb_ℤ amount recovery

unfoldable pub start_payout : String → SellerPayoutAccount → ℤ → ℤ → Tx Unit0
start_payout id a amount recovery = try_query (λ t d.
    if refuses_amounts amount recovery && any (is_payout id) d.seller_payouts
    then (err database_error, d)
    else (
      ok tt,
      record d {
        seller_payouts =
            update_where (is_payout id) (released_payout a amount recovery t) d.seller_payouts;
      },
    ))

-- What comes of it: nothing to send, a transfer to send, or a message and the seconds to wait.
pub data Release : Type 0 where
  stay send : Release
  wait : String → ℕ → Release

abbrev pub recovery_lines : String → ℤ → List LedgerLine
recovery_lines seller_id recovery =
    ledger_line "seller_payable" (some seller_id) "debit" recovery
    ∷ ledger_line "seller_receivable" (some seller_id) "credit" recovery
    ∷ []

abbrev pub record_recovery : PayoutDesk → SellerPayout → ℤ → Tx Unit0
record_recovery desk p recovery =
    if ltb_ℤ (pos 0) recovery
    then (post_ledger_journal desk.runtime "payout_recovery" p.id
          (desk.settings.trim_space p.currency) "earlier refund repaid from payout"
          (recovery_lines p.seller_id recovery)
        >> pure tt)
    else pure tt

abbrev no_transfer : PayoutTransfer
no_transfer = record {
  reference = "";
  status = "";
  amount = pos 0;
  fee_minor = pos 0;
  message = "";
}

-- Where all of it repaid an earlier refund, nothing is left to transfer.
abbrev pub send_or_settle : PayoutDesk → SellerPayout → ℤ → ℤ → Tx Release
send_or_settle desk p amount recovery =
    if eqb_ℤ amount recovery
    then (mark_payout_paid desk.settings desk.runtime p.id no_transfer >> pure stay)
    else pure send

unfoldable pub release_to : PayoutDesk → SellerPayout → ℤ → SellerPayoutAccount → Tx Release
release_to desk p amount a = do
  recovery ← take_recovery desk.max_bps p.seller_id amount
  record_recovery desk p recovery
  start_payout p.id a amount recovery
  send_or_settle desk p amount recovery

abbrev pub check_account : PayoutDesk → SellerPayout → ℤ → Option SellerPayoutAccount → Tx Release
check_account desk p amount none =
    pure (wait "Waiting for the seller to add a bank account." (hour / second))
check_account desk p amount (some a) = do
  now ← clock
  if after a.usable_from now
      then pure (
          wait "The seller's new bank account is in its 24-hour safety hold."
            ((a.usable_from - now + minute) / second))
      else release_to desk p amount a

unfoldable pub release_amount : PayoutDesk → SellerPayout → ℤ → Tx Release
release_amount desk p amount =
    if leb_ℤ amount (pos 0)
    then (cancel_payout p.id >> mark_items "nothing_to_pay" p.booking_id >> pure stay)
    else (find_payout_account p.seller_id >>= λ a. check_account desk p amount a)

unfoldable pub release_scheduled : PayoutDesk → SellerPayout → Tx Release
release_scheduled desk p = do
  held ← hold_of_payout desk.delay p.booking_id
  if not (str_eq held.0 "") || not held.1
      then pure stay
      else (refunded_share p.booking_id >>= λ refunded.
          release_amount desk p (sub64 p.entitlement_minor refunded))

unfoldable pub release_locked : PayoutDesk → SellerPayout → Tx Release
release_locked desk p =
    if is_scheduled p.state
    then release_scheduled desk p
    else pure (if is_processing p.state then send else stay)

abbrev pub follow_release : String → Release → Tx Bool
follow_release id stay = pure false
follow_release id send = pure true
follow_release id (wait message seconds) = payout_waits id message seconds >> pure false

-- Whether a transfer should be sent.
unfoldable pub release_payout : PayoutDesk → String → Tx Bool
release_payout desk id = do
  r ← in_transaction (lock_payout id >>= λ p. release_locked desk p)
  follow_release id r
