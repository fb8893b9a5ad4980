-- ===== src/Payouts/Reversal.antt =====
-- payouts.go, checkPayoutReversal: a transfer that the bank sent back after it was recorded as paid.
use Prim.Native.String.{◌++◌ as text_append}
use wantmytime.Prelude.{
  ◌&&◌, ◌||◌, Bool, true, false, String, str_eq, Option, none, some, List, [], ◌∷◌, find, Unit0,
  if◌then◌else◌,
}
use wantmytime.Prelude.Int64.{ℤ, pos, ltb_ℤ}
use wantmytime.Store.Schema.{
  PayoutState, scheduled, processing, paid, payout_failed, cancelled, SellerPayout,
}
use wantmytime.Store.Monad.{
  Tx, ◌>>=◌, ◌>>◌, pure, select, query, in_transaction, payouts_unavailable, provider_unreachable,
}
use wantmytime.Store.Outside.{Job, done, refuse, tx, call, ◌>>=◌ as then_job}
use wantmytime.Ledger.Totals.{LedgerLine, ledger_line}
use wantmytime.Ledger.Journal.{post_ledger_journal}
use wantmytime.Refunds.Statements.{any, update_where}
use wantmytime.Payouts.{PayoutTransfer}
use wantmytime.Payouts.Release.{PayoutDesk, is_payout}
use wantmytime.Payouts.Status.{failed_payout, payout_failed_email}
use wantmytime.Payouts.Provider.{KoraApi, Lookup, found, unknown, unreachable, find_transfer}
use wantmytime.Payouts.Send.{net_of}

abbrev pub is_paid : PayoutState → Bool
is_paid paid = true
is_paid scheduled = false
is_paid processing = false
is_paid payout_failed = false
is_paid cancelled = false

abbrev pub is_paid_payout : String → SellerPayout → Bool
is_paid_payout id p = is_payout id p && is_paid p.state

abbrev was_paid_under : String → SellerPayout → Bool
was_paid_under reference p = str_eq p.reference reference && is_paid p.state

unfoldable pub paid_under : String → Tx (Option SellerPayout)
paid_under reference = select (λ t d. find (was_paid_under reference) d.seller_payouts)

-- Whether the row was changed.
unfoldable pub set_payout_returned : String → Tx Bool
set_payout_returned id = query (λ t d. (
  any (is_paid_payout id) d.seller_payouts,
  record d {
    seller_payouts =
        update_where (is_paid_payout id)
          (failed_payout
            "The bank returned this transfer. Check the seller's bank account, then retry." t)
          d.seller_payouts;
  },
))

abbrev pub reversal_lines : String → ℤ → List LedgerLine
reversal_lines seller_id net =
    ledger_line "provider_receivable" none "debit" net
    ∷ ledger_line "seller_payable" (some seller_id) "credit" net
    ∷ []

abbrev pub post_reversal : PayoutDesk → SellerPayout → Tx Unit0
post_reversal desk p =
    if ltb_ℤ (pos 0) (net_of p)
    then (post_ledger_journal desk.runtime "payout_reversal"
          (text_append p.id (text_append ":" p.reference)) (desk.settings.trim_space p.currency)
          "seller payout returned by bank" (reversal_lines p.seller_id (net_of p))
        >> pure tt)
    else pure tt

abbrev pub returned_steps : PayoutDesk → SellerPayout → Bool → Tx Unit0
returned_steps desk p false = pure tt
returned_steps desk p true = payout_failed_email p.id >> post_reversal desk p

-- Where no row is changed the code rolls back instead of committing: it has written nothing then.
unfoldable pub record_reversal : PayoutDesk → SellerPayout → Tx Unit0
record_reversal desk p =
    in_transaction (set_payout_returned p.id >>= λ changed. returned_steps desk p changed)

abbrev pub came_back : PayoutTransfer → Bool
came_back t = str_eq t.status "reversed" || str_eq t.status "failed"

module _ {Bank : Type 0} (kora : KoraApi Bank) (desk : PayoutDesk) where
  abbrev pub follow_reversal : SellerPayout → Lookup → Job Bank Unit0
  follow_reversal p unreachable = refuse provider_unreachable
  follow_reversal p unknown = done tt
  follow_reversal p (found t) = if came_back t then tx (record_reversal desk p) else done tt

  abbrev pub ask_provider : Bool → Option SellerPayout → Job Bank Unit0
  ask_provider client none = done tt
  ask_provider false (some p) = refuse payouts_unavailable
  ask_provider true (some p) =
      then_job (call (find_transfer kora p.reference)) (λ looked. follow_reversal p looked)

  -- `client` is whether a client for Kora can be made.
  unfoldable pub check_payout_reversal : Bool → String → Job Bank Unit0
  check_payout_reversal client reference =
      then_job (tx (paid_under reference)) (λ p. ask_provider client p)
