-- ===== src/Payouts/Event.antt =====
-- checkout.go, koraWebhook: what a notice of a refund or of a transfer does, once its signature is
-- verified and its body is read.
use Prim.Native.Char.{code}
use Prim.Native.String.{[], ◌∷◌}
use wantmytime.Prelude.{
  ◌&&◌, Bool, true, false, String, str_eq, Option, none, some, Unit0, ◌==◌, if◌then◌else◌,
}
use wantmytime.Prelude.Tables.{update_where}
use wantmytime.Store.Schema.{Refund, submitted, SellerPayout}
use wantmytime.Store.Monad.{Tx, ◌>>◌, pure, exec, in_transaction}
use wantmytime.Store.Outside.{Job, done, tx, logged, ◌>>=◌ as then_job}
use wantmytime.Refunds.Statements.{has_state}
use wantmytime.Payouts.{is_processing}
use wantmytime.Payouts.Release.{PayoutDesk}
use wantmytime.Payouts.Provider.{KoraApi}
use wantmytime.Payouts.Reversal.{check_payout_reversal}

-- strings.HasPrefix
abbrev pub has_prefix : String → String → Bool
has_prefix s [] = true
has_prefix [] (c ∷ t) = false
has_prefix (d ∷ s) (c ∷ t) = code d == code c && has_prefix s t

-- The notice is stored: a row of a table that the workers here do not read, or an error.
unfoldable pub insert_provider_event : Tx Unit0
insert_provider_event = exec (λ t d. d)

abbrev is_provider_id : String → Option String → Bool
is_provider_id reference none = false
is_provider_id reference (some id) = str_eq id reference

abbrev pub is_submitted_under : String → Refund → Bool
is_submitted_under reference r =
    is_provider_id reference r.provider_refund_id && has_state r.state submitted

-- The next look at the refund comes at once.
unfoldable pub hurry_refund : String → Tx Unit0
hurry_refund reference = exec (λ t d. record d {
  refunds =
      update_where (is_submitted_under reference) (λ r. record r { next_attempt_at = t }) d.refunds;
})

abbrev pub is_processing_under : String → SellerPayout → Bool
is_processing_under reference p = str_eq p.reference reference && is_processing p.state

-- The next look at the transfer comes at once.
unfoldable pub hurry_payout : String → Tx Unit0
hurry_payout reference = exec (λ t d. record d {
  seller_payouts =
      update_where (is_processing_under reference) (λ p. record p { next_attempt_at = t })
        d.seller_payouts;
})

unfoldable pub follow_event : String → String → Tx Unit0
follow_event event reference =
    if has_prefix event "refund."
    then hurry_refund reference
    else if has_prefix event "transfer."
    then hurry_payout reference
    else pure tt

module _ {Bank : Type 0} (kora : KoraApi Bank) (desk : PayoutDesk) where
  -- A payout that failed after it was recorded as paid was returned by the bank.
  abbrev pub after_event : Bool → String → String → Job Bank Unit0
  after_event client event reference =
      if str_eq event "transfer.failed"
      then logged (check_payout_reversal kora desk client reference)
      else done tt

  -- `client` is whether a client for Kora can be made.
  unfoldable pub kora_webhook : Bool → String → String → Job Bank Unit0
  kora_webhook client event reference =
      then_job (tx (in_transaction (insert_provider_event >> follow_event event reference)))
        (λ u. after_event client event reference)
