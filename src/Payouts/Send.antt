-- ===== src/Payouts/Send.antt =====
-- payouts.go, sendPayout: the transfer of a released payout. It looks for the transfer before it
-- sends one.
use wantmytime.Prelude.{
  ℕ, ◌&&◌, Bool, true, false, String, str_eq, Option, none, some, List, find, Unit0, if◌then◌else◌,
}
use wantmytime.Prelude.Int64.{ℤ, pos, sub64}
use wantmytime.Prelude.Tables.{keep_if}
use wantmytime.Store.Schema.{Db, SellerPayout, SellerProfile, UserIdentity}
use wantmytime.Store.Monad.{Tx, select, one_row, ◌>>=◌ as bind_tx}
use wantmytime.Store.Outside.{Job, ◌>>=◌, done, tx, call}
use wantmytime.Payments.Charged.{latest_identity}
use wantmytime.Refunds.Statements.{text_or_empty}
use wantmytime.Payouts.{PayoutTransfer, is_processing}
use wantmytime.Payouts.Release.{PayoutDesk, is_payout, payout_waits}
use wantmytime.Payouts.Status.{retry_backoff, fail_payout, apply_transfer_status}
use wantmytime.Payouts.Provider.{
  KoraApi, PayoutTransferRequest, Lookup, found, unknown, unreachable, Sent, accepted,
  funds_pending, rejected, unanswered, find_transfer, transfer,
}

-- openPayoutAccount opens a sealed account number, and fails on one that it did not seal.
pub record SendDesk : Type 0 where
  pub payouts : PayoutDesk
  pub open_account : String → List ℕ → Option String

abbrev verified_email_of : String → UserIdentity → Bool
verified_email_of user_id i =
    str_eq i.user_id user_id
    && str_eq i.identity_type "email"
    && elim i.verified_at [ none ↦ false | some t ↦ true ]

abbrev email_text : Option UserIdentity → String
email_text none = ""
email_text (some i) = i.normalized_identifier

unfoldable pub find_sending : String → Db → Option (SellerPayout × String)
find_sending id d = elim (find (is_payout id) d.seller_payouts) [
  | none ↦ none
  | some p ↦ elim (find (λ (sp : SellerProfile). str_eq sp.id p.seller_id) d.seller_profiles) [
    | none ↦ none
    | some sp ↦
        some (
          p,
          email_text (latest_identity (keep_if (verified_email_of sp.user_id) d.user_identities)),
        )
  ]
]

unfoldable pub payout_to_send : String → Tx (SellerPayout × String)
payout_to_send id = bind_tx (select (λ t d. find_sending id d)) one_row

abbrev amount_or_zero : Option ℤ → ℤ
amount_or_zero none = pos 0
amount_or_zero (some n) = n

abbrev pub net_of : SellerPayout → ℤ
net_of p = sub64 (amount_or_zero p.amount_minor) p.recovery_minor

abbrev pub request_for : SendDesk → SellerPayout → String → String → PayoutTransferRequest
request_for desk p email account_number = record {
  destination_type = p.destination_type;
  bank_code = text_or_empty p.bank_code;
  account_number = account_number;
  account_name = text_or_empty p.account_name;
  email = email;
  reference = p.reference;
  reason = "WantMyTime booking payout";
  currency = desk.payouts.settings.trim_space p.currency;
  amount_minor = net_of p;
}

-- The account that the money goes to.
abbrev pub opened_account : SendDesk → SellerPayout → Option String
opened_account desk p =
    if str_eq (text_or_empty p.bank_code) ""
    then none
    else desk.open_account p.seller_id p.account_sealed

-- What the lookup after a transfer says goes before what the transfer said.
abbrev pub checked : PayoutTransfer → Lookup → PayoutTransfer
checked t (found u) = u
checked t unknown = t
checked t unreachable = t

module _ {Bank : Type 0} (kora : KoraApi Bank) (desk : SendDesk) where
  abbrev pub follow_sent : SellerPayout → Sent → Job Bank Unit0
  follow_sent p (accepted t) = do
    again ← call (find_transfer kora p.reference)
    tx (apply_transfer_status desk.payouts p.id (checked t again))
  follow_sent p funds_pending =
      tx
        (payout_waits p.id "Waiting for the buyer's payment to settle into the payout balance." 900)
  follow_sent p (rejected message) = tx (fail_payout p.id message)
  follow_sent p unanswered =
      tx (
        payout_waits p.id "The payout provider did not answer; retrying."
          (retry_backoff p.attempts))

  abbrev pub send_to : SellerPayout → String → Option String → Job Bank Unit0
  send_to p email none = tx (
      fail_payout p.id
        "The payout bank details could not be read. Check the encryption key, then retry.")
  send_to p email (some account_number) = do
    sent ← call (transfer kora (request_for desk p email account_number))
    follow_sent p sent

  abbrev pub follow_lookup : SellerPayout → String → Lookup → Job Bank Unit0
  follow_lookup p email unreachable = tx (
      payout_waits p.id "Could not reach the payout provider; retrying." (retry_backoff p.attempts))
  follow_lookup p email (found t) = tx (apply_transfer_status desk.payouts p.id t)
  follow_lookup p email unknown = send_to p email (opened_account desk p)

  unfoldable pub send_processing : SellerPayout × String → Job Bank Unit0
  send_processing (p, email) =
      if is_processing p.state
      then (call (find_transfer kora p.reference) >>= λ looked. follow_lookup p email looked)
      else done tt

  unfoldable pub send_payout : String → Job Bank Unit0
  send_payout id = tx (payout_to_send id) >>= send_processing
