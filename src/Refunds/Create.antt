-- ===== src/Refunds/Create.antt =====
-- refunds.go, createRefund: what is refunded, who bears it, and whether it is sent by itself.
use wantmytime.Prelude.{
  Bool, true, false, not, ◌&&◌, ◌||◌, String, str_eq, Option, none, some, find, if◌then◌else◌,
}
use wantmytime.Prelude.Int64.{ℤ, pos, ltb_ℤ, leb_ℤ, eqb_ℤ, add64}
use wantmytime.Store.Schema.{
  RefundState, pending_approval, queued, not_required, SellerPayout, PayoutState, scheduled,
  processing, paid, payout_failed, cancelled,
}
use wantmytime.Store.Monad.{Result, ok, err, Tx, ◌>>=◌, pure, lift, select, no_verified_payment}
use wantmytime.Policy.{refund_shares}
use wantmytime.Ledger.Journal.{Runtime}
use wantmytime.Refunds.Statements.{BookingForCancellation, insert_refund}

-- What comes from outside of the repository's code: strings.TrimSpace, PostgreSQL's `text LIKE
-- pattern`, and the refunds switch (REFUNDS_ENABLED with the provider's configuration).
pub record Settings : Type 0 where
  pub trim_space : String → String
  pub like : String → String → Bool
  pub refunds_enabled : Bool

-- The amount, the platform's part, the seller's part, the first state and the note.
pub record RefundPlan : Type 0 where
  pub amount : ℤ
  pub platform : ℤ
  pub seller : ℤ
  pub state : RefundState
  pub note : Option String

-- The seller was at fault and the buyer gets the whole price back.
abbrev pub returns_buyer_fee : BookingForCancellation → ℤ → String → Bool
returns_buyer_fee b amount reason =
    (str_eq reason "seller_cancelled" || str_eq reason "seller_no_show")
    && eqb_ℤ amount b.gross_minor
    && ltb_ℤ (pos 0) b.buyer_fee_minor
    && str_eq b.payment_state "paid"

abbrev pub simulator_note : String
simulator_note = "Local simulator booking: no money was collected, so nothing is refunded."

-- The `switch` on the payment of the booking.
unfoldable pub refund_switch : Settings → BookingForCancellation → ℤ → ℤ → ℤ → Result RefundPlan
refund_switch env b amount platform seller =
    if str_eq b.payment_state "simulated"
    then ok (record {
      amount = amount;
      platform = pos 0;
      seller = amount;
      state = not_required;
      note = some simulator_note;
    })
    else if not (str_eq b.payment_state "paid") || str_eq b.payment_attempt_id ""
    then err no_verified_payment
    else ok (record {
      amount = amount;
      platform = platform;
      seller = seller;
      state = if env.refunds_enabled then queued else pending_approval;
      note = none;
    })

-- From the amount, which is positive, to the plan.
unfoldable pub refund_plan : Settings → BookingForCancellation → ℤ → String → Result RefundPlan
unfolding refund_switch
refund_plan env b asked reason =
    let amount = if ltb_ℤ b.gross_minor asked then b.gross_minor else asked in
    let shares = refund_shares amount b.gross_minor b.deduction_minor in
    if returns_buyer_fee b amount reason
    then refund_switch env b (add64 amount b.buyer_fee_minor) (add64 shares.0 b.buyer_fee_minor)
        shares.1
    else refund_switch env b amount shares.0 shares.1

abbrev pub payout_is_held : PayoutState → Bool
payout_is_held scheduled = true
payout_is_held cancelled = true
payout_is_held processing = false
payout_is_held paid = false
payout_is_held payout_failed = false

abbrev is_not_required : RefundState → Bool
is_not_required not_required = true
is_not_required _ = false

-- Who bears the seller's part: their payout while it is held, else they owe it.
unfoldable pub seller_liability : Option SellerPayout → RefundState → String
seller_liability payout state = if is_not_required state then "payable" else elim payout [
  | some po ↦ if payout_is_held po.state then "payable" else "receivable"
  | none ↦ "receivable"
]

-- nullableString
unfoldable pub nullable_string : String → Option String
nullable_string s = if str_eq s "" then none else some s

-- `none` where the amount is not positive: there is nothing to refund.
unfoldable pub create_refund :
    Settings → Runtime → BookingForCancellation → ℤ → String → Option String → Tx (Option String)
create_refund env rt b amount reason requested_by = if leb_ℤ amount (pos 0) then pure none else do
  plan ← lift (refund_plan env b amount reason)
  payout ←
      select
        (λ t d. find (λ (po : SellerPayout). str_eq po.booking_id b.booking_id) d.seller_payouts)
  id ← insert_refund rt (record {
    booking_id = b.booking_id;
    payment_attempt_id = nullable_string b.payment_attempt_id;
    amount_minor = plan.amount;
    currency = env.trim_space b.currency;
    platform_share_minor = plan.platform;
    seller_share_minor = plan.seller;
    reason = reason;
    state = plan.state;
    requested_by = requested_by;
    note = plan.note;
    seller_liability = seller_liability payout plan.state;
  })
  pure (some id)
