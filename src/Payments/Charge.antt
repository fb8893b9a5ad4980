-- ===== src/Payments/Charge.antt =====
-- payment_processing.go, applyVerifiedCharge: a charge that the provider confirmed becomes a paid
-- booking, or a record of why it cannot be one.
use Prim.Native.String.{◌++◌ as text_append}
use wantmytime.Prelude.{
  suc, Bool, true, false, not, ◌&&◌, ◌||◌, String, str_eq, Option, none, some, List, [], ◌∷◌, ◌++◌,
  Unit0, ℕ, if◌then◌else◌,
}
use wantmytime.Prelude.Chars.{decimal}
use wantmytime.Prelude.Int64.{ℤ, pos, ltb_ℤ, leb_ℤ, eqb_ℤ, add64, sub64, pos_part}
use wantmytime.Prelude.Time.{Time, after}
use wantmytime.Store.Schema.{PaymentAttempt, Quote, SlotReservation, Booking}
use wantmytime.Store.Monad.{
  Tx, Result, ok, err, ◌>>=◌, ◌>>◌, pure, guard, lift, clock, query, in_transaction,
  missing_snapshot, invalid_snapshot, offer_changed,
}
use wantmytime.Ledger.Totals.{LedgerLine, ledger_line}
use wantmytime.Ledger.Journal.{Runtime, post_ledger_journal}
use wantmytime.Refunds.Statements.{text_or_empty}
use wantmytime.Refunds.Create.{Settings, nullable_string}
use wantmytime.Availability.Zone.{Zones}
use wantmytime.Payments.{funds_available_at}
use wantmytime.Payments.Charged.{
  lock_payment_attempt_by_reference, add_payment_exception, mark_payment_attempt_exception,
  record_payment_attempt_status, record_payment_channel, record_payment_card, record_buyer_fee,
  mark_payment_attempt_success, booking_id_for_quote, lock_quote_for_payment, lock_hold_for_quote,
  lock_seller_availability, lock_offer_state, verified_email_for_user,
}
use wantmytime.Payments.Booked.{
  create_paid_booking_from_quote, create_payment_allocation, create_settlement_item_for_booking,
  schedule_seller_payout, convert_quote, convert_offer, confirm_hold_as_booking,
  record_server_product_event, confirm_marketing_email,
}
use wantmytime.Payments.Late.{reclaim_late_slot}
use wantmytime.Payments.Returned.{return_unbooked_payment}
use wantmytime.Payments.Notices.{enqueue_booking_notifications}

-- A charge as the provider reports it.
pub record VerifiedCharge : Type 0 where
  pub reference : String
  pub status : String
  pub amount : ℤ
  pub paid : ℤ
  pub currency : String
  pub fee : ℤ
  pub channel : String
  pub transaction_id : String
  pub card_country : String

-- What the handler takes from elsewhere: environmentOf, the zones, time.RFC3339, strings.ToLower,
-- analyticsSubjectHash and the hours of settlement that the environment sets for a channel.
pub record Desk : Type 0 where
  pub settings : Settings
  pub runtime : Runtime
  pub environment : String
  pub zones : Zones
  pub rfc3339 : Time → String
  pub to_lower : String → String
  pub subject_hash : String → List ℕ
  pub settlement_hours : String → Option ℤ

-- The attempt's checkout, as it was when the buyer was asked to pay.
pub record Snapshot : Type 0 where
  pub quote_id : String
  pub expected : ℤ
  pub currency : String
  pub platform_fee : ℤ
  pub bps : ℤ
  pub buyer_fee : ℤ
  pub price : ℤ

abbrev pub snapshot_of : Settings → PaymentAttempt → String → ℤ → ℤ → Snapshot
snapshot_of env a quote_id platform_fee bps = record {
  quote_id = quote_id;
  expected = a.expected_minor;
  currency = env.trim_space a.currency;
  platform_fee = platform_fee;
  bps = bps;
  buyer_fee = a.buyer_fee_minor;
  price = sub64 a.expected_minor a.buyer_fee_minor;
}

abbrev all_three : {A B C D : Type 0} → Option A → Option B → Option C → (A → B → C → D) → Option D
all_three none o p f = none
all_three (some a) none p f = none
all_three (some a) (some b) none f = none
all_three (some a) (some b) (some c) f = some (f a b c)

unfoldable pub invalid_fees : Snapshot → Bool
invalid_fees c =
    ltb_ℤ c.buyer_fee (pos 0)
    || leb_ℤ c.price (pos 0)
    || ltb_ℤ c.platform_fee (pos 0)
    || ltb_ℤ c.price c.platform_fee
    || ltb_ℤ c.bps (pos 0)
    || ltb_ℤ (pos 500) c.bps

unfoldable pub read_snapshot : Settings → PaymentAttempt → Result Snapshot
read_snapshot env a =
    elim (all_three a.quote_id a.approved_fee_minor a.fee_basis_points (snapshot_of env a)) [
      | none ↦ err missing_snapshot
      | some c ↦ if invalid_fees c then err invalid_snapshot else ok c
    ]

unfoldable pub record_payment_exception :
    Desk → PaymentAttempt → VerifiedCharge → String → String → ℤ → String → String → Tx Unit0
record_payment_exception desk a charge kind reference amount currency reason = do
  add_payment_exception desk.runtime a.id kind reference amount (desk.settings.trim_space currency)
      reason
  mark_payment_attempt_exception (nullable_string charge.transaction_id) a.id

-- Money that cannot become a booking goes back to the buyer.
unfoldable pub give_back :
    Desk → PaymentAttempt → VerifiedCharge → String → String → ℤ → String → String → Tx String
give_back desk a charge kind reference amount currency reason = do
  record_payment_exception desk a charge kind reference amount currency reason
  return_unbooked_payment desk.settings desk.runtime a.id kind amount currency
  pure ""

unfoldable pub record_failed_charge : PaymentAttempt → VerifiedCharge → Tx String
record_failed_charge a charge = do
  record_payment_attempt_status (if str_eq charge.status "" then "failed" else charge.status)
      (nullable_string charge.transaction_id) a.id
  pure ""

-- The price, the price and a fee on top, or all that the buyer was asked for.
unfoldable pub amount_ok : Snapshot → VerifiedCharge → Bool
amount_ok c charge =
    eqb_ℤ charge.amount c.expected
    || eqb_ℤ charge.amount c.price
    || (ltb_ℤ (pos 0) charge.fee && eqb_ℤ charge.amount (add64 c.price charge.fee))

unfoldable pub charge_matches : Snapshot → String → VerifiedCharge → Bool
charge_matches c reference charge =
    str_eq charge.reference reference && str_eq charge.currency c.currency && amount_ok c charge

abbrev pub mismatch_kind : Snapshot → VerifiedCharge → String
mismatch_kind c charge =
    if str_eq charge.currency c.currency then "wrong_amount" else "wrong_currency"

abbrev amount_text : ℤ → String → String
amount_text amount currency = text_append (decimal amount) (text_append " " currency)

abbrev pub mismatch_text : Snapshot → VerifiedCharge → String
mismatch_text c charge = text_append "The provider confirmed " (
    text_append (amount_text charge.amount charge.currency)
      (text_append "; the booking needs " (text_append (amount_text c.expected c.currency) ".")))

-- A charge under another reference is only recorded.
unfoldable pub refuse_mismatch :
    Desk → PaymentAttempt → Snapshot → String → VerifiedCharge → Tx String
refuse_mismatch desk a c reference charge =
    if str_eq charge.reference reference && ltb_ℤ (pos 0) charge.amount
    then give_back desk a charge (mismatch_kind c charge) reference charge.amount charge.currency
        (text_append (mismatch_text c charge) " It is refunded.")
    else (record_payment_exception desk a charge (mismatch_kind c charge) reference charge.amount
          charge.currency (mismatch_text c charge)
        >> pure "")

abbrev pub card_step : PaymentAttempt → VerifiedCharge → Tx Unit0
card_step a charge =
    if str_eq charge.card_country ""
    then pure tt
    else record_payment_card (some charge.card_country) a.id

abbrev channel_of : PaymentAttempt → VerifiedCharge → String
channel_of a charge = if str_eq charge.channel "" then text_or_empty a.channel else charge.channel

-- Whether the buyer bore another fee of the provider than the one in the snapshot.
unfoldable pub fee_differs : Snapshot → VerifiedCharge → Bool
fee_differs c charge =
    not (eqb_ℤ charge.amount c.expected && ltb_ℤ (pos 0) c.buyer_fee)
    && not (eqb_ℤ charge.fee c.buyer_fee)

unfoldable pub with_fee : Snapshot → VerifiedCharge → Snapshot
with_fee c charge =
    if fee_differs c charge
    then record c { buyer_fee = charge.fee; expected = add64 c.price charge.fee }
    else c

abbrev pub fee_step : PaymentAttempt → Snapshot → VerifiedCharge → Tx Unit0
fee_step a c charge =
    if fee_differs c charge
    then record_buyer_fee (with_fee c charge).expected (with_fee c charge).buyer_fee a.id
    else pure tt

-- The journal of a verified charge.
unfoldable pub charge_lines : Snapshot → String → ℤ → List LedgerLine
charge_lines c seller_id fee =
    (ledger_line "provider_receivable" none "debit" (sub64 c.expected fee) ∷ [])
    ++ (if ltb_ℤ (pos 0) fee then ledger_line "processor_fee_expense" none "debit" fee ∷ [] else [])
    ++ (if ltb_ℤ (pos 0) (add64 c.platform_fee c.buyer_fee)
        then ledger_line "platform_fee_revenue" none "credit" (add64 c.platform_fee c.buyer_fee)
          ∷ []
        else [])
    ++ (if ltb_ℤ (pos 0) (sub64 c.price c.platform_fee)
        then ledger_line "seller_payable" (some seller_id) "credit" (sub64 c.price c.platform_fee)
          ∷ []
        else [])

-- randomUUID, which fails when the system gives no random bytes.
unfoldable pub draw_uuid : Runtime → Tx String
draw_uuid rt = query (λ t d. (rt.random_uuid d.draws, record d { draws = suc d.draws }))

abbrev pub convert_step : String → Option String → Tx Unit0
convert_step booking_id none = pure tt
convert_step booking_id (some offer_id) =
    convert_offer booking_id offer_id >>= λ changed. guard changed offer_changed

unfoldable pub book_charge :
    Desk → PaymentAttempt → Snapshot → String → VerifiedCharge → Quote → Tx String
book_charge desk a c reference charge quote = do
  booking_id ← draw_uuid desk.runtime
  email ← verified_email_for_user quote.buyer_user_id
  create_paid_booking_from_quote booking_id email.normalized_identifier c.quote_id
  confirm_marketing_email (desk.to_lower (desk.settings.trim_space email.normalized_identifier))
  record_server_product_event "verified_booking_paid" (desk.subject_hash quote.buyer_user_id)
      desk.environment quote.seller_id
  create_payment_allocation desk.runtime booking_id c.price c.platform_fee
      (sub64 c.price c.platform_fee) charge.fee c.bps
  create_settlement_item_for_booking reference booking_id
  now ← clock
  schedule_seller_payout desk.settings desk.runtime booking_id quote.seller_id
      (sub64 c.price c.platform_fee) c.currency
      (funds_available_at (desk.settlement_hours (channel_of a charge)) (channel_of a charge) now)
  mark_payment_attempt_success (some booking_id) (nullable_string charge.transaction_id) a.id
  convert_quote c.quote_id
  convert_step booking_id quote.offer_id
  confirm_hold_as_booking booking_id c.quote_id
  enqueue_booking_notifications desk.rfc3339 booking_id
  post_ledger_journal desk.runtime "payment_attempt" a.id c.currency "verified payment"
      (charge_lines c quote.seller_id charge.fee)
  pure booking_id

abbrev offer_text : String
offer_text =
    "The payment belongs to an offer that was withdrawn, declined or already booked. It is refunded."

-- Only an agreement that was changed blocks the booking.
unfoldable pub check_offer :
    Desk → PaymentAttempt → Snapshot → String → VerifiedCharge → Quote → Option String → Tx String
check_offer desk a c reference charge quote none = book_charge desk a c reference charge quote
check_offer desk a c reference charge quote (some offer_id) = do
  offer ← lock_offer_state offer_id
  if str_eq offer.state "agreed" || str_eq offer.state "expired"
      then book_charge desk a c reference charge quote
      else give_back desk a charge "offer_conflict" reference c.expected c.currency offer_text

abbrev seller_text : String
seller_text = "The seller stopped taking bookings before the payment arrived. It is refunded."

unfoldable pub check_seller :
    Desk → PaymentAttempt → Snapshot → String → VerifiedCharge → Quote → Tx String
check_seller desk a c reference charge quote = do
  available ← lock_seller_availability quote.seller_id
  if available
      then check_offer desk a c reference charge quote quote.offer_id
      else give_back desk a charge "payment_without_slot" reference c.expected c.currency
          seller_text

abbrev pub late_text : String
late_text =
    "The payment arrived after the time hold had lapsed and the time is no longer free. It is refunded."

abbrev later_than : Time → Option Time → Bool
later_than now none = false
later_than now (some t) = after t now

abbrev hold_lives : Time → Option SlotReservation → Bool
hold_lives now none = false
hold_lives now (some r) = r.active && later_than now r.expires_at

unfoldable pub hold_is_good : Time → Quote → Option SlotReservation → Bool
hold_is_good now quote hold =
    str_eq quote.state "held" && after quote.expires_at now && hold_lives now hold

abbrev pub reclaim_step : Desk → Quote → Tx Bool
reclaim_step desk quote =
    if str_eq quote.state "held" || str_eq quote.state "expired"
    then reclaim_late_slot desk.zones quote.id quote.seller_id quote.starts_at
        (pos_part quote.duration_minutes)
    else pure false

unfoldable pub check_hold : Desk → PaymentAttempt → Snapshot → String → VerifiedCharge → Tx String
check_hold desk a c reference charge = do
  quote ← lock_quote_for_payment c.quote_id
  hold ← lock_hold_for_quote c.quote_id
  now ← clock
  kept ← (if hold_is_good now quote hold then pure true else reclaim_step desk quote)
  if kept
      then check_seller desk a c reference charge quote
      else give_back desk a charge "payment_without_slot" reference c.expected c.currency late_text

-- The quote's booking, if another payment or an earlier run has made it.
unfoldable pub once_per_quote :
    Desk → PaymentAttempt → Snapshot → String → VerifiedCharge → Option Booking → Tx String
once_per_quote desk a c reference charge none = check_hold desk a c reference charge
once_per_quote desk a c reference charge (some b) =
    mark_payment_attempt_success none (nullable_string charge.transaction_id) a.id >> pure b.id

abbrev twice_text : String
twice_text = "The buyer paid twice for one booking (two payment attempts). This one is refunded."

abbrev pays_twice : PaymentAttempt → Option Booking → Bool
pays_twice a none = false
pays_twice a (some b) = not (str_eq b.id "") && elim a.booking_id [ none ↦ true | some id ↦ false ]

-- An attempt without a booking looks for one first, and all do afterwards.
abbrev pub look_for_duplicate : PaymentAttempt → Snapshot → Tx (Option Booking)
look_for_duplicate a c = elim a.booking_id [
  | none ↦ booking_id_for_quote c.quote_id
  | some id ↦ pure none
]

unfoldable pub take_charge : Desk → PaymentAttempt → Snapshot → String → VerifiedCharge → Tx String
take_charge desk a c reference charge = do
  other ← look_for_duplicate a c
  if pays_twice a other
      then give_back desk a charge "duplicate_charge" reference charge.amount charge.currency
          twice_text
      else (booking_id_for_quote c.quote_id >>= λ booked.
          once_per_quote desk a c reference charge booked)

unfoldable pub accept_charge :
    Desk → PaymentAttempt → Snapshot → String → VerifiedCharge → Tx String
accept_charge desk a c reference charge = do
  record_payment_channel (channel_of a charge) charge.paid a.id
  card_step a charge
  if ltb_ℤ charge.fee (pos 0)
      then give_back desk a charge "settlement_mismatch" reference charge.fee c.currency
          "Verified processor cost is negative."
      else (fee_step a c charge >> take_charge desk a (with_fee c charge) reference charge)

unfoldable pub settle_charge :
    Desk → PaymentAttempt → Snapshot → String → VerifiedCharge → Tx String
settle_charge desk a c reference charge =
    if not (str_eq charge.status "success")
    then record_failed_charge a charge
    else if not (charge_matches c reference charge)
    then refuse_mismatch desk a c reference charge
    else accept_charge desk a c reference charge

unfoldable pub apply_verified_charge : Desk → String → VerifiedCharge → Tx String
apply_verified_charge desk reference charge = in_transaction do
  a ← lock_payment_attempt_by_reference desk.environment reference
  c ← lift (read_snapshot desk.settings a)
  settle_charge desk a c reference charge
