-- ===== src/Payments/Booked.antt =====
-- payments.sql.go and the statements in the handlers: what makes the booking of a verified charge.
use Prim.Native.Char.{code}
use Prim.Native.String.{[], ◌∷◌, ◌++◌ as text_append}
use mathlib.Core.List.{[] as none_of, ◌∷◌ as cons}
use wantmytime.Prelude.{
  ℕ, suc, ◌==◌, ◌++◌, Bool, true, false, not, ◌&&◌, ◌||◌, String, str_eq, none, some, List, find,
  Unit0, if◌then◌else◌,
}
use wantmytime.Prelude.Int64.{ℤ, pos, ltb_ℤ, leb_ℤ, eqb_ℤ, ◌+ℤ◌, ◌*ℤ◌}
use wantmytime.Prelude.Time.{Time}
use wantmytime.Prelude.Tables.{any, update_where}
use wantmytime.Store.Schema.{
  Db, PaymentAllocation, SettlementItem, Booking, Quote, Offer, SellerPayout, scheduled,
  MarketingContact,
}
use wantmytime.Store.Monad.{
  Tx, Result, ok, err, exec, query, try_query, unique_violation, database_error,
}
use wantmytime.Ledger.Journal.{Runtime}
use wantmytime.Refunds.Create.{Settings}
use wantmytime.Payments.Charged.{is_booked_from, is_quote, is_offer, is_hold_of}

abbrev booking_from : String → String → Time → Quote → Booking
booking_from booking_id email t q = record {
  id = booking_id;
  seller_id = q.seller_id;
  buyer_user_id = q.buyer_user_id;
  duration_minutes = q.duration_minutes;
  starts_at = q.starts_at;
  created_at = t;
  gross_minor = q.gross_minor;
  currency = q.currency;
  state = "confirmed";
  payment_state = "paid";
  cancelled_at = none;
  cancelled_by_role = none;
  cancellation_reason = none;
  quote_id = some q.id;
  buyer_name = q.buyer_name;
  guest_email = email;
  issue_reason = none;
  issue_resolved_at = none;
  issue_reported_by = none;
}

-- The unique indexes and the checks of the table `bookings`.
abbrev refuses_booking : String → Quote → Db → Bool
refuses_booking booking_id q d =
    any (λ (b : Booking). str_eq b.id booking_id || is_booked_from q.id b) d.bookings

unfoldable pub create_paid_booking_row : String → String → String → Time → Db → Result Unit0 × Db
create_paid_booking_row booking_id email quote_id t d = elim (find (is_quote quote_id) d.quotes) [
  | none ↦ (ok tt, d)
  | some q ↦
      if refuses_booking booking_id q d
      then (err unique_violation, d)
      else if leb_ℤ q.gross_minor (pos 0) || leb_ℤ q.duration_minutes (pos 0)
      then (err database_error, d)
      else (
        ok tt,
        record d { bookings = d.bookings ++ cons (booking_from booking_id email t q) none_of },
      )
]

unfoldable pub create_paid_booking_from_quote : String → String → String → Tx Unit0
create_paid_booking_from_quote booking_id email quote_id =
    try_query (create_paid_booking_row booking_id email quote_id)

-- The checks of the table: the parts add up, and the fee is at most 5 % of the price, rounded down.
unfoldable pub allocation_adds_up : ℤ → ℤ → ℤ → Bool
allocation_adds_up gross deduction entitlement =
    leb_ℤ (pos 0) deduction
    && leb_ℤ deduction gross
    && leb_ℤ (deduction *ℤ pos 10_000) (gross *ℤ pos 500)
    && eqb_ℤ gross (deduction +ℤ entitlement)

abbrev allocation_row : Runtime → Db → String → ℤ → ℤ → ℤ → ℤ → ℤ → PaymentAllocation
allocation_row rt d booking_id gross deduction entitlement cost bps = record {
  id = rt.random_uuid d.draws;
  booking_id = booking_id;
  deduction_minor = deduction;
  gross_minor = gross;
  seller_entitlement_minor = entitlement;
  processor_cost_minor = cost;
  fee_basis_points = bps;
}

unfoldable pub create_payment_allocation : Runtime → String → ℤ → ℤ → ℤ → ℤ → ℤ → Tx Unit0
create_payment_allocation rt booking_id gross deduction entitlement cost bps = try_query (λ t d.
    if not (allocation_adds_up gross deduction entitlement)
    then (err database_error, d)
    else if any (λ (a : PaymentAllocation). str_eq a.booking_id booking_id) d.payment_allocations
    then (err unique_violation, d)
    else (
      ok tt,
      record d {
        draws = suc d.draws;
        payment_allocations =
            d.payment_allocations
            ++ cons (allocation_row rt d booking_id gross deduction entitlement cost bps) none_of;
      },
    ))

unfoldable pub create_settlement_item_row : String → String → Db → Result Unit0 × Db
create_settlement_item_row reference booking_id d =
    elim (find (λ (a : PaymentAllocation). str_eq a.booking_id booking_id) d.payment_allocations) [
      | none ↦ (ok tt, d)
      | some a ↦
          if any (λ (i : SettlementItem). str_eq i.allocation_id a.id) d.settlement_items
          then (err unique_violation, d)
          else (
            ok tt,
            record d {
              settlement_items =
                  d.settlement_items
                  ++ cons
                      (record {
                        allocation_id = a.id;
                        state = "payout_scheduled";
                        provider_reference = reference;
                      })
                      none_of;
            },
          )
    ]

-- A booking has one allocation at most.
unfoldable pub create_settlement_item_for_booking : String → String → Tx Unit0
create_settlement_item_for_booking reference booking_id =
    try_query (λ t. create_settlement_item_row reference booking_id)

-- strings.ReplaceAll(id, "-", "")
unfoldable pub without_dashes : String → String
without_dashes [] = []
without_dashes (c ∷ s) = let rest = without_dashes s in if code c == 45 then rest else c ∷ rest

-- payoutReference of the first generation.
unfoldable pub first_payout_reference : String → String
first_payout_reference booking_id = text_append "wmt-payout-" (without_dashes booking_id)

abbrev payout_row : Runtime → Time → Db → String → String → ℤ → String → Time → SellerPayout
payout_row rt t d booking_id seller_id entitlement currency funds_at = record {
  id = rt.random_uuid d.draws;
  booking_id = booking_id;
  seller_id = seller_id;
  entitlement_minor = entitlement;
  amount_minor = none;
  recovery_minor = pos 0;
  fee_minor = pos 0;
  currency = currency;
  state = scheduled;
  reference = first_payout_reference booking_id;
  provider_transfer_code = none;
  generation = pos 1;
  provider = "kora";
  funds_available_at = funds_at;
  bank_code = none;
  account_sealed = none_of;
  account_name = none;
  account_last4 = none;
  bank_name = none;
  destination_type = "bank_account";
  attempts = pos 0;
  next_attempt_at = t;
  last_error = none;
  released_at = none;
  paid_at = none;
  updated_at = t;
}

-- INSERT … ON CONFLICT (booking_id) DO NOTHING
unfoldable pub schedule_seller_payout :
    Settings → Runtime → String → String → ℤ → String → Time → Tx Unit0
schedule_seller_payout env rt booking_id seller_id entitlement currency funds_at = try_query (λ t d.
    if ltb_ℤ entitlement (pos 0)
    then (err database_error, d)
    else if any (λ (p : SellerPayout). str_eq p.booking_id booking_id) d.seller_payouts
    then (ok tt, d)
    else if any (λ (p : SellerPayout). str_eq p.reference (first_payout_reference booking_id))
        d.seller_payouts
    then (err unique_violation, d)
    else (
      ok tt,
      record d {
        draws = suc d.draws;
        seller_payouts =
            d.seller_payouts
            ++ cons
                (payout_row rt t d booking_id seller_id entitlement (env.trim_space currency)
                  funds_at)
                none_of;
      },
    ))

unfoldable pub convert_quote : String → Tx Unit0
convert_quote id = exec (λ t d. record d {
  quotes = update_where (is_quote id) (λ q. record q { state = "converted" }) d.quotes;
})

abbrev convertible : String → Offer → Bool
convertible id o = is_offer id o && (str_eq o.state "agreed" || str_eq o.state "expired")

-- Whether a row was changed: the offers' id is their key.
unfoldable pub convert_offer : String → String → Tx Bool
convert_offer booking_id id = query (λ t d. (
  any (convertible id) d.offers,
  record d {
    offers =
        update_where (convertible id)
          (λ o. record o { state = "converted"; converted_booking_id = some booking_id }) d.offers;
  },
))

unfoldable pub confirm_hold_as_booking : String → String → Tx Unit0
confirm_hold_as_booking booking_id quote_id = exec (λ t d. record d {
  slot_reservations =
      update_where (λ r. is_hold_of quote_id r && r.active)
        (λ r. record r {
          reservation_kind = "booking";
          expires_at = none;
          booking_id = some booking_id;
        })
        d.slot_reservations;
})

unfoldable pub record_server_product_event : String → List ℕ → String → String → Tx Unit0
record_server_product_event event_name subject_hash environment seller_id = exec (λ t d. record d {
  product_events =
      d.product_events
      ++ cons
          (record {
            event_name = event_name;
            subject_hash = subject_hash;
            environment = environment;
            occurred_at = t;
            seller_id = some seller_id;
          })
          none_of;
})

abbrev is_unconfirmed : String → MarketingContact → Bool
is_unconfirmed email c =
    str_eq c.email email && elim c.confirmed_at [ none ↦ true | some t ↦ false ]

-- confirmMarketingEmail; the argument is the address in lower case without blanks.
unfoldable pub confirm_marketing_email : String → Tx Unit0
confirm_marketing_email email = exec (λ t d. record d {
  marketing_contacts =
      update_where (is_unconfirmed email) (λ c. record c { confirmed_at = some t })
        d.marketing_contacts;
})
