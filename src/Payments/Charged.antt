-- ===== src/Payments/Charged.antt =====
-- payments.sql.go: the statements with which a verified charge becomes a booking, or a record of why
-- it cannot.
use wantmytime.Prelude.{
  suc, ◌++◌, Bool, true, false, not, ◌&&◌, ◌||◌, String, str_eq, Option, none, some, List, [], ◌∷◌,
  find, Unit0, ltb, if◌then◌else◌,
}
use wantmytime.Prelude.Int64.{ℤ, pos, leb_ℤ}
use wantmytime.Prelude.Time.{Time}
use wantmytime.Prelude.Tables.{any, update_where, keep_if}
use wantmytime.Store.Schema.{
  Db, PaymentAttempt, PaymentException, Booking, Quote, Offer, SlotReservation, SellerProfile, User,
  UserIdentity,
}
use wantmytime.Store.Monad.{Tx, ok, err, ◌>>=◌, select, exec, try_query, one_row, database_error}
use wantmytime.Ledger.Journal.{Runtime}
use wantmytime.Refunds.Statements.{text_or_empty, coalesce}
use wantmytime.Refunds.Create.{nullable_string}

abbrev pub is_attempt : String → PaymentAttempt → Bool
is_attempt id a = str_eq a.id id

abbrev has_reference : String → String → PaymentAttempt → Bool
has_reference environment reference a =
    str_eq a.provider "kora"
    && str_eq a.environment environment
    && str_eq a.merchant_reference reference

unfoldable pub lock_payment_attempt_by_reference : String → String → Tx PaymentAttempt
lock_payment_attempt_by_reference environment reference = do
  row ← select (λ t d. find (has_reference environment reference) d.payment_attempts)
  one_row row

abbrev pub is_exception_of : String → String → PaymentException → Bool
is_exception_of attempt_id kind e =
    str_eq (text_or_empty e.payment_attempt_id) attempt_id && str_eq e.kind kind

-- INSERT … ON CONFLICT (payment_attempt_id, kind) DO NOTHING
unfoldable pub add_payment_exception :
    Runtime → String → String → String → ℤ → String → String → Tx Unit0
add_payment_exception rt attempt_id kind reference amount currency reason = exec (λ t d.
    if any (is_exception_of attempt_id kind) d.payment_exceptions then d else record d {
      draws = suc d.draws;
      payment_exceptions =
          d.payment_exceptions
          ++ (record {
            id = rt.random_uuid d.draws;
            state = "open";
            resolution = none;
            resolved_at = none;
            payment_attempt_id = some attempt_id;
            kind = kind;
            provider_case_reference = reference;
            amount_minor = amount;
            currency = currency;
            reason = reason;
          }
              ∷ []);
    })

abbrev set_attempt : String → (PaymentAttempt → PaymentAttempt) → Tx Unit0
set_attempt id f =
    exec (λ t d. record d { payment_attempts = update_where (is_attempt id) f d.payment_attempts })

unfoldable pub mark_payment_attempt_exception : Option String → String → Tx Unit0
mark_payment_attempt_exception transaction_id id = set_attempt id (λ a. record a {
  canonical_state = "exception";
  provider_transaction_id = coalesce transaction_id a.provider_transaction_id;
})

abbrev is_settled : PaymentAttempt → Bool
is_settled a = str_eq a.canonical_state "success" || str_eq a.canonical_state "exception"

unfoldable pub record_payment_attempt_status : String → Option String → String → Tx Unit0
record_payment_attempt_status state transaction_id id = exec (λ t d. record d {
  payment_attempts =
      update_where (λ a. is_attempt id a && not (is_settled a))
        (λ a. record a {
          canonical_state = state;
          provider_transaction_id = coalesce transaction_id a.provider_transaction_id;
        })
        d.payment_attempts;
})

-- COALESCE(NULLIF($1::text, ''), channel)
unfoldable pub record_payment_channel : String → ℤ → String → Tx Unit0
record_payment_channel channel paid id = set_attempt id (λ a. record a {
  channel = coalesce (nullable_string channel) a.channel;
  paid_minor = some paid;
})

unfoldable pub record_payment_card : Option String → String → Tx Unit0
record_payment_card country id = set_attempt id (λ a. record a { card_country = country })

-- The statement of applyVerifiedCharge itself, and the table's `CHECK (expected_minor > 0)`.
unfoldable pub record_buyer_fee : ℤ → ℤ → String → Tx Unit0
record_buyer_fee expected fee id = try_query (λ t d.
    if leb_ℤ expected (pos 0) && any (is_attempt id) d.payment_attempts
    then (err database_error, d)
    else (
      ok tt,
      record d {
        payment_attempts =
            update_where (is_attempt id)
              (λ a. record a { expected_minor = expected; buyer_fee_minor = fee })
              d.payment_attempts;
      },
    ))

unfoldable pub mark_payment_attempt_success : Option String → Option String → String → Tx Unit0
mark_payment_attempt_success booking_id transaction_id id = set_attempt id (λ a. record a {
  booking_id = coalesce booking_id a.booking_id;
  canonical_state = "success";
  provider_transaction_id = coalesce transaction_id a.provider_transaction_id;
})

abbrev pub is_booked_from : String → Booking → Bool
is_booked_from quote_id b = str_eq (text_or_empty b.quote_id) quote_id

unfoldable pub booking_id_for_quote : String → Tx (Option Booking)
booking_id_for_quote quote_id = select (λ t d. find (is_booked_from quote_id) d.bookings)

abbrev pub is_quote : String → Quote → Bool
is_quote id q = str_eq q.id id

unfoldable pub lock_quote_for_payment : String → Tx Quote
lock_quote_for_payment id = do row ← select (λ t d. find (is_quote id) d.quotes); one_row row

abbrev pub is_hold_of : String → SlotReservation → Bool
is_hold_of quote_id r = str_eq (text_or_empty r.quote_id) quote_id

unfoldable pub lock_hold_for_quote : String → Tx (Option SlotReservation)
lock_hold_for_quote quote_id = select (λ t d. find (is_hold_of quote_id) d.slot_reservations)

abbrev seller_available : Db → SellerProfile → Option Bool
seller_available d sp = elim (find (λ (u : User). str_eq u.id sp.user_id) d.users) [
  | none ↦ none
  | some u ↦ some (str_eq u.status "active" && not sp.paused)
]

unfoldable pub find_seller_availability : String → Db → Option Bool
find_seller_availability seller_id d =
    elim (find (λ (sp : SellerProfile). str_eq sp.id seller_id) d.seller_profiles) [
      | none ↦ none
      | some sp ↦ seller_available d sp
    ]

unfoldable pub lock_seller_availability : String → Tx Bool
lock_seller_availability seller_id = do
  row ← select (λ t d. find_seller_availability seller_id d)
  one_row row

abbrev pub is_offer : String → Offer → Bool
is_offer id o = str_eq o.id id

unfoldable pub lock_offer_state : String → Tx Offer
lock_offer_state id = do row ← select (λ t d. find (is_offer id) d.offers); one_row row

-- ORDER BY verified_at DESC NULLS LAST LIMIT 1: the later of two, the first of equals.
abbrev verified_before : Option Time → Option Time → Bool
verified_before none none = false
verified_before none (some t) = true
verified_before (some t) none = false
verified_before (some t) (some u) = ltb t u

unfoldable pub latest_identity : List UserIdentity → Option UserIdentity
latest_identity [] = none
latest_identity (i ∷ l) = elim (latest_identity l) [
  | none ↦ some i
  | some j ↦ if verified_before i.verified_at j.verified_at then some j else some i
]

abbrev email_of : String → UserIdentity → Bool
email_of user_id i = str_eq i.user_id user_id && str_eq i.identity_type "email"

unfoldable pub verified_email_for_user : String → Tx UserIdentity
verified_email_for_user user_id = do
  row ← select (λ t d. latest_identity (keep_if (email_of user_id) d.user_identities))
  one_row row
