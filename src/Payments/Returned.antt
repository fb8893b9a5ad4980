-- ===== src/Payments/Returned.antt =====
-- unbooked.go, returnUnbookedPayment: the refund of a payment that cannot become a booking.
use Prim.Native.String.{◌++◌ as text_append}
use wantmytime.Prelude.{
  suc, Bool, not, ◌&&◌, ◌||◌, ◌++◌, String, str_eq, Option, none, some, [], ◌∷◌, find, Unit0,
  if◌then◌else◌,
}
use wantmytime.Prelude.Int64.{ℤ, pos, leb_ℤ}
use wantmytime.Prelude.Time.{Time}
use wantmytime.Prelude.Tables.{any, update_where}
use wantmytime.Store.Schema.{Db, Refund, RefundState, queued, pending_approval, failed}
use wantmytime.Store.Monad.{Tx, ◌>>=◌, ◌>>◌, pure, select, query, exec}
use wantmytime.Ledger.Journal.{Runtime}
use wantmytime.Refunds.Statements.{text_or_empty, has_state}
use wantmytime.Refunds.Create.{Settings}
use wantmytime.Refunds.Unbooked.{enqueue_exception_email}
use wantmytime.Payments.Charged.{is_attempt, is_exception_of, is_quote}

-- unbookedRefundKinds
abbrev pub unbooked_refund_kind : String → Bool
unbooked_refund_kind kind =
    str_eq kind "payment_without_slot"
    || str_eq kind "duplicate_charge"
    || str_eq kind "offer_conflict"
    || str_eq kind "wrong_amount"
    || str_eq kind "wrong_currency"

abbrev buyer_of : Db → String → Option String
buyer_of d attempt_id = elim (find (is_attempt attempt_id) d.payment_attempts) [
  | none ↦ none
  | some a ↦ elim (find (is_quote (text_or_empty a.quote_id)) d.quotes) [
    | none ↦ none
    | some q ↦ some q.buyer_user_id
  ]
]

-- The exception and the buyer.
unfoldable pub find_returned : String → String → Db → Option (String × String)
find_returned attempt_id kind d =
    elim (find (is_exception_of attempt_id kind) d.payment_exceptions) [
      | none ↦ none
      | some e ↦ elim (buyer_of d attempt_id) [
        | none ↦ none
        | some buyer_id ↦ some (e.id, buyer_id)
      ]
    ]

abbrev returned_refund : String → String → String → ℤ → String → RefundState → Time → Refund
returned_refund id exception_id attempt_id amount currency state t = record {
  id = id;
  booking_id = none;
  payment_attempt_id = some attempt_id;
  amount_minor = amount;
  currency = currency;
  platform_share_minor = amount;
  seller_share_minor = pos 0;
  reason = "unbooked_payment";
  state = state;
  provider_refund_id = none;
  attempts = pos 0;
  next_attempt_at = t;
  last_error = none;
  requested_by = none;
  approved_by = none;
  note = some "Automatic refund of a payment that could not become a booking.";
  submitted_at = none;
  processed_at = none;
  seller_liability = "payable";
  payment_exception_id = some exception_id;
}

abbrev refunds_exception : String → Refund → Bool
refunds_exception exception_id r =
    str_eq (text_or_empty r.payment_exception_id) exception_id && not (has_state r.state failed)

-- INSERT … ON CONFLICT (payment_exception_id) WHERE state <> 'failed' DO NOTHING RETURNING id
unfoldable pub insert_returned_refund :
    Runtime → String → String → ℤ → String → RefundState → Tx (Option String)
insert_returned_refund rt exception_id attempt_id amount currency state = query (λ t d.
    if any (refunds_exception exception_id) d.refunds then (none, d) else (
      some (rt.random_uuid d.draws),
      record d {
        draws = suc d.draws;
        refunds =
            d.refunds
            ++ (returned_refund (rt.random_uuid d.draws) exception_id attempt_id amount currency
                  state t
                ∷ []);
      },
    ))

unfoldable pub await_provider : String → String → Tx Unit0
await_provider exception_id resolution = exec (λ t d. record d {
  payment_exceptions =
      update_where (λ e. str_eq e.id exception_id && str_eq e.state "open")
        (λ e. record e { state = "awaiting_provider"; resolution = some resolution })
        d.payment_exceptions;
})

-- A refund that is there already needs nothing more.
abbrev pub tell_buyer : String → String → Option String → Tx Unit0
tell_buyer exception_id buyer_id none = pure tt
tell_buyer exception_id buyer_id (some refund_id) = do
  await_provider exception_id
      (text_append (text_append "Refund " refund_id) " started automatically.")
  enqueue_exception_email exception_id buyer_id "payment_returning_buyer"

abbrev first_state : Settings → RefundState
first_state env = if env.refunds_enabled then queued else pending_approval

abbrev pub return_to :
    Settings → Runtime → String → ℤ → String → Option (String × String) → Tx Unit0
return_to env rt attempt_id amount currency none = pure tt
return_to env rt attempt_id amount currency (some (exception_id, buyer_id)) = do
  refund_id ←
      insert_returned_refund rt exception_id attempt_id amount (env.trim_space currency)
        (first_state env)
  tell_buyer exception_id buyer_id refund_id

unfoldable pub return_unbooked_payment :
    Settings → Runtime → String → String → ℤ → String → Tx Unit0
return_unbooked_payment env rt attempt_id kind amount currency =
    if not (unbooked_refund_kind kind) || leb_ℤ amount (pos 0)
    then pure tt
    else (select (λ t d. find_returned attempt_id kind d) >>= λ found.
        return_to env rt attempt_id amount currency found)
