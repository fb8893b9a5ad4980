-- ===== src/Payouts/Retry.antt =====
-- payouts.go, autoRetryFailedPayouts and opsRetryPayout: a failed payout is sent again, under a new
-- reference and to the seller's present account.
use wantmytime.Prelude.{
  ℕ, zero, suc, ◌+◌, ◌*◌, ◌++◌, ◌&&◌, ◌||◌, not, Bool, true, false, String, str_eq, Option, none,
  some, List, [], ◌∷◌, find, Unit0, leb, ltb, if◌then◌else◌,
}
use wantmytime.Prelude.Int64.{ℤ, pos, leb_ℤ, ltb_ℤ, eqb_ℤ, ◌+ℤ◌}
use wantmytime.Prelude.Time.{Time, hour}
use wantmytime.Store.Schema.{
  Db, PayoutState, scheduled, processing, paid, payout_failed, cancelled, SellerPayout,
  SellerPayoutAccount,
}
use wantmytime.Store.Monad.{
  Result, ok, err, unique_violation, payout_not_retryable, payout_account_required, reason_required,
  Tx, ◌>>=◌, ◌>>◌, pure, fail, select, exec, try_query, in_transaction,
}
use wantmytime.Refunds.Statements.{any, update_where}
use wantmytime.Refunds.Create.{Settings}
use wantmytime.Refunds.Operator.{has_reason, insert_audit_event}
use wantmytime.Payouts.Reference.{payout_reference}
use wantmytime.Payouts.Release.{is_payout, paid_into}

abbrev pub is_failed : PayoutState → Bool
is_failed payout_failed = true
is_failed scheduled = false
is_failed processing = false
is_failed paid = false
is_failed cancelled = false

-- The hours to wait after a failure; the fifth failure in a row stays.
unfoldable pub retry_after : ℤ → ℕ
retry_after generation =
    if eqb_ℤ generation (pos 1)
    then 2 * hour
    else if eqb_ℤ generation (pos 2)
    then 12 * hour
    else if eqb_ℤ generation (pos 3)
    then 24 * hour
    else 48 * hour

abbrev pub is_usable : Time → String → SellerPayoutAccount → Bool
is_usable now seller_id a = str_eq a.seller_id seller_id && leb a.usable_from now

unfoldable pub retry_is_due : Time → SellerPayout → SellerPayoutAccount → Bool
retry_is_due now p a =
    (ltb p.updated_at a.updated_at && ltb_ℤ p.generation (pos 20))
    || (leb_ℤ p.generation (pos 4) && ltb (p.updated_at + retry_after p.generation) now)

-- A row of the query.
pub record RetryCandidate : Type 0 where
  pub id : String
  pub booking_id : String
  pub generation : ℤ
  pub account_changed : Bool
  pub updated_at : Time

abbrev pub candidate_of : SellerPayout → SellerPayoutAccount → RetryCandidate
candidate_of p a = record {
  id = p.id;
  booking_id = p.booking_id;
  generation = p.generation;
  account_changed = ltb p.updated_at a.updated_at;
  updated_at = p.updated_at;
}

-- A seller has at most one account.
abbrev pub candidate : Time → Db → SellerPayout → List RetryCandidate
candidate now d p = elim (find (is_usable now p.seller_id) d.seller_payout_accounts) [
  | none ↦ []
  | some a ↦ if is_failed p.state && retry_is_due now p a then candidate_of p a ∷ [] else []
]

abbrev pub retry_rows : Time → Db → List SellerPayout → List RetryCandidate
retry_rows now d [] = []
retry_rows now d (p ∷ l) = candidate now d p ++ retry_rows now d l

abbrev pub insert_by_update : RetryCandidate → List RetryCandidate → List RetryCandidate
insert_by_update c [] = c ∷ []
insert_by_update c (x ∷ l) =
    let rest = insert_by_update c l in if leb c.updated_at x.updated_at then c ∷ x ∷ l else x ∷ rest

-- ORDER BY updated_at
unfoldable pub order_by_update : List RetryCandidate → List RetryCandidate
order_by_update [] = []
order_by_update (c ∷ l) = insert_by_update c (order_by_update l)

-- LIMIT
abbrev pub first_rows : {A : Type 0} → ℕ → List A → List A
first_rows zero l = []
first_rows (suc n) [] = []
first_rows (suc n) (x ∷ l) = x ∷ first_rows n l

unfoldable pub retry_candidates : Tx (List RetryCandidate)
retry_candidates = select (λ t d. first_rows 20 (order_by_update (retry_rows t d d.seller_payouts)))

abbrev pub retried_payout : SellerPayoutAccount → ℤ → String → Time → SellerPayout → SellerPayout
retried_payout a generation reference t p = record (paid_into a p) {
  state = processing;
  generation = generation;
  reference = reference;
  attempts = pos 0;
  next_attempt_at = t;
  last_error = none;
  provider_transfer_code = none;
  updated_at = t;
}

abbrev pub is_other : String → String → SellerPayout → Bool
is_other id reference p = not (is_payout id p) && str_eq p.reference reference

-- The payout that is still failed in the generation that was seen.
abbrev pub is_same_failure : String → ℤ → SellerPayout → Bool
is_same_failure id generation p =
    is_payout id p && is_failed p.state && eqb_ℤ p.generation generation

-- The update of one row; its reference is unique in the table.
abbrev pub send_again :
    (SellerPayout → Bool) → String → String → ℤ → Time → Db → SellerPayoutAccount → Result Bool × Db
send_again which id booking_id generation t d a =
    let reference = payout_reference booking_id generation in
    if any (is_other id reference) d.seller_payouts then (err unique_violation, d) else (
      ok true,
      record d {
        seller_payouts =
            update_where which (retried_payout a generation reference t) d.seller_payouts;
      },
    )

abbrev pub payout_account_of : Db → SellerPayout → Option SellerPayoutAccount
payout_account_of d p =
    find (λ (a : SellerPayoutAccount). str_eq a.seller_id p.seller_id) d.seller_payout_accounts

-- Whether a row was changed.
unfoldable pub requeue_row : RetryCandidate → Time → Db → Result Bool × Db
requeue_row c t d = elim (find (is_same_failure c.id c.generation) d.seller_payouts) [
  | none ↦ (ok false, d)
  | some p ↦ elim (payout_account_of d p) [
    | none ↦ (ok false, d)
    | some a ↦
        send_again (is_same_failure c.id c.generation) c.id c.booking_id (c.generation +ℤ pos 1) t d
          a
  ]
]

unfoldable pub requeue_payout : RetryCandidate → Tx Bool
requeue_payout c = try_query (requeue_row c)

abbrev retry_reason : RetryCandidate → String
retry_reason c =
    if c.account_changed
    then "Retried automatically after the seller updated their payout account."
    else "Retried automatically on the retry schedule (2, 12, 24 and 48 hours after each failure)."

unfoldable pub audit_auto_retry : RetryCandidate → Tx Unit0
audit_auto_retry c = exec (λ t d. record d {
  audit_events =
      d.audit_events
      ++ (record {
        actor_id = none;
        action = "payout.auto_retry";
        target_id = some c.id;
        reason = some (retry_reason c);
      }
          ∷ []);
})

unfoldable pub retry_candidate : RetryCandidate → Tx Unit0
retry_candidate c =
    in_transaction do changed ← requeue_payout c; if changed then audit_auto_retry c else pure tt

unfoldable pub retry_all : List RetryCandidate → Tx Unit0
retry_all [] = pure tt
retry_all (c ∷ l) = do retry_candidate c; retry_all l

unfoldable pub auto_retry_failed_payouts : Tx Unit0
auto_retry_failed_payouts = do l ← retry_candidates; retry_all l

-- The payout that the operator names, with the account if it is usable.
abbrev pub is_failed_payout : String → SellerPayout → Bool
is_failed_payout id p = is_payout id p && is_failed p.state

abbrev with_account : Time → Db → SellerPayout → SellerPayout × Option SellerPayoutAccount
with_account t d p = (p, find (is_usable t p.seller_id) d.seller_payout_accounts)

unfoldable pub find_failed_payout :
    String → Time → Db → Option (SellerPayout × Option SellerPayoutAccount)
find_failed_payout id t d = elim (find (is_failed_payout id) d.seller_payouts) [
  | none ↦ none
  | some p ↦ some (with_account t d p)
]

-- The statement of opsRetryPayout, on the row that it locked.
unfoldable pub resend_payout : SellerPayout → SellerPayoutAccount → Tx Bool
resend_payout p a =
    try_query (λ t d. send_again (is_payout p.id) p.id p.booking_id (p.generation +ℤ pos 1) t d a)

abbrev pub resend_locked :
    Settings → String → String → Option (SellerPayout × Option SellerPayoutAccount) → Tx Unit0
resend_locked env actor_id reason none = fail payout_not_retryable
resend_locked env actor_id reason (some (p, none)) = fail payout_account_required
resend_locked env actor_id reason (some (p, some a)) = resend_payout p a >>= λ _.
    insert_audit_event actor_id "payout.retry" p.id (env.trim_space reason)

unfoldable pub ops_retry_payout : Settings → String → String → String → Tx Unit0
ops_retry_payout env actor_id id reason =
    if not (has_reason env reason)
    then fail reason_required
    else in_transaction
        do row ← select (λ t d. find_failed_payout id t d); resend_locked env actor_id reason row
