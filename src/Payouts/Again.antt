-- ===== src/Payouts/Again.antt =====
-- Retries, reversals and claims keep the ledger balanced and every payout sound (payouts.go).
use wantmytime.Prelude.{
  ℕ, zero, suc, ◌≡◌, ◌∙◌, sym, ap, ◌∷◌, ◌&&◌, [], List, Bool, true, false, String, eq_iff, find,
  arith, leb, Bool-cases, Option-cases, inl, inr,
}
use wantmytime.Prelude.Int64.{pos, ◌+ℤ◌}
use wantmytime.Prelude.Tables.{any, All, All-append, All-update_where}
use wantmytime.Prelude.Time.{Time}
use wantmytime.Store.Schema.{Db, SellerPayout, SellerPayoutAccount}
use wantmytime.Store.Logic.{Ensures, Ensures-if, Ensures-select, bind}
use wantmytime.Store.Always.{
  Always-bind, Always-exec, Always-Ensures, Always-if, Always-pure, Always-select, Always-query,
  Always-try_query, Always-atomic, Always-after, Always-in_transaction,
}
use wantmytime.Store.Monad.{◌>>◌, in_transaction}
use wantmytime.Payments.Balanced.{sub64_fits}
use wantmytime.Payouts.Reference.{payout_reference}
use wantmytime.Payouts.Release.{PayoutDesk}
use wantmytime.Payouts.Retry.{
  RetryCandidate, is_failed, is_usable, retry_is_due, candidate, retry_rows, insert_by_update,
  order_by_update, first_rows, retry_candidates, retried_payout, is_other, is_same_failure,
  payout_account_of, requeue_row, requeue_payout, retry_candidate, retry_all,
  auto_retry_failed_payouts,
}
use wantmytime.Payouts.Reversal.{
  is_paid, is_paid_payout, set_payout_returned, post_reversal, returned_steps, record_reversal,
  paid_under,
}
use wantmytime.Payouts.Send.{payout_to_send}
use wantmytime.Payouts.Worker.{claim_due_payouts}
use wantmytime.Payouts.Event.{
  insert_provider_event, is_submitted_under, hurry_refund, hurry_payout, follow_event,
}
use wantmytime.Payouts.Sound.{Book, IsSound, returned_payout-IsSound, retried_payout-IsSound}
use wantmytime.Payouts.Untouched.{
  payout_failed_email-Untouched, audit_auto_retry-Untouched, retry_candidates-Untouched,
  read_row-Untouched,
}
use wantmytime.Payouts.Kept.{
  PayoutsHold, Tables, Keeps, KeepsIfOk, next, updated, post_ledger_journal-KeepsIfOk,
}

module _ (book : Book) where
  -- A candidate has the booking of its payout.
  abbrev IsBooked : RetryCandidate → Type 0
  IsBooked c = (book c.id).0 ≡ c.booking_id

  All-insert :
      (P : RetryCandidate → Type 0) (c : RetryCandidate) (l : List RetryCandidate)
      → P c
      → All P l
      → All P (insert_by_update c l)
  All-insert P c [] h hs = (h, tt)
  All-insert P c (x ∷ l) h hs = elim (Bool-cases (leb c.updated_at x.updated_at)) [
    | inl e ↦ rw e (h, hs)
    | inr e ↦ rw e (hs.0, All-insert P c l h hs.1)
  ]

  All-order :
      (P : RetryCandidate → Type 0) (l : List RetryCandidate) → All P l → All P (order_by_update l)
  unfolding order_by_update
  All-order P [] h = tt
  All-order P (c ∷ l) h = All-insert P c (order_by_update l) h.0 (All-order P l h.1)

  All-first :
      (P : RetryCandidate → Type 0) (n : ℕ) (l : List RetryCandidate)
      → All P l
      → All P (first_rows n l)
  All-first P zero l h = tt
  All-first P (suc n) [] h = tt
  All-first P (suc n) (x ∷ l) h = (h.0, All-first P n l h.1)

  candidate-IsBooked :
      (now : Time) (d : Db) (p : SellerPayout) → IsSound book p → All IsBooked (candidate now d p)
  candidate-IsBooked now d p h =
      elim (Option-cases (find (is_usable now p.seller_id) d.seller_payout_accounts)) [
        | inl n ↦ rw (candidate, n) tt
        | inr (a, e) ↦ elim (Bool-cases (is_failed p.state && retry_is_due now p a)) [
          | inl y ↦ rw (candidate, e, y) (sym h.booked, tt)
          | inr y ↦ rw (candidate, e, y) tt
        ]
      ]

  retry_rows-IsBooked :
      (now : Time) (d : Db) (l : List SellerPayout)
      → All (IsSound book) l
      → All IsBooked (retry_rows now d l)
  retry_rows-IsBooked now d [] h = tt
  retry_rows-IsBooked now d (p ∷ l) h =
      All-append IsBooked (candidate now d p) (retry_rows now d l) (candidate-IsBooked now d p h.0)
        (retry_rows-IsBooked now d l h.1)

  retry_retry_rows-IsBooked : Ensures (PayoutsHold book) retry_candidates (λ l d. All IsBooked l)
  unfolding retry_candidates
  retry_retry_rows-IsBooked = Ensures-select _ (λ t d h.
      All-first IsBooked 20 _
        (All-order IsBooked _ (retry_rows-IsBooked t d d.seller_payouts h.1.0)))

  requeued-IsSound :
      (c : RetryCandidate) (a : SellerPayoutAccount) (t : Time) (x : SellerPayout)
      → IsBooked c
      → is_same_failure c.id c.generation x ≡ true
      → IsSound book x
      → IsSound book (
          retried_payout a
            (c.generation +ℤ pos 1)
            (payout_reference c.booking_id (c.generation +ℤ pos 1))
            t
            x)
  requeued-IsSound c a t x booked same h =
      retried_payout-IsSound book a (c.generation +ℤ pos 1) c.booking_id t x (ground (arith, same))
        (ap (λ i. (book i).0) ((eq_iff x.id c.id).0 (ground (arith, same))) ∙ booked) h

  requeue_row-kept :
      (c : RetryCandidate) (t : Time) (d : Db)
      → IsBooked c
      → PayoutsHold book d
      → PayoutsHold book (requeue_row c t d).1
  unfolding requeue_row
  requeue_row-kept c t d booked h =
      elim (Option-cases (find (is_same_failure c.id c.generation) d.seller_payouts)) [
        | inl n ↦ rw (requeue_row, n) h
        | inr (p, e) ↦ elim (Option-cases (payout_account_of d p)) [
          | inl n ↦ rw (requeue_row, e, n) h
          | inr (a, e2) ↦
              rw (requeue_row, e, e2)
                (elim (Bool-cases (
                  any (is_other c.id (payout_reference c.booking_id (c.generation +ℤ pos 1)))
                    d.seller_payouts)) [
                      | inl taken ↦ rw taken h
                      | inr free ↦
                          rw free
                            (updated book d _ _ (λ x same. requeued-IsSound c a t x booked same) h)
                    ])
        ]
      ]

  retry_candidate-Keeps : (c : RetryCandidate) → IsBooked c → Keeps book (retry_candidate c)
  unfolding retry_candidate requeue_payout
  retry_candidate-Keeps c booked = Always-in_transaction (
      Always-bind (Always-try_query _ (λ t d h. requeue_row-kept c t d booked h))
        (λ changed. Always-if _ (audit_auto_retry-Untouched (Tables book) c) Always-pure))

  retry_all-Keeps : (l : List RetryCandidate) → All IsBooked l → Keeps book (retry_all l)
  unfolding retry_all
  retry_all-Keeps [] h = Always-pure
  retry_all-Keeps (c ∷ l) h = Always-bind (retry_candidate-Keeps c h.0) (λ _. retry_all-Keeps l h.1)

  pub auto_retry_failed_payouts-Keeps : Keeps book auto_retry_failed_payouts
  unfolding auto_retry_failed_payouts
  auto_retry_failed_payouts-Keeps =
      Always-after (All IsBooked) (retry_candidates-Untouched (Tables book))
        retry_retry_rows-IsBooked (λ l h. retry_all-Keeps l h)

  is_paid_payout-paid :
      (id : String) (p : SellerPayout) → is_paid_payout id p ≡ true → is_paid p.state ≡ true
  is_paid_payout-paid id p h = ground (arith, h)

  set_payout_returned-Keeps : (id : String) → Keeps book (set_payout_returned id)
  unfolding set_payout_returned
  set_payout_returned-Keeps id = Always-query _ (λ t d h.
      updated book d (is_paid_payout id) _
        (λ x e. returned_payout-IsSound book _ t x (is_paid_payout-paid id x e)) h)

  post_reversal-KeepsIfOk :
      (desk : PayoutDesk) (p : SellerPayout) → KeepsIfOk book (post_reversal desk p)
  post_reversal-KeepsIfOk desk p =
      let fits = sub64_fits _ p.recovery_minor in
      Ensures-if _
        (bind (post_ledger_journal-KeepsIfOk book _ _ _ _ _ _ (fits, (fits, tt)))
          (λ _. Always-Ensures Always-pure))
        (Always-Ensures Always-pure)

  returned_steps-KeepsIfOk :
      (desk : PayoutDesk) (p : SellerPayout) (changed : Bool)
      → KeepsIfOk book (returned_steps desk p changed)
  returned_steps-KeepsIfOk desk p false = Always-Ensures Always-pure
  returned_steps-KeepsIfOk desk p true =
      next book (payout_failed_email-Untouched (Tables book) p.id)
        (λ _. post_reversal-KeepsIfOk desk p)

  pub record_reversal-Keeps :
      (desk : PayoutDesk) (p : SellerPayout) → Keeps book (record_reversal desk p)
  unfolding record_reversal
  record_reversal-Keeps desk p =
      Always-atomic (next book (set_payout_returned-Keeps p.id) (returned_steps-KeepsIfOk desk p))

  pub claim_due_payouts-Keeps : (delay : ℕ) → Keeps book (claim_due_payouts delay)
  unfolding claim_due_payouts
  claim_due_payouts-Keeps delay = Always-query _ (λ t d h.
      updated book d _ _
        (λ x e s. record {
          booked = s.booked;
          entitled = s.entitled;
          referenced = s.referenced;
          amounts = s.amounts;
        })
        h)

  pub payout_to_send-Keeps : (id : String) → Keeps book (payout_to_send id)
  unfolding payout_to_send
  payout_to_send-Keeps id = read_row-Untouched (Tables book) _

  pub paid_under-Keeps : (reference : String) → Keeps book (paid_under reference)
  unfolding paid_under
  paid_under-Keeps reference = Always-select _

  hurry_refund-Keeps : (reference : String) → Keeps book (hurry_refund reference)
  unfolding hurry_refund
  hurry_refund-Keeps reference = Always-exec _ (λ t d h. (
    h.0,
    (h.1.0, All-update_where _ (is_submitted_under reference) _ d.refunds (λ x s. s) h.1.1),
  ))

  hurry_payout-Keeps : (reference : String) → Keeps book (hurry_payout reference)
  unfolding hurry_payout
  hurry_payout-Keeps reference = Always-exec _ (λ t d h.
      updated book d _ _
        (λ x e s. record {
          booked = s.booked;
          entitled = s.entitled;
          referenced = s.referenced;
          amounts = s.amounts;
        })
        h)

  pub store_event-Keeps :
      (event reference : String)
      → Keeps book (in_transaction (insert_provider_event >> follow_event event reference))
  unfolding insert_provider_event follow_event
  store_event-Keeps event reference = Always-in_transaction (
      Always-bind (Always-exec _ (λ t d h. h)) (λ _.
        Always-if _ (hurry_refund-Keeps reference)
          (Always-if _ (hurry_payout-Keeps reference) Always-pure)))
