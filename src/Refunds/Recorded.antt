-- ===== src/Refunds/Recorded.antt =====
-- finalizeRefund is idempotent, for the refund of a booking and for the refund of a payment that did
-- not become one (refunds.go, finalizeRefund; unbooked.go, finalizeExceptionRefund).
use wantmytime.Prelude.{
  ◌≡◌, ◌⊎◌, refl, sym, ◌∙◌, Bool, true, String, str_eq, Option, some, find, Bool-cases, inl, inr,
  arith, Option-cases, [],
}
use wantmytime.Store.Schema.{Db, Refund, PaymentAttempt, Quote, processed}
use wantmytime.Store.Monad.{Session, ok, ◌>>◌, query, select, in_transaction, finish, commit}
use wantmytime.Store.Logic.{
  Ensures, bind, Ensures-select, Ensures-pure, Ensures-one_row, Ensures-exec, either, ensured,
  weaken, strengthen,
}
use wantmytime.Store.Transaction.{Ensures-in_transaction}
use wantmytime.Ledger.Journal.{Runtime}
use wantmytime.Refunds.Statements.{has_state, is_refund, text_or_empty, mark_refund_processed}
use wantmytime.Refunds.Create.{Settings}
use wantmytime.Refunds.Unbooked.{
  UnbookedRefund, find_unbooked_refund, resolve_exception, enqueue_exception_email,
  finalize_exception_refund, is_given, finalize_kind, finalize_refund,
}
use wantmytime.Refunds.Repeat.{Holds, Done, find-update_self, finalize-Done, finalize_recorded}

abbrev is_attempt_of : Refund → PaymentAttempt → Bool
is_attempt_of r a = str_eq a.id (text_or_empty r.payment_attempt_id)

abbrev is_quote_of : PaymentAttempt → Quote → Bool
is_quote_of a q = str_eq q.id (text_or_empty a.quote_id)

module _ (id : String) where
  -- The refund of the payment and what it is read with are there.
  abbrev Reads : (Refund → Type 0) → Db → Type 0
  Reads S d =
      (r : Refund) × (a : PaymentAttempt) × (q : Quote) × (find (is_refund id) d.refunds ≡ some r)
      × (find (is_attempt_of r) d.payment_attempts ≡ some a)
      × (find (is_quote_of a) d.quotes ≡ some q)
      × S r

  abbrev OfPayment : Refund → Type 0
  OfPayment r = is_given r.payment_exception_id ≡ true

  abbrev Returned : Refund → Type 0
  Returned r = (has_state r.state processed ≡ true) × OfPayment r

  abbrev IsOfPayment : Db → Type 0
  IsOfPayment d = (r : Refund) × (find (is_refund id) d.refunds ≡ some r) × OfPayment r

  find-Reads :
      (d : Db) (u : UnbookedRefund)
      → find_unbooked_refund d id ≡ some u
      → IsOfPayment d
      → Reads (λ r. OfPayment r × (r.state ≡ u.state)) d
  unfolding find_unbooked_refund
  find-Reads d u e (r, found, kind) =
      elim (Option-cases (find (is_attempt_of r) d.payment_attempts)) [
        | inl missing ↦ absurd (ground (arith, e, found, missing))
        | inr (a, paid) ↦ elim (Option-cases (find (is_quote_of a) d.quotes)) [
          | inl missing ↦ absurd (ground (arith, e, found, paid, missing))
          | inr (q, quoted) ↦
              (r, a, q, found, paid, quoted, (kind, ground (arith, e, found, paid, quoted)))
        ]
      ]

  finish-Returned :
      (exception_id buyer_id resolution kind : String) (remark operator : Option String)
      → Ensures
          (Reads OfPayment)
          (do
            mark_refund_processed remark operator id
            resolve_exception resolution exception_id
            enqueue_exception_email exception_id buyer_id kind)
          (λ _. Reads Returned)
  unfolding mark_refund_processed resolve_exception enqueue_exception_email
  finish-Returned exception_id buyer_id resolution kind remark operator =
      bind
        (Ensures-exec {Q = λ _. Reads Returned} _ (λ t d (r, a, q, found, paid, quoted, of). (
          _,
          a,
          q,
          find-update_self (is_refund id) _ d.refunds r (λ y. refl) found,
          paid,
          quoted,
          (refl, of),
        )))
        (λ _.
          bind (Ensures-exec {Q = λ _. Reads Returned} _ (λ t d h. h))
            (λ _. Ensures-exec _ (λ t d h. either (Reads Returned) _ h h)))

  exception-Returned :
      (operator remark : Option String)
      → Ensures IsOfPayment (finalize_exception_refund id operator remark) (λ _. Reads Returned)
  unfolding finalize_exception_refund
  exception-Returned operator remark = Ensures-in_transaction (
      bind
        (Ensures-select {Q = λ row d. (find_unbooked_refund d id ≡ row) × IsOfPayment d} _
          (λ t d h. (refl, h)))
        (λ row.
          bind
            (Ensures-one_row {Q = λ u. Reads (λ r. OfPayment r × (r.state ≡ u.state))}
              (λ u d e h. find-Reads d u (h.0 ∙ e) h.1))
            (λ u. elim (Bool-cases (has_state u.state processed)) [
              | inl done ↦ rw done (
                  Ensures-pure (λ d (r, a, q, found, paid, quoted, (of, same)).
                    (r, a, q, found, paid, quoted, (rw same done, of))))
              | inr waits ↦ rw waits (
                  strengthen
                    (λ d (r, a, q, found, paid, quoted, (of, same)).
                      (r, a, q, found, paid, quoted, of))
                    (finish-Returned u.exception_id u.buyer_id _ _ remark operator))
            ])))

  exception_recorded :
      (operator remark : Option String) (s : Session)
      → Reads Returned s.db
      → s.faults ≡ []
      → finalize_exception_refund id operator remark s ≡ (ok tt, s)
  unfolding finalize_exception_refund in_transaction finish commit query select find_unbooked_refund
  exception_recorded operator remark s (r, a, q, found, paid, quoted, (done, of)) working =
      ground arith

  module _ (env : Settings) (rt : Runtime) where
    finalize-Recorded :
        (operator remark : Option String)
        → Ensures
            (λ d. Unit {0})
            (finalize_refund env rt id operator remark)
            (λ _ d. Holds Done id d ⊎ Reads Returned d)
    unfolding finalize_refund
    finalize-Recorded operator remark =
        bind (Ensures-select {Q = λ row d. find (is_refund id) d.refunds ≡ row} _ (λ t d h. refl))
          (λ row.
            bind
              (Ensures-one_row {Q = λ r d. find (is_refund id) d.refunds ≡ some r}
                (λ r d e h. h ∙ e))
              (λ r. elim (Bool-cases (is_given r.payment_exception_id)) [
                | inl of ↦ rw of (
                    weaken (strengthen (λ d h. (r, h, of)) (exception-Returned operator remark))
                      (λ u d h. inr h))
                | inr of ↦ rw of (
                    weaken
                      (strengthen (λ d h. (r, h, of)) (finalize-Done env rt id operator remark))
                      (λ u d h. inl h))
              ]))

    finalize_refund-kind :
        (operator remark : Option String) (s : Session) (r : Refund)
        → find (is_refund id) s.db.refunds ≡ some r
        → s.faults ≡ []
        → finalize_refund env rt id operator remark s ≡ finalize_kind env rt id operator remark r s
    unfolding finalize_refund select query
    finalize_refund-kind operator remark s r found working =
        rw (working, found) (rw (sym working) refl)

-- A refund that finalizeRefund has recorded, recorded again while the database answers: the call
-- succeeds, whoever makes it, and changes nothing. It may be the refund of a booking or of a payment
-- that did not become one.
pub finalize_refund_repeat :
    (env : Settings) (rt : Runtime) (id : String)
    (operator operator' remark remark' : Option String) (s s' : Session)
    → finalize_refund env rt id operator remark s ≡ (ok tt, s')
    → s'.faults ≡ []
    → finalize_refund env rt id operator' remark' s' ≡ (ok tt, s')
finalize_refund_repeat env rt id operator operator' remark remark' s s' e working =
    elim (ensured (finalize-Recorded id env rt operator remark) tt e) [
      | inl (r, b, found, booked, (done, of)) ↦
          finalize_refund-kind id env rt operator' remark' s' r found working
          ∙ rw of (finalize_recorded env rt id operator' remark' s' r b found booked done working)
      | inr (r, a, q, found, paid, quoted, (done, of)) ↦
          finalize_refund-kind id env rt operator' remark' s' r found working
          ∙ rw of (
              exception_recorded id operator' remark' s' (r, a, q, found, paid, quoted, (done, of))
                working)
    ]
