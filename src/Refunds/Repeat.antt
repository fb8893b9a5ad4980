-- ===== src/Refunds/Repeat.antt =====
-- A refund of a booking that was recorded is found recorded (refunds.go, finalizeRefund after its
-- dispatch).
use wantmytime.Prelude.{
  find-true, ◌≡◌, refl, sym, ap, ◌∙◌, Bool, true, false, String, Option, some, List, [], ◌∷◌, find,
  if◌then◌else◌, Bool-cases, inl, inr, arith, eq_iff, Option-cases,
}
use mathlib.Core.Path.{subst}
use wantmytime.Prelude.Options.{some_inj}
use wantmytime.Refunds.Unbooked.{is_given}
use wantmytime.Prelude.Int64.{pos, ltb_ℤ}
use wantmytime.Store.Schema.{Db, Refund, Booking}
use wantmytime.Store.Monad.{Session, ok, query, select, in_transaction, finish, commit}
use wantmytime.Store.Logic.{
  Ensures, bind, Ensures-select, Ensures-pure, Ensures-one_row, Ensures-exec, Ensures-if, either,
  pointwise, weaken, strengthen,
}
use wantmytime.Store.Transaction.{Ensures-in_transaction}
use wantmytime.Ledger.Totals.{LedgerLine}
use wantmytime.Ledger.Journal.{Runtime, post_ledger_journal}
use wantmytime.Ledger.Balance.{Others, post_ledger_journal-Posted}
use wantmytime.Refunds.Statements.{
  RefundForFinalize, update_where, is_refund, is_booking, text_or_empty, joined_refund,
  find_refund_for_finalize, lock_refund_for_finalize, mark_refund_processed, insert_seller_recovery,
  set_booking_payment_state, enqueue_booking_event,
}
use wantmytime.Refunds.Create.{Settings}
use wantmytime.Refunds.Finalize.{
  is_finished, record_recovery, finish_refund, finalize_booking_refund, is_payable,
}

-- An update that leaves the test of a search alone changes only the row that is found.
find-update_where :
    {A : Type 0} (p q : A → Bool) (f : A → A) (xs : List A) (x : A)
    → ((y : A) → q (f y) ≡ q y)
    → find q xs ≡ some x
    → find q (update_where p f xs) ≡ some (if p x then f x else x)
find-update_where p q f [] x keep e = cc
find-update_where p q f (y ∷ xs) x keep e =
    ground (arith, keep y, find-update_where p q f xs x keep)

pub find-update_self :
    {A : Type 0} (q : A → Bool) (f : A → A) (xs : List A) (x : A)
    → ((y : A) → q (f y) ≡ q y)
    → find q xs ≡ some x
    → find q (update_where q f xs) ≡ some (f x)
find-update_self q f xs x keep e =
    ground (arith, find-update_where q q f xs x keep e, find-true q xs x e)

-- The refund and its booking are there, and the refund is as S says.
abbrev pub Holds : (Refund → Type 0) → String → Db → Type 0
Holds S id d =
    (r : Refund) × (b : Booking) × (find (is_refund id) d.refunds ≡ some r)
    × (find (is_booking (text_or_empty r.booking_id)) d.bookings ≡ some b)
    × S r

-- It is the refund of a booking.
abbrev pub OfBooking : Refund → Type 0
OfBooking r = is_given r.payment_exception_id ≡ false

abbrev pub Done : Refund → Type 0
Done r = (is_finished r.state ≡ true) × OfBooking r

Holds-same :
    (S : Refund → Type 0) (id : String) (d d' : Db)
    → d'.refunds ≡ d.refunds
    → d'.bookings ≡ d.bookings
    → Holds S id d
    → Holds S id d'
Holds-same S id d d' er eb (r, b, found, booked, h) = (r, b, rw er found, rw eb booked, h)

module _ (env : Settings) (rt : Runtime) (id : String) where
  mark-Done :
      (remark operator : Option String)
      → Ensures (Holds OfBooking id) (mark_refund_processed remark operator id) (λ _. Holds Done id)
  unfolding mark_refund_processed is_finished
  mark-Done remark operator = Ensures-exec _ (λ t d (r, b, found, booked, kind).
      (_, b, find-update_self (is_refund id) _ d.refunds r (λ y. refl) found, booked, (refl, kind)))

  recovery-Done :
      (r : RefundForFinalize) (currency : String)
      → Ensures (Holds Done id) (record_recovery rt r currency) (λ _. Holds Done id)
  unfolding record_recovery insert_seller_recovery
  recovery-Done r currency = Ensures-if (is_payable r) (Ensures-pure (λ d h. h)) (
      Ensures-if (ltb_ℤ (pos 0) r.seller_share_minor)
        (Ensures-exec _ (λ t d h. either (Holds Done id) _ h h)) (Ensures-pure (λ d h. h)))

  post-Done :
      (source_type source_id currency description : String) (lines : List LedgerLine)
      → Ensures
          (Holds Done id)
          (post_ledger_journal rt source_type source_id currency description lines)
          (λ _. Holds Done id)
  post-Done source_type source_id currency description lines = pointwise (λ d0 h.
      weaken (post_ledger_journal-Posted rt source_type source_id currency description lines d0)
        (λ journal d posted. elim posted.0.0 [
          | inl same ↦ rw same h
          | inr (added, rest, _) ↦
              Holds-same Done id d0 d (ap (λ (o : Others). o.0) rest)
                (ap (λ (o : Others). o.2) rest) h
        ]))

  booking-Done :
      (payment_state booking_id : String)
      → Ensures
          (Holds Done id)
          (set_booking_payment_state payment_state booking_id)
          (λ _. Holds Done id)
  unfolding set_booking_payment_state
  booking-Done payment_state booking_id = Ensures-exec _ (λ t d (r, b, found, booked, h). (
    r,
    _,
    found,
    find-update_where (is_booking booking_id) (is_booking (text_or_empty r.booking_id)) _ d.bookings
        b (λ y. refl) booked,
    h,
  ))

  event-Done :
      (booking_id recipient kind event_key : String) (reference : Option String)
      → Ensures
          (Holds Done id)
          (enqueue_booking_event booking_id recipient kind event_key reference)
          (λ _. Holds Done id)
  unfolding enqueue_booking_event
  event-Done booking_id recipient kind event_key reference =
      Ensures-exec _ (λ t d h. either (Holds Done id) _ h h)

  finish-Done :
      (r : RefundForFinalize) (operator remark : Option String)
      → r.id ≡ id
      → Ensures (Holds OfBooking id) (finish_refund env rt r operator remark) (λ _. Holds Done id)
  unfolding finish_refund
  finish-Done r operator remark named = bind (rw named (mark-Done remark operator)) (λ _.
      bind (recovery-Done r (env.trim_space r.currency)) (λ _.
        bind (post-Done _ _ _ _ _) (λ _. bind (booking-Done _ _) (λ _. event-Done _ _ _ _ _))))

  -- The refund that was locked, as the tables hold it.
  abbrev Locked : RefundForFinalize → Db → Type 0
  Locked r d =
      (r0 : Refund) × (b0 : Booking) × (find (is_refund id) d.refunds ≡ some r0)
      × (find (is_booking (text_or_empty r0.booking_id)) d.bookings ≡ some b0)
      × (r ≡ joined_refund r0 b0)

  find-Locked :
      (d : Db) (r : RefundForFinalize) → find_refund_for_finalize d id ≡ some r → Locked r d
  unfolding find_refund_for_finalize
  find-Locked d r e = elim (Option-cases (find (is_refund id) d.refunds)) [
    | inl missing ↦ absurd (ground arith)
    | inr (r0, found) ↦
        elim (Option-cases (find (is_booking (text_or_empty r0.booking_id)) d.bookings)) [
          | inl missing ↦ absurd (ground arith)
          | inr (b0, booked) ↦ (r0, b0, found, booked, ground arith)
        ]
  ]

  -- The row is one of a refund of a booking.
  abbrev IsOfBooking : Db → Type 0
  IsOfBooking d = (r : Refund) × (find (is_refund id) d.refunds ≡ some r) × OfBooking r

  lock-Locked :
      Ensures IsOfBooking (lock_refund_for_finalize id) (λ r d. Locked r d × IsOfBooking d)
  unfolding lock_refund_for_finalize
  lock-Locked =
      bind
        (Ensures-select {Q = λ row d. (find_refund_for_finalize d id ≡ row) × IsOfBooking d} _
          (λ t d h. (refl, h)))
        (λ row. Ensures-one_row (λ r d e h. (find-Locked d r (h.0 ∙ e), h.1)))

  pub finalize-Done :
      (operator remark : Option String)
      → Ensures IsOfBooking (finalize_booking_refund env rt id operator remark) (λ _. Holds Done id)
  unfolding finalize_booking_refund
  finalize-Done operator remark = Ensures-in_transaction (
      bind lock-Locked (λ r. pointwise (λ d0 ((r0, b0, found, booked, e), (r1, found1, kind1)).
        let named : r.id ≡ id =
          ap (λ (x : RefundForFinalize). x.id) e
          ∙ (eq_iff r0.id id).0 (find-true (is_refund id) d0.refunds r0 found) in
        let kind : OfBooking r0 = subst OfBooking (some_inj (sym found1 ∙ found)) kind1 in
        let state : r.state ≡ r0.state = ap (λ (x : RefundForFinalize). x.state) e in
        elim (Bool-cases (is_finished r.state)) [
          | inl done ↦ rw done (
              Ensures-pure (λ d same.
                rw same (r0, b0, found, booked, (ap is_finished (sym state) ∙ done, kind))))
          | inr unfinished ↦ rw unfinished (
              strengthen (λ d same. rw same (r0, b0, found, booked, kind))
                (finish-Done r operator remark named))
        ])))

pub finalize_recorded :
    (env : Settings) (rt : Runtime) (id : String) (operator remark : Option String) (s : Session)
    (r : Refund) (b : Booking)
    → find (is_refund id) s.db.refunds ≡ some r
    → find (is_booking (text_or_empty r.booking_id)) s.db.bookings ≡ some b
    → is_finished r.state ≡ true
    → s.faults ≡ []
    → finalize_booking_refund env rt id operator remark s ≡ (ok tt, s)
unfolding finalize_booking_refund in_transaction finish commit query select lock_refund_for_finalize
    find_refund_for_finalize
finalize_recorded env rt id operator remark s r b found booked done working = ground arith
