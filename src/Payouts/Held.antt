-- ===== src/Payouts/Held.antt =====
-- A payout whose booking has an open problem, an open report that the seller did not appear, or a
-- refund that did not go through is held back (payouts.go, releasePayout and payoutHoldSQL).
use mathlib.Core.Path.{subst}
use wantmytime.Prelude.{
  ◌≡◌, refl, sym, ◌∙◌, Bool, true, false, String, str_eq, some, find, arith, if◌then◌else◌, ap, ℕ,
}
use wantmytime.Prelude.Options.{some_inj}
use wantmytime.Prelude.Time.{Time}
use wantmytime.Store.Schema.{Db, Booking, SellerPayout}
use wantmytime.Store.Monad.{Result, ok, err, Session, ◌>>=◌}
use wantmytime.Store.Logic.{
  Post, Ensures, bind, given, Ensures-select, Ensures-one_row, Ensures-pure, weaken,
}
use wantmytime.Store.Always.{Always, Always-atomic, Always-after, Always-pure}
use wantmytime.Store.Transaction.{Ensures-in_transaction}
use wantmytime.Store.Outside.{World, continue_job, done}
use wantmytime.Payouts.Hold.{payout_hold, find_hold}
use wantmytime.Payouts.Reasons.{HasReason, held_for_reason}
use wantmytime.Payouts.Release.{
  PayoutDesk, stay, is_payout, is_scheduled, lock_payout, hold_of_payout, release_scheduled,
  release_locked, release_payout,
}
use wantmytime.Payouts.Provider.{KoraApi}
use wantmytime.Payouts.Send.{SendDesk, send_payout}
use wantmytime.Payouts.Worker.{advance_payout}

abbrev is_booking : String → Booking → Bool
is_booking id b = str_eq b.id id

-- The payout is scheduled, and its booking has a reason to hold it back.
abbrev pub IsHeld : String → Db → Type 0
IsHeld id d =
    (p : SellerPayout) × (find (is_payout id) d.seller_payouts ≡ some p)
    × (is_scheduled p.state ≡ true)
    × ((b : Booking) × (find (is_booking p.booking_id) d.bookings ≡ some b) × HasReason d b)

find_hold-held :
    (delay : ℕ) (booking_id : String) (t : Time) (d : Db) (b : Booking) (h : String × Bool)
    → find (is_booking booking_id) d.bookings ≡ some b
    → find_hold delay booking_id t d ≡ some h
    → h.0 ≡ payout_hold d b
unfolding find_hold
find_hold-held delay booking_id t d b h e found = ground (arith, e, found)

module _ (d0 : Db) (p : SellerPayout) (b : Booking)
    (booked : find (is_booking p.booking_id) d0.bookings ≡ some b)
    (held : str_eq (payout_hold d0 b) "" ≡ false) where
  hold_of_payout-held :
      (delay : ℕ)
      → Ensures
          (λ d. d ≡ d0)
          (hold_of_payout delay p.booking_id)
          (λ h d. (d ≡ d0) × (str_eq h.0 "" ≡ false))
  unfolding hold_of_payout
  hold_of_payout-held delay =
      bind
        (Ensures-select
          {Q = λ row d. (d ≡ d0) × ((t : Time) × (find_hold delay p.booking_id t d0 ≡ row))} _
          (λ t d e. (e, (t, ap (find_hold delay p.booking_id t) (sym e)))))
        (λ row. Ensures-one_row (λ h d e (same, (t, found)). (
          same,
          ap (λ x. str_eq x "") (find_hold-held delay p.booking_id t d0 b h booked (found ∙ e))
              ∙ held,
        )))

  release_scheduled-held :
      (desk : PayoutDesk)
      → Ensures (λ d. d ≡ d0) (release_scheduled desk p) (λ r d. (d ≡ d0) × (r ≡ stay))
  unfolding release_scheduled
  release_scheduled-held desk =
      bind (hold_of_payout-held desk.delay)
        (λ h. given (λ e. rw e (Ensures-pure (λ d same. (same, refl)))))

  module _ (id : String) (found : find (is_payout id) d0.seller_payouts ≡ some p)
      (waiting : is_scheduled p.state ≡ true) where
    lock_payout-found : Ensures (λ d. d ≡ d0) (lock_payout id) (λ q d. (d ≡ d0) × (q ≡ p))
    unfolding lock_payout
    lock_payout-found =
        bind
          (Ensures-select {Q = λ row d. (d ≡ d0) × (find (is_payout id) d0.seller_payouts ≡ row)} _
            (λ t d e. (e, ap (λ (x : Db). find (is_payout id) x.seller_payouts) (sym e))))
          (λ row.
            Ensures-one_row (λ q d e (same, read). (same, some_inj (sym (sym found ∙ read ∙ e)))))

    release_locked-held :
        (desk : PayoutDesk) (q : SellerPayout)
        → q ≡ p
        → Ensures (λ d. d ≡ d0) (release_locked desk q) (λ r d. (d ≡ d0) × (r ≡ stay))
    unfolding release_locked
    release_locked-held desk q e =
        subst (λ x. Ensures (λ d. d ≡ d0) (release_locked desk x) (λ r d. (d ≡ d0) × (r ≡ stay)))
          (sym e) (rw waiting (release_scheduled-held desk))

    locked-held :
        (desk : PayoutDesk)
        → Ensures
            (λ d. d ≡ d0)
            (lock_payout id >>= λ q. release_locked desk q)
            (λ r d. (d ≡ d0) × (r ≡ stay))
    locked-held desk = bind lock_payout-found (λ q. given (release_locked-held desk q))

    release_payout-Stays : (desk : PayoutDesk) → Always (λ d. d ≡ d0) (release_payout desk id)
    unfolding release_payout
    release_payout-Stays desk =
        Always-after (λ r. r ≡ stay)
          (Always-atomic (weaken {R = λ r d. d ≡ d0} (locked-held desk) (λ r d q. q.0)))
          (weaken {R = λ r d. r ≡ stay} (Ensures-in_transaction (locked-held desk)) (λ r d q. q.1))
          (λ r e. rw e Always-pure)

    release_payout-held :
        (desk : PayoutDesk)
        → Ensures (λ d. d ≡ d0) (release_payout desk id) (λ ready d. ready ≡ false)
    unfolding release_payout
    release_payout-held desk =
        bind (Ensures-in_transaction (locked-held desk))
          (λ r. given (λ e. rw e (Ensures-pure (λ d same. refl))))

module _ {Bank : Type 0} (kora : KoraApi Bank) (desk : SendDesk) where
  -- The worker's step for a scheduled payout changes no table and asks Kora nothing, also when a
  -- statement fails, if the booking has an open problem that the buyer reported, or an open or
  -- disputed report that its seller did not appear, or a refund that failed and that the payout bears.
  pub held_payout_stays :
      (id : String) (w : World Bank)
      → IsHeld id w.session.db
      → ((advance_payout kora desk id w).1.session.db ≡ w.session.db)
        × ((advance_payout kora desk id w).1.outside ≡ w.outside)
  unfolding advance_payout
  held_payout_stays id w (p, found, waiting, (b, booked, reason)) =
      let held = held_for_reason w.session.db b reason in
      go (release_payout desk.payouts id w.session)
        ((release_payout-Stays w.session.db p b booked held id found waiting desk.payouts).run
          w.session refl)
        ((release_payout-held w.session.db p b booked held id found waiting desk.payouts).run
          w.session refl)
    where
      go :
          (r : Result Bool × Session)
          → r.1.db ≡ w.session.db
          → Post (λ ready d. ready ≡ false) r
          → ((continue_job
                (λ ready. if ready then send_payout kora desk id else done tt)
                (r.0, record w { session = r.1 })).1.session.db
              ≡ w.session.db)
            × ((continue_job
                  (λ ready. if ready then send_payout kora desk id else done tt)
                  (r.0, record w { session = r.1 })).1.outside
                ≡ w.outside)
      go (err e, s) same h = (same, refl)
      go (ok false, s) same h = (same, refl)
      go (ok true, s) same h = absurd (cc)
