-- ===== src/Payouts/Due.antt =====
-- A payout that is due is released when nothing stands in its way (payouts.go, releasePayout).
use Prim.Native.Nat.{◌<◌}
use wantmytime.Prelude.{
  ℕ, ◌-◌, ◌^◌, ◌≤◌, ◌≡◌, refl, ap, true, false, String, str_eq, eq_iff, none, some, List, [], ◌∷◌,
  find, arith, Bool-cases, inl, inr,
}
use wantmytime.Prelude.Int64.{ℤ, pos, sub64, sub64_pos, ltb_ℤ, leb_ℤ, eqb_ℤ, max_int64, ◌≤ℤ◌}
use wantmytime.Prelude.Tables.{All, update_where}
use wantmytime.Prelude.Time.{Time, after}
use wantmytime.Store.Schema.{
  Db, Booking, scheduled, processing, SellerPayout, SellerPayoutAccount, SellerRecovery,
}
use wantmytime.Store.Monad.{
  ok, Session, Tx, ◌>>=◌, query, select, try_query, in_transaction, finish, commit,
}
use wantmytime.Refunds.Recovery.{
  is_owed, open_rows, lock_open_recoveries, recovery_take, take_recovery,
}
use wantmytime.Payouts.Reasons.{HasReason, IsDueAt, TakesInAll, find_hold-due, refunded_sum-total}
use wantmytime.Payouts.Release.{
  PayoutDesk, send, is_payout, is_scheduled, lock_payout, hold_of_payout, refunded_share,
  find_payout_account, refuses_amounts, start_payout, release_to, release_amount, release_scheduled,
  release_locked, release_payout,
}

-- A connection whose statements all succeed.
abbrev pub at : Time → Db → Session
at t d = record { db = d; faults = []; now = t }

-- All of it is repaid.
abbrev pub OwesNothing : SellerRecovery → Type 0
OwesNothing x = x.amount_minor ≤ℤ x.recovered_minor

-- At the time t the scheduled payout p is due and nothing holds it back, its entitlement e is above
-- what the refunds take from it, r, and its seller has the account a, usable now, and owes nothing.
pub record IsPayable (delay : ℕ) (id : String) (t : Time) (d : Db) (p : SellerPayout) (b : Booking)
    (a : SellerPayoutAccount) (e r : ℕ) : Type 0 where
  pub in_table : find (is_payout id) d.seller_payouts ≡ some p
  pub waits : p.state ≡ scheduled
  pub booked : find (λ (x : Booking). str_eq x.id p.booking_id) d.bookings ≡ some b
  pub paid_once : find (λ (x : SellerPayout). str_eq x.booking_id b.id) d.seller_payouts ≡ some p
  pub no_reason : HasReason d b → ⊥
  pub due : IsDueAt delay b p t
  pub entitled : p.entitlement_minor ≡ pos e
  pub refunds : TakesInAll p.booking_id d.refunds r
  pub some_left : r < e
  pub fits : e < 2 ^ 63
  pub account :
      find (λ (x : SellerPayoutAccount). str_eq x.seller_id p.seller_id) d.seller_payout_accounts
      ≡ some a
  pub usable : a.usable_from ≤ t
  pub no_debt :
      All (λ (x : SellerRecovery). x.seller_id ≡ p.seller_id → OwesNothing x) d.seller_recoveries

-- The payout as it is sent: the amount n, no recovery, to the account a.
abbrev pub sent_payout : SellerPayoutAccount → ℕ → Time → SellerPayout → SellerPayout
sent_payout a n t p = record p {
  state = processing;
  amount_minor = some (pos n);
  recovery_minor = pos 0;
  bank_code = some a.bank_code;
  account_sealed = a.account_sealed;
  account_name = some a.account_name;
  account_last4 = some a.account_last4;
  bank_name = some a.bank_name;
  destination_type = a.destination_type;
  released_at = some t;
  next_attempt_at = t;
  last_error = none;
  updated_at = t;
}

-- What a seller owed for a refund is repaid.
no_open_rows :
    (seller_id : String) (l : List SellerRecovery)
    → All (λ (x : SellerRecovery). x.seller_id ≡ seller_id → OwesNothing x) l
    → open_rows seller_id l ≡ []
no_open_rows seller_id [] h = refl
no_open_rows seller_id (x ∷ l) h = elim (Bool-cases (is_owed seller_id x)) [
  | inr e ↦ rw e (no_open_rows seller_id l h.1)
  | inl e ↦ absurd (ground (arith, e, h.0 ((eq_iff x.seller_id seller_id).0 (ground (arith, e)))))
]

in_transaction_ok :
    {A : Type 0} (m : Tx A) (t : Time) (d d' : Db) (a : A)
    → m (at t d) ≡ (ok a, at t d')
    → in_transaction m (at t d) ≡ (ok a, at t d')
unfolding in_transaction query finish commit
in_transaction_ok m t d d' a h = rw h refl

module _ (desk : PayoutDesk) (id : String) (t : Time) (d : Db) (p : SellerPayout) (b : Booking)
    (a : SellerPayoutAccount) (e r : ℕ) (h : IsPayable desk.delay id t d p b a e r) where
  abbrev pub released : Db
  released = record d {
    seller_payouts = update_where (is_payout p.id) (sent_payout a (e - r) t) d.seller_payouts;
  }

  lock_payout_ok : lock_payout id (at t d) ≡ (ok p, at t d)
  unfolding lock_payout select query
  lock_payout_ok = rw h.in_table refl

  hold_of_payout_ok : hold_of_payout desk.delay p.booking_id (at t d) ≡ (ok ("", true), at t d)
  unfolding hold_of_payout select query
  hold_of_payout_ok =
      rw (find_hold-due desk.delay t d p b h.booked h.paid_once h.no_reason h.due) refl

  refunded_share_ok : refunded_share p.booking_id (at t d) ≡ (ok (pos r), at t d)
  unfolding refunded_share select query
  refunded_share_ok =
      let small : ltb_ℤ max_int64 (pos r) ≡ false = ground (arith, h.some_left, h.fits) in
      rw (refunded_sum-total p.booking_id d.refunds r h.refunds, small) refl

  find_payout_account_ok : find_payout_account p.seller_id (at t d) ≡ (ok (some a), at t d)
  unfolding find_payout_account select query
  find_payout_account_ok = rw h.account refl

  take_recovery_ok :
      (amount : ℤ) → take_recovery desk.max_bps p.seller_id amount (at t d) ≡ (ok (pos 0), at t d)
  unfolding take_recovery lock_open_recoveries recovery_take select query
  take_recovery_ok amount = rw (no_open_rows p.seller_id d.seller_recoveries h.no_debt) refl

  start_payout_ok : start_payout p.id a (pos (e - r)) (pos 0) (at t d) ≡ (ok tt, at t released)
  unfolding start_payout try_query query
  start_payout_ok =
      let allowed : refuses_amounts (pos (e - r)) (pos 0) ≡ false = ground arith in rw allowed refl

  release_to_ok : release_to desk p (pos (e - r)) a (at t d) ≡ (ok send, at t released)
  unfolding release_to
  release_to_ok =
      let more : eqb_ℤ (pos (e - r)) (pos 0) ≡ false = ground (arith, h.some_left) in
      rw (take_recovery_ok (pos (e - r)), start_payout_ok, more) refl

  release_amount_ok : release_amount desk p (pos (e - r)) (at t d) ≡ (ok send, at t released)
  unfolding release_amount
  release_amount_ok =
      let more : leb_ℤ (pos (e - r)) (pos 0) ≡ false = ground (arith, h.some_left) in
      let usable : after a.usable_from t ≡ false = ground (arith, h.usable) in
      rw (more, find_payout_account_ok, usable) release_to_ok

  release_scheduled_ok : release_scheduled desk p (at t d) ≡ (ok send, at t released)
  unfolding release_scheduled
  release_scheduled_ok =
      let left : sub64 p.entitlement_minor (pos r) ≡ pos (e - r) =
        rw h.entitled (sub64_pos e r h.fits (omega (arith, h.some_left))) in
      rw (hold_of_payout_ok, refunded_share_ok, left) release_amount_ok

  release_locked_ok : release_locked desk p (at t d) ≡ (ok send, at t released)
  unfolding release_locked
  release_locked_ok =
      let waits : is_scheduled p.state ≡ true = ap is_scheduled h.waits in
      rw waits release_scheduled_ok

  locked_ok : (lock_payout id >>= λ q. release_locked desk q) (at t d) ≡ (ok send, at t released)
  locked_ok = rw lock_payout_ok release_locked_ok

  -- If a scheduled payout is due and nothing holds it back, something of its entitlement is left after
  -- the refunds that it bears, its seller has a usable account and owes nothing, and the statements
  -- succeed: releasePayout answers that a transfer is to be sent, and the payout is processing with
  -- what is left as its amount, no recovery, and the code, the sealed number, the names, the last
  -- digits and the kind of the seller's account; nothing else changes.
  pub due_payout_is_released : release_payout desk id (at t d) ≡ (ok true, at t released)
  unfolding release_payout
  due_payout_is_released = rw (in_transaction_ok _ t d released send locked_ok) refl
