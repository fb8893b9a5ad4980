-- ===== src/Cancellation/Repaid.antt =====
-- The refund that a cancellation records (cancellation.go, cancelBooking; refunds.go, createRefund).
use mathlib.Core.Path.{subst}
use Prim.Native.String.{len}
use wantmytime.Prelude.{
  ◌≡◌, ◌⊎◌, ◌++◌, refl, sym, ap, ◌∙◌, ltb, Bool-cases, inl, inr, String, Option, some, List, [],
  ◌∷◌, arith,
}
use wantmytime.Prelude.Int64.{ℤ, pos, ltb_ℤ, leb_ℤ, ◌≤ℤ◌, eqb_ℤ-eq}
use wantmytime.Prelude.Tables.{Some, Some-map, any}
use wantmytime.Prelude.Time.{Time}
use wantmytime.Store.Schema.{Db, Refund}
use wantmytime.Store.Monad.{Result, ok, err, Session, try_query}
use wantmytime.Store.Logic.{
  Ensures, bind, both, given, either, ensured, Ensures-query, Ensures-select, Ensures-lift,
  Ensures-pure, Ensures-one_row, Ensures-exec, Ensures-guard, Ensures-if, Ensures-clock,
  Ensures-fail,
}
use wantmytime.Store.Transaction.{Ensures-in_transaction}
use wantmytime.Ledger.Journal.{Runtime}
use wantmytime.Refunds.Statements.{
  BookingForCancellation, CreateRefundParams, lock_booking_for_cancellation, find_booking,
  insert_refund, create_refund_row, new_refund, enqueue_booking_event, shares_allowed, is_live_for,
}
use wantmytime.Refunds.Create.{Settings, RefundPlan, refund_plan, create_refund}
use wantmytime.Cancellation.Statements.{
  mark_booking_cancelled, release_booking_slot, cancel_upcoming_booking_mail,
  close_booking_requests, enqueue_calendar_sync,
}
use wantmytime.Cancellation.Preview.{preview_cancellation, role_of}
use wantmytime.Cancellation.Handler.{
  lock_participant_booking, refund_reason, refund_cancelled, tell_cancelled, apply_cancellation,
  cancel_agreed, cancel_booking,
}
use wantmytime.Cancellation.Effect.{IsClosed, Found, find_booking-Found, cancel-closes}

Some-last : {A : Type 0} (P : A → Type 0) (l : List A) (x : A) → P x → Some P (l ++ (x ∷ []))
Some-last P [] x p = inl p
Some-last P (y ∷ l) x p = inr (Some-last P l x p)

-- The row was made from the parameters.
abbrev MadeFrom : CreateRefundParams → Refund → Type 0
MadeFrom p r =
    (r.booking_id ≡ some p.booking_id)
    × (r.requested_by ≡ p.requested_by)
    × (r.reason ≡ p.reason)
    × (r.amount_minor ≡ p.amount_minor)
    × (r.platform_share_minor ≡ p.platform_share_minor)
    × (r.seller_share_minor ≡ p.seller_share_minor)
    × (r.state ≡ p.state)

abbrev Stored : CreateRefundParams → Result String → Db → Type 0
Stored p (ok id) d = Some (MadeFrom p) d.refunds
Stored p (err e) d = Unit

create_refund_row-Stored :
    (rt : Runtime) (p : CreateRefundParams) (t : Time) (d : Db)
    → Stored p (create_refund_row rt p t d).0 (create_refund_row rt p t d).1
unfolding create_refund_row
create_refund_row-Stored rt p t d =
    elim (Bool-cases (shares_allowed p.amount_minor p.platform_share_minor p.seller_share_minor)) [
      | inr refused ↦ rw refused tt
      | inl allowed ↦ elim (Bool-cases (any (is_live_for p.booking_id) d.refunds)) [
        | inl twice ↦ rw (allowed, twice) tt
        | inr once ↦
            rw (allowed, once)
              (Some-last (MadeFrom p) d.refunds (new_refund rt t d.draws p)
                (refl, refl, refl, refl, refl, refl, refl))
      ]
    ]

insert_refund-Stored :
    (rt : Runtime) (p : CreateRefundParams)
    → Ensures (λ d. Unit {0}) (insert_refund rt p) (λ id d. Some (MadeFrom p) d.refunds)
unfolding insert_refund try_query
insert_refund-Stored rt p =
    bind
      (Ensures-query {Q = Stored p} (create_refund_row rt p)
        (λ t d h. create_refund_row-Stored rt p t d))
      (λ r. Ensures-lift (λ a d e h. subst (λ x. Stored p x d) e h))

-- The refund of the booking b, asked for by the user, of the amount and the parts that are planned.
abbrev pub IsRefundOf : Settings → BookingForCancellation → String → String → ℤ → Refund → Type 0
IsRefundOf env b user_id reason amount r =
    (plan : RefundPlan) × (refund_plan env b amount reason ≡ ok plan)
    × (r.booking_id ≡ some b.booking_id)
    × (r.requested_by ≡ some user_id)
    × (r.reason ≡ reason)
    × (r.amount_minor ≡ plan.amount)
    × (r.platform_share_minor ≡ plan.platform)
    × (r.seller_share_minor ≡ plan.seller)
    × (r.state ≡ plan.state)

-- There is nothing to pay back, or the refund is recorded.
abbrev pub IsRepaid : Settings → BookingForCancellation → String → String → ℤ → Db → Type 0
IsRepaid env b user_id reason amount d =
    (amount ≤ℤ pos 0) ⊎ Some (IsRefundOf env b user_id reason amount) d.refunds

module _ (env : Settings) (rt : Runtime) (b : BookingForCancellation) (user_id reason : String)
    (amount : ℤ) where
  create_refund-IsRepaid :
      Ensures
        (λ d. Unit {0})
        (create_refund env rt b amount reason (some user_id))
        (λ _. IsRepaid env b user_id reason amount)
  unfolding create_refund
  create_refund-IsRepaid = elim (Bool-cases (leb_ℤ amount (pos 0))) [
    | inl none_left ↦ rw none_left (Ensures-pure (λ d h. inl (ground (arith, none_left))))
    | inr some_left ↦ rw some_left (
        bind
          (Ensures-lift {Q = λ plan d. Unit {0} × (refund_plan env b amount reason ≡ ok plan)}
            (λ plan d e h. (tt, e)))
          (λ plan. given (λ e.
            bind (Ensures-select {Q = λ payout d. Unit {0}} _ (λ t d h. tt)) (λ payout.
              bind (insert_refund-Stored rt _) (λ id. Ensures-pure (λ d h. inr (
                Some-map
                  (λ r (of, by, why, amount, platform, seller, state).
                    (plan, e, of, by, why, amount, platform, seller, state))
                  d.refunds h)))))))
  ]

module _ (env : Settings) (rt : Runtime) (b : BookingForCancellation) (role user_id : String)
    (amount : ℤ) where
  abbrev Repaid : Db → Type 0
  Repaid = IsRepaid env b user_id (refund_reason role) amount

  refund_cancelled-IsRepaid :
      Ensures (λ d. Unit {0}) (refund_cancelled env rt b role amount (some user_id)) (λ _. Repaid)
  unfolding refund_cancelled
  refund_cancelled-IsRepaid = elim (Bool-cases (ltb_ℤ (pos 0) amount)) [
    | inl more ↦ rw more (create_refund-IsRepaid env rt b user_id (refund_reason role) amount)
    | inr no_more ↦ rw no_more (Ensures-pure (λ d h. inl (ground (arith, no_more))))
  ]

  tell_cancelled-IsRepaid :
      (user kind : String) (refund_id : Option String)
      → Ensures Repaid (tell_cancelled b user kind refund_id) (λ _. Repaid)
  unfolding tell_cancelled enqueue_booking_event
  tell_cancelled-IsRepaid user kind refund_id = Ensures-exec _ (λ t d h. either Repaid _ h h)

  apply-IsRepaid :
      (reason : String)
      → Ensures
          (λ d. Unit {0})
          (apply_cancellation env rt b role reason amount (some user_id))
          (λ _. Repaid)
  unfolding apply_cancellation mark_booking_cancelled release_booking_slot
      cancel_upcoming_booking_mail close_booking_requests enqueue_calendar_sync
  apply-IsRepaid reason = bind (Ensures-exec {Q = λ _ d. Unit {0}} _ (λ t d h. tt)) (λ _.
      bind (Ensures-exec {Q = λ _ d. Unit {0}} _ (λ t d h. tt)) (λ _.
        bind (Ensures-exec {Q = λ _ d. Unit {0}} _ (λ t d h. tt)) (λ _.
          bind (Ensures-exec {Q = λ _ d. Unit {0}} _ (λ t d h. tt)) (λ _.
            bind refund_cancelled-IsRepaid (λ refund_id.
              bind (tell_cancelled-IsRepaid _ _ refund_id) (λ _.
                bind (tell_cancelled-IsRepaid _ _ refund_id)
                  (λ _. Ensures-exec _ (λ t d h. either Repaid _ h h))))))))

-- The booking as it was locked, and its refund.
abbrev pub HasRepaid : Settings → Db → String → String → ℤ → Db → Type 0
HasRepaid env d0 id user_id amount d =
    (b : BookingForCancellation) × Found id b d0
    × IsRepaid env b user_id (refund_reason (role_of b user_id)) amount d

preview-role :
    (b : BookingForCancellation) (user_id : String) (now : Time)
    → (preview_cancellation b user_id now).role ≡ role_of b user_id
unfolding preview_cancellation
preview-role b user_id now = ground arith

lock-Found_at :
    (d0 : Db) (id user_id : String)
    → Ensures (λ d. d ≡ d0) (lock_participant_booking id user_id) (λ b d. Unit {0} × Found id b d0)
unfolding lock_participant_booking lock_booking_for_cancellation
lock-Found_at d0 id user_id =
    bind
      (bind
        (Ensures-select {Q = λ row d. find_booking d0 id ≡ row} _
          (λ t d h. ap (λ x. find_booking x id) (sym h)))
        (λ row. Ensures-one_row (λ b d e h. (tt, find_booking-Found d0 id b (h ∙ e)))))
      (λ b. bind (Ensures-guard _ _ (λ d e h. h)) (λ _. Ensures-pure (λ d h. h)))

cancel-HasRepaid :
    (env : Settings) (rt : Runtime) (user_id id reason : String) (expected : ℤ) (d0 : Db)
    → Ensures
        (λ d. d ≡ d0)
        (cancel_agreed env rt user_id id reason expected)
        (λ refunded. HasRepaid env d0 id user_id expected)
unfolding cancel_agreed
cancel-HasRepaid env rt user_id id reason expected d0 = bind (lock-Found_at d0 id user_id) (λ b.
    given (λ found. bind Ensures-clock (λ now.
      bind (Ensures-guard {Q = λ _ d. Unit {0}} _ _ (λ d e h. h)) (λ _.
        bind
          (Ensures-guard
            {Q = λ _ d. Unit {0} × (expected ≡ (preview_cancellation b user_id now).refund_minor)} _
            _ (λ d e h. (tt, eqb_ℤ-eq _ _ e)))
          (λ _. given (λ agreed. bind (apply-IsRepaid env rt b _ user_id _ _) (λ _.
            Ensures-pure (λ d h. (
              b,
              found,
              rw agreed (
                  subst
                    (λ x.
                      IsRepaid env b user_id (refund_reason x)
                        (preview_cancellation b user_id now).refund_minor d)
                    (preview-role b user_id now) h),
            )))))))))

-- A cancellation of a booking that succeeded answers the refund that its caller agreed to, and left
-- the booking not confirmed, with no slot taken and no wish to move it waiting. If that refund is
-- above 0, the refunds have one for the booking, asked for by the caller, with the reason
-- seller_cancelled or buyer_cancelled as the caller is the booking's seller or not, and with the
-- amount, the parts and the state that createRefund plans for the booking as it was.
pub cancel_booking_effect :
    (env : Settings) (rt : Runtime) (user_id id reason : String) (expected refunded : ℤ)
    (s s' : Session)
    → cancel_booking env rt user_id id reason (some expected) s ≡ (ok refunded, s')
    → ((refunded ≡ expected) × IsClosed id s'.db) × HasRepaid env s.db id user_id expected s'.db
unfolding cancel_booking
cancel_booking_effect env rt user_id id reason expected refunded s s' e =
    ensured
      (Ensures-if {P = λ d. Unit {0} × (d ≡ s.db)}
        {Q = λ r d. ((r ≡ expected) × IsClosed id d) × HasRepaid env s.db id user_id expected d}
        (ltb 500 (len reason)) Ensures-fail
        (Ensures-in_transaction (
          both (cancel-closes env rt user_id id reason expected)
            (cancel-HasRepaid env rt user_id id reason expected s.db))))
      (tt, refl) e
