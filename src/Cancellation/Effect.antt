-- ===== src/Cancellation/Effect.antt =====
-- What a cancellation leaves behind: nothing to cancel again (cancellation.go, cancelBooking).
use mathlib.Core.Path.{subst}
use wantmytime.Prelude.{
  find-true, eq_iff, sym, ap, ◌∙◌, ◌≡◌, refl, false, ◌&&◌, Bool, String, str_eq, Option, some, List,
  [], ◌∷◌, find, arith, Bool-cases, Option-cases, inl, inr,
}
use wantmytime.Prelude.Int64.{ℤ, eqb_ℤ-eq, pos, add64, ltb_ℤ, leb_ℤ}
use wantmytime.Prelude.Time.{Time}
use wantmytime.Store.Schema.{Db, Booking, RescheduleRequest, SellerProfile}
use wantmytime.Store.Monad.{try_query}
use wantmytime.Store.Logic.{
  Ensures, bind, Ensures-query, Ensures-select, Ensures-lift, Ensures-pure, Ensures-one_row,
  Ensures-exec, Ensures-guard, Ensures-if, either, given, Ensures-clock, weaken,
}
use wantmytime.Ledger.Journal.{Runtime}
use wantmytime.Refunds.Statements.{
  BookingForCancellation, CreateRefundParams, update_where, any, lock_booking_for_cancellation,
  find_booking, joined_booking, insert_refund, create_refund_row, enqueue_booking_event,
  shares_allowed, is_live_for,
}
use wantmytime.Refunds.Create.{Settings, create_refund}
use wantmytime.Cancellation.Statements.{
  mark_booking_cancelled, release_booking_slot, cancel_upcoming_booking_mail,
  close_booking_requests, enqueue_calendar_sync, holds_slot, cancelled_booking,
}
use wantmytime.Cancellation.Preview.{preview_cancellation}
use wantmytime.Cancellation.Handler.{
  lock_participant_booking, refund_cancelled, tell_cancelled, apply_cancellation, cancel_agreed,
}

any-update_where :
    {A : Type 0} (p : A → Bool) (f : A → A) (xs : List A)
    → ((x : A) → p (f x) ≡ false)
    → any p (update_where p f xs) ≡ false
any-update_where p f [] gone = refl
any-update_where p f (x ∷ xs) gone = ground (arith, gone x, any-update_where p f xs gone)

abbrev pub is_confirmed : String → Booking → Bool
is_confirmed id b = str_eq b.id id && str_eq b.state "confirmed"

abbrev pub is_pending : String → RescheduleRequest → Bool
is_pending id r = str_eq r.booking_id id && str_eq r.state "pending"

-- The booking is not confirmed, no slot is taken for it, and no wish to move it waits.
abbrev pub IsClosed : String → Db → Type 0
IsClosed id d =
    (any (is_confirmed id) d.bookings ≡ false)
    × (any (holds_slot id) d.slot_reservations ≡ false)
    × (any (is_pending id) d.reschedule_requests ≡ false)

module _ (id : String) where
  mark-closes :
      (role : String) (reason : Option String)
      → Ensures
          (λ d. Unit {0})
          (mark_booking_cancelled role reason id)
          (λ _ d. any (is_confirmed id) d.bookings ≡ false)
  unfolding mark_booking_cancelled
  mark-closes role reason = Ensures-exec _ (λ t d h.
      any-update_where (is_confirmed id) (cancelled_booking role reason t) d.bookings
        (λ b. ground arith))

  release-closes :
      Ensures
        (λ d. any (is_confirmed id) d.bookings ≡ false)
        (release_booking_slot id)
        (λ _ d.
          (any (is_confirmed id) d.bookings ≡ false)
          × (any (holds_slot id) d.slot_reservations ≡ false))
  unfolding release_booking_slot
  release-closes = Ensures-exec _ (λ t d h. (
    h,
    any-update_where (holds_slot id) (λ r. record r { active = false }) d.slot_reservations
        (λ r. ground arith),
  ))

  mail-closes :
      (env : Settings) (reason_code : String)
      → Ensures
          (λ d.
            (any (is_confirmed id) d.bookings ≡ false)
            × (any (holds_slot id) d.slot_reservations ≡ false))
          (cancel_upcoming_booking_mail env reason_code id)
          (λ _ d.
            (any (is_confirmed id) d.bookings ≡ false)
            × (any (holds_slot id) d.slot_reservations ≡ false))
  unfolding cancel_upcoming_booking_mail
  mail-closes env reason_code = Ensures-exec _ (λ t d h. h)

  requests-closes :
      (resolution : String)
      → Ensures
          (λ d.
            (any (is_confirmed id) d.bookings ≡ false)
            × (any (holds_slot id) d.slot_reservations ≡ false))
          (close_booking_requests resolution id)
          (λ _. IsClosed id)
  unfolding close_booking_requests
  requests-closes resolution = Ensures-exec _ (λ t d h. (
    h.0,
    h.1,
    any-update_where (is_pending id)
        (λ r. record r { state = "expired"; version = add64 r.version (pos 1) })
        d.reschedule_requests (λ r. ground arith),
  ))

  row-closes :
      (rt : Runtime) (p : CreateRefundParams) (t : Time) (d : Db)
      → IsClosed id d
      → IsClosed id (create_refund_row rt p t d).1
  unfolding create_refund_row
  row-closes rt p t d h =
      elim (Bool-cases
        (shares_allowed p.amount_minor p.platform_share_minor p.seller_share_minor)) [
          | inr refused ↦ rw refused h
          | inl allowed ↦ elim (Bool-cases (any (is_live_for p.booking_id) d.refunds)) [
            | inl twice ↦ rw (allowed, twice) h
            | inr once ↦ rw (allowed, once) h
          ]
        ]

  insert-closes :
      (rt : Runtime) (p : CreateRefundParams)
      → Ensures (IsClosed id) (insert_refund rt p) (λ _. IsClosed id)
  unfolding insert_refund try_query
  insert-closes rt p =
      bind (Ensures-query {Q = λ r. IsClosed id} (create_refund_row rt p) (row-closes rt p))
        (λ r. Ensures-lift (λ a d e h. h))

  refund-closes :
      (env : Settings) (rt : Runtime) (b : BookingForCancellation) (role : String) (refund : ℤ)
      (actor : Option String)
      → Ensures (IsClosed id) (refund_cancelled env rt b role refund actor) (λ _. IsClosed id)
  unfolding refund_cancelled create_refund
  refund-closes env rt b role refund actor =
      Ensures-if (ltb_ℤ (pos 0) refund)
        (Ensures-if (leb_ℤ refund (pos 0)) (Ensures-pure (λ d h. h)) (
          bind (Ensures-lift (λ plan d e h. h)) (λ plan.
            bind (Ensures-select {Q = λ payout. IsClosed id} _ (λ t d h. h))
              (λ payout. bind (insert-closes rt _) (λ r. Ensures-pure (λ d h. h))))))
        (Ensures-pure (λ d h. h))

  tell-closes :
      (b : BookingForCancellation) (user kind : String) (refund_id : Option String)
      → Ensures (IsClosed id) (tell_cancelled b user kind refund_id) (λ _. IsClosed id)
  unfolding tell_cancelled enqueue_booking_event
  tell-closes b user kind refund_id = Ensures-exec _ (λ t d h. either (IsClosed id) _ h h)

  sync-closes : Ensures (IsClosed id) (enqueue_calendar_sync id) (λ _. IsClosed id)
  unfolding enqueue_calendar_sync
  sync-closes = Ensures-exec _ (λ t d h. either (IsClosed id) _ h h)

apply-closes :
    (env : Settings) (rt : Runtime) (b : BookingForCancellation) (role reason : String) (refund : ℤ)
    (actor : Option String)
    → Ensures
        (λ d. Unit {0})
        (apply_cancellation env rt b role reason refund actor)
        (λ _. IsClosed b.booking_id)
unfolding apply_cancellation
apply-closes env rt b role reason refund actor =
    let id = b.booking_id in
    bind (mark-closes id role _) (λ _. bind (release-closes id) (λ _.
      bind (mail-closes id env _) (λ _. bind (requests-closes id _) (λ _.
        bind (refund-closes id env rt b role refund actor) (λ refund_id.
          bind (tell-closes id b _ _ refund_id)
            (λ _. bind (tell-closes id b _ _ refund_id) (λ _. sync-closes id)))))))

-- The booking that was locked, as the tables hold it.
abbrev pub Found : String → BookingForCancellation → Db → Type 0
Found id b d =
    (b0 : Booking) × (sp : SellerProfile) × (find (λ (x : Booking). str_eq x.id id) d.bookings
      ≡ some b0)
    × (find (λ (x : SellerProfile). str_eq x.id b0.seller_id) d.seller_profiles ≡ some sp)
    × (b ≡ joined_booking d b0 sp)

pub find_booking-Found :
    (d : Db) (id : String) (b : BookingForCancellation) → find_booking d id ≡ some b → Found id b d
unfolding find_booking
find_booking-Found d id b e =
    elim (Option-cases (find (λ (x : Booking). str_eq x.id id) d.bookings)) [
      | inl missing ↦ absurd (ground arith)
      | inr (b0, found) ↦
          elim (Option-cases
            (find (λ (x : SellerProfile). str_eq x.id b0.seller_id) d.seller_profiles)) [
              | inl missing ↦ absurd (ground arith)
              | inr (sp, profile) ↦ (b0, sp, found, profile, ground arith)
            ]
    ]

pub Found-named :
    (d : Db) (id : String) (b : BookingForCancellation) → Found id b d → b.booking_id ≡ id
unfolding joined_booking
Found-named d id b (b0, sp, found, profile, e) =
    ap (λ (x : BookingForCancellation). x.booking_id) e
    ∙ (eq_iff b0.id id).0 (find-true (λ (x : Booking). str_eq x.id id) d.bookings b0 found)

lock-Found :
    (id user_id : String) → Ensures (λ d. Unit {0}) (lock_participant_booking id user_id) (Found id)
unfolding lock_participant_booking lock_booking_for_cancellation
lock-Found id user_id =
    bind
      (bind (Ensures-select {Q = λ row d. find_booking d id ≡ row} _ (λ t d h. refl))
        (λ row. Ensures-one_row (λ b d e h. find_booking-Found d id b (h ∙ e))))
      (λ b. bind (Ensures-guard _ _ (λ d e h. h)) (λ _. Ensures-pure (λ d h. h)))

pub cancel-closes :
    (env : Settings) (rt : Runtime) (user_id id reason : String) (expected : ℤ)
    → Ensures
        (λ d. Unit {0})
        (cancel_agreed env rt user_id id reason expected)
        (λ refunded d. (refunded ≡ expected) × IsClosed id d)
unfolding cancel_agreed
cancel-closes env rt user_id id reason expected =
    bind
      (weaken {R = λ b d. Unit {0} × (b.booking_id ≡ id)} (lock-Found id user_id)
        (λ b d found. (tt, Found-named d id b found)))
      (λ b. given (λ named. bind Ensures-clock (λ now.
        bind (Ensures-guard {Q = λ _ d. Unit {0}} _ _ (λ d e h. h)) (λ _.
          bind
            (Ensures-guard
              {Q = λ _ d. Unit {0} × (expected ≡ (preview_cancellation b user_id now).refund_minor)}
              _ _ (λ d e h. (tt, eqb_ℤ-eq _ _ e)))
            (λ _. given (λ agreed. bind (apply-closes env rt b _ _ _ _) (λ _.
              Ensures-pure
                (λ d h. (sym agreed, subst (λ (x : String). IsClosed x d) named h)))))))))
