-- ===== src/Cancellation/Once.antt =====
-- A booking is cancelled once (cancelBooking).
use wantmytime.Prelude.{
  ◌≡◌, refl, true, false, String, str_eq, Option, none, some, List, [], ◌∷◌, find, arith,
  Bool-cases, Option-cases, inl, inr, ltb,
}
use Prim.Native.String.{len}
use wantmytime.Prelude.Int64.{ℤ}
use wantmytime.Store.Schema.{Booking}
use wantmytime.Store.Monad.{
  no_rows, cancellation_unavailable, invalid_cancellation, Error, Session, ok, err, query, select,
}
use wantmytime.Store.Transaction.{in_transaction-err}
use wantmytime.Ledger.Journal.{Runtime}
use wantmytime.Refunds.Statements.{
  BookingForCancellation, any, lock_booking_for_cancellation, find_booking, joined_booking,
}
use wantmytime.Refunds.Create.{Settings}
use wantmytime.Cancellation.Preview.{preview_cancellation}
use wantmytime.Cancellation.Handler.{
  takes_part, lock_participant_booking, cancel_agreed, cancel_booking,
}
use wantmytime.Cancellation.Effect.{is_confirmed, IsClosed, Found, find_booking-Found}
use wantmytime.Cancellation.Repaid.{cancel_booking_effect}

find-unconfirmed :
    (id : String) (bs : List Booking) (b : Booking)
    → find (λ (x : Booking). str_eq x.id id) bs ≡ some b
    → any (is_confirmed id) bs ≡ false
    → str_eq b.state "confirmed" ≡ false
find-unconfirmed id [] b e h = cc
find-unconfirmed id (x ∷ bs) b e h = ground (arith, find-unconfirmed id bs b)

module _ (env : Settings) (rt : Runtime) (user_id id reason : String) (s : Session)
    (working : s.faults ≡ []) where
  missing_refused :
      (asked : ℤ)
      → find_booking s.db id ≡ none
      → cancel_agreed env rt user_id id reason asked s ≡ (err no_rows, s)
  unfolding cancel_agreed lock_participant_booking lock_booking_for_cancellation query select
  missing_refused asked missing = rw (working, missing) refl

  stranger_refused :
      (asked : ℤ) (b : BookingForCancellation)
      → find_booking s.db id ≡ some b
      → takes_part user_id b ≡ false
      → cancel_agreed env rt user_id id reason asked s ≡ (err no_rows, s)
  unfolding cancel_agreed lock_participant_booking lock_booking_for_cancellation query select
  stranger_refused asked b found stranger = rw (working, found, stranger) refl

  unconfirmed_refused :
      (asked : ℤ) (b : BookingForCancellation)
      → find_booking s.db id ≡ some b
      → takes_part user_id b ≡ true
      → str_eq b.state "confirmed" ≡ false
      → cancel_agreed env rt user_id id reason asked s
        ≡ (err (cancellation_unavailable "This booking can no longer be cancelled."), s)
  unfolding cancel_agreed lock_participant_booking lock_booking_for_cancellation query select
      preview_cancellation
  unconfirmed_refused asked b found part closed = rw (working, found, part, closed) refl

  closed_unconfirmed :
      (b : BookingForCancellation)
      → IsClosed id s.db
      → find_booking s.db id ≡ some b
      → str_eq b.state "confirmed" ≡ false
  unfolding joined_booking
  closed_unconfirmed b closed found =
      let (b0, sp, stored, profile, e) : Found id b s.db = find_booking-Found s.db id b found in
      rw e (find-unconfirmed id s.db.bookings b0 stored closed.0)

  closed_refused :
      (asked : ℤ)
      → IsClosed id s.db
      → (e : Error) × (cancel_agreed env rt user_id id reason asked s ≡ (err e, s))
  closed_refused asked closed = elim (Option-cases (find_booking s.db id)) [
    | inl missing ↦ (_, missing_refused asked missing)
    | inr (b, found) ↦ elim (Bool-cases (takes_part user_id b)) [
      | inr stranger ↦ (_, stranger_refused asked b found stranger)
      | inl part ↦ (_, unconfirmed_refused asked b found part (closed_unconfirmed b closed found))
    ]
  ]

-- After a cancellation that succeeded, while the database answers, whoever cancels the same booking
-- again, with whatever input, is refused and changes nothing: it is never refunded twice.
pub cancel_booking_once :
    (env : Settings) (rt : Runtime) (user_id user_id' id reason reason' : String)
    (expected refunded : ℤ) (asked : Option ℤ) (s s' : Session)
    → cancel_booking env rt user_id id reason (some expected) s ≡ (ok refunded, s')
    → s'.faults ≡ []
    → (e : Error) × (cancel_booking env rt user_id' id reason' asked s' ≡ (err e, s'))
unfolding cancel_booking
cancel_booking_once env rt user_id user_id' id reason reason' expected refunded none s s' e
      working =
    (_, refl)
cancel_booking_once env rt user_id user_id' id reason reason' expected refunded (some asked) s s' e
      working =
    elim (Bool-cases (ltb 500 (len reason'))) [
      | inl long ↦ (invalid_cancellation, rw long refl)
      | inr short ↦
          let closed : IsClosed id s'.db =
            (cancel_booking_effect env rt user_id id reason expected refunded s s' e).0.1 in
          let (e', refused) = closed_refused env rt user_id' id reason' s' working asked closed in
          (e', rw short (in_transaction-err _ s' e' refused working))
    ]
