-- ===== src/Payments/Late.antt =====
-- unbooked.go, reclaimLateSlot: a payment that came after its hold had run out gets its time if that
-- is still free.
use wantmytime.Prelude.{
  ℕ, ◌+◌, ◌*◌, Bool, true, false, not, ◌&&◌, ◌||◌, String, str_eq, none, some, List, [], ◌∷◌, ◌++◌,
  find, Unit0, if◌then◌else◌,
}
use wantmytime.Prelude.Time.{Time, minute, after}
use wantmytime.Prelude.Tables.{any, update_where}
use wantmytime.Store.Schema.{Db, SlotReservation, SellerProfile, Quote}
use wantmytime.Store.Monad.{
  Tx, Result, ok, err, Session, ◌>>=◌, ◌>>◌, pure, clock, select, exec, try_query, one_row,
  in_transaction, exclusion_violation,
}
use wantmytime.Availability.Zone.{Zones}
use wantmytime.Availability.Slots.{ranges_overlap, occupied}
use wantmytime.Availability.Scheduled.{in_zone, valid_scheduled_time}
use wantmytime.Payments.Charged.{is_hold_of, is_quote}

-- EXCLUDE USING gist (seller_id WITH =, occupied_range WITH &&) WHERE (active)
abbrev excludes : SlotReservation → SlotReservation → Bool
excludes r s =
    r.active
    && s.active
    && str_eq r.seller_id s.seller_id
    && ranges_overlap (occupied r) (occupied s)

unfoldable pub has_exclusion : List SlotReservation → Bool
has_exclusion [] = false
has_exclusion (r ∷ l) = let rest = has_exclusion l in any (excludes r) l || rest

unfoldable pub save_reservations : {A : Type 0} → A → List SlotReservation → Db → Result A × Db
save_reservations a l d =
    if has_exclusion l
    then (err exclusion_violation, d)
    else (ok a, record d { slot_reservations = l })

abbrev is_lapsed_hold : String → SlotReservation → Bool
is_lapsed_hold quote_id r = is_hold_of quote_id r && str_eq r.reservation_kind "hold"

abbrev new_hold : String → String → Time → Time → Time → SlotReservation
new_hold quote_id seller_id from to until = record {
  booking_id = none;
  active = true;
  seller_id = seller_id;
  occupied_from = from;
  occupied_to = to;
  reservation_kind = "hold";
  quote_id = some quote_id;
  expires_at = some until;
}

-- Whether a row was changed.
unfoldable pub revive_hold : String → Time → Tx Bool
revive_hold quote_id until = try_query (λ t d.
    save_reservations (any (is_lapsed_hold quote_id) d.slot_reservations)
      (update_where (is_lapsed_hold quote_id)
        (λ r. record r { active = true; expires_at = some until }) d.slot_reservations)
      d)

unfoldable pub insert_hold : SlotReservation → Tx Unit0
insert_hold r = try_query (λ t d. save_reservations tt (d.slot_reservations ++ (r ∷ [])) d)

abbrev can_be_held : String → Quote → Bool
can_be_held id q = is_quote id q && (str_eq q.state "held" || str_eq q.state "expired")

unfoldable pub extend_quote : String → Time → Tx Unit0
extend_quote id until = exec (λ t d. record d {
  quotes =
      update_where (can_be_held id) (λ q. record q { state = "held"; expires_at = until }) d.quotes;
})

unfoldable pub take_slot : String → SlotReservation → Time → Tx Bool
take_slot quote_id hold until = do
  revived ← revive_hold quote_id until
  if revived then pure tt else insert_hold hold
  extend_quote quote_id until
  pure true

-- Somebody else has the time.
abbrev pub taken_is_false : Result Bool × Session → Result Bool × Session
taken_is_false (ok b, s) = (ok b, s)
taken_is_false (err exclusion_violation, s) = (ok false, s)
taken_is_false (err e, s) = (err e, s)

-- The savepoint is a transaction inside the caller's: what fails in it leaves nothing behind.
unfoldable pub hold_again : String → String → Time → ℕ → Tx Bool
hold_again quote_id seller_id starts length_minutes s =
    let until = s.now + 10 * minute in
    taken_is_false (
      in_transaction
        (take_slot quote_id
          (new_hold quote_id seller_id starts (starts + length_minutes * minute) until) until)
        s)

abbrev pub in_hours : Zones → SellerProfile → Time → ℕ → Tx Bool
in_hours zones sp starts duration s = elim (zones sp.timezone) [
  | none ↦ (ok false, s)
  | some zone ↦
      valid_scheduled_time zones sp.id sp.timezone (in_zone zone starts) starts
        (duration + sp.buffer_minutes) none s
]

unfoldable pub reclaim_free_slot : Zones → String → SellerProfile → Time → ℕ → Tx Bool
reclaim_free_slot zones quote_id sp starts duration = do
  valid ← in_hours zones sp starts duration
  if valid then hold_again quote_id sp.id starts (duration + sp.buffer_minutes) else pure false

unfoldable pub find_late_seller : String → Tx SellerProfile
find_late_seller seller_id = do
  row ← select (λ t d. find (λ (sp : SellerProfile). str_eq sp.id seller_id) d.seller_profiles)
  one_row row

unfoldable pub reclaim_late_slot : Zones → String → String → Time → ℕ → Tx Bool
reclaim_late_slot zones quote_id seller_id starts duration = clock >>= λ now.
    if not (after starts (now + 5 * minute))
    then pure false
    else (find_late_seller seller_id >>= λ sp. reclaim_free_slot zones quote_id sp starts duration)
