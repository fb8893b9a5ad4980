-- ===== src/Payouts/Worker.antt =====
-- payouts.go, processPayouts and advancePayout: the worker takes the payouts that are due and moves
-- each one forward.
use wantmytime.Prelude.{
  ℕ, ◌+◌, ◌*◌, ◌&&◌, ◌||◌, not, Bool, false, String, str_eq, Option, none, some, List, [], ◌∷◌,
  find, map, Unit0, leb, ltb, ◌==◌, if◌then◌else◌,
}
use wantmytime.Prelude.Int64.{pos, ◌+ℤ◌}
use wantmytime.Prelude.Chars.{leb_text}
use wantmytime.Prelude.Tables.{keep_if}
use wantmytime.Prelude.Time.{Time, minute}
use wantmytime.Store.Schema.{Db, SellerPayout, Booking}
use wantmytime.Store.Monad.{Tx, query, payouts_unavailable}
use wantmytime.Store.Outside.{Job, ◌>>=◌, ◌>>◌, done, refuse, tx, logged}
use wantmytime.Refunds.Statements.{any, update_where}
use wantmytime.Payouts.{is_processing}
use wantmytime.Payouts.Hold.{hold_and_due}
use wantmytime.Payouts.Release.{is_payout, is_scheduled, release_payout}
use wantmytime.Payouts.Retry.{auto_retry_failed_payouts, first_rows}
use wantmytime.Payouts.Provider.{KoraApi}
use wantmytime.Payouts.Send.{SendDesk, send_payout}

abbrev nothing_holds : String × Bool → Bool
nothing_holds (hold, due) = due && str_eq hold ""

abbrev may_go : ℕ → Time → Db → SellerPayout → Option Booking → Bool
may_go delay now d p none = false
may_go delay now d p (some b) =
    is_processing p.state || (is_scheduled p.state && nothing_holds (hold_and_due delay now d b p))

unfoldable pub payout_is_due : ℕ → Time → Db → SellerPayout → Bool
payout_is_due delay now d p =
    leb p.next_attempt_at now
    && may_go delay now d p (find (λ (b : Booking). str_eq b.id p.booking_id) d.bookings)

abbrev goes_first : SellerPayout → SellerPayout → Bool
goes_first p q =
    ltb p.next_attempt_at q.next_attempt_at
    || (p.next_attempt_at == q.next_attempt_at && leb_text p.id q.id)

abbrev insert_by_attempt : SellerPayout → List SellerPayout → List SellerPayout
insert_by_attempt p [] = p ∷ []
insert_by_attempt p (q ∷ l) =
    let rest = insert_by_attempt p l in if goes_first p q then p ∷ q ∷ l else q ∷ rest

-- ORDER BY next_attempt_at, id
unfoldable pub order_by_attempt : List SellerPayout → List SellerPayout
order_by_attempt [] = []
order_by_attempt (p ∷ l) = insert_by_attempt p (order_by_attempt l)

unfoldable pub due_payouts : ℕ → Time → Db → List String
due_payouts delay now d =
    map (λ (p : SellerPayout). p.id)
      (first_rows 10 (order_by_attempt (keep_if (payout_is_due delay now d) d.seller_payouts)))

abbrev pub is_listed : List String → SellerPayout → Bool
is_listed ids p = any (λ id. is_payout id p) ids

abbrev pub claimed_payout : Time → SellerPayout → SellerPayout
claimed_payout t p = record p {
  next_attempt_at = t + 5 * minute;
  attempts = p.attempts +ℤ pos 1;
  updated_at = t;
}

-- The rows are claimed for five minutes. A row that another worker holds is not skipped here: the
-- model has one worker at a time.
unfoldable pub claim_due_payouts : ℕ → Tx (List String)
claim_due_payouts delay = query (λ t d.
    let ids = due_payouts delay t d in
    (
      ids,
      record d {
        seller_payouts = update_where (is_listed ids) (claimed_payout t) d.seller_payouts;
      },
    ))

module _ {Bank : Type 0} (kora : KoraApi Bank) (desk : SendDesk) where
  unfoldable pub advance_payout : String → Job Bank Unit0
  advance_payout id = tx (release_payout desk.payouts id) >>= λ ready.
      if ready then send_payout kora desk id else done tt

  unfoldable pub advance_all : List String → Job Bank Unit0
  advance_all [] = done tt
  advance_all (id ∷ ids) = logged (advance_payout id) >> advance_all ids

  -- `on` is providerEnvironmentConfigured and not payoutsPaused; `client` is whether a client for
  -- Kora can be made.
  unfoldable pub process_payouts : Bool → Bool → Job Bank Unit0
  process_payouts on client =
      if not on
      then done tt
      else if not client
      then refuse payouts_unavailable
      else (logged (tx auto_retry_failed_payouts)
          >> (tx (claim_due_payouts desk.payouts.delay) >>= λ ids. advance_all ids))
