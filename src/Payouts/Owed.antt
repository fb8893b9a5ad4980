-- ===== src/Payouts/Owed.antt =====
-- What a payout owes, repays and refunds, in numbers (payouts.go, releasePayout and takeRecovery).
use Prim.Native.Nat.{◌≤◌}
use wantmytime.Prelude.{
  ℕ, ◌+◌, ◌^◌, ◌-◌, ◌<◌, ◌≡◌, ◌∙◌, refl, ◌∷◌, [], List, false, String, arith, if◌then◌else◌,
  Bool-cases, inl, inr,
}
use wantmytime.Prelude.Int64.{
  ℤ, pos, negsuc, pos_part, sub64, add64, ◌-ℤ◌, leb_ℤ, ltb_ℤ, max_int64, sub64_exact,
}
use wantmytime.Store.Schema.{Refund}
use wantmytime.Store.Monad.{ok, err, database_error}
use wantmytime.Ledger.Sums.{AmountsFit}
use wantmytime.Refunds.Recovery.{OpenRecovery, recovery_take, owed_total}
use wantmytime.Payments.Balanced.{sub64_fits, add64_fits}
use wantmytime.Payouts.{payout_lines}
use wantmytime.Payouts.Sound.{SharesArePositive}
use wantmytime.Payouts.Release.{takes_from, refunded_sum, refuses_amounts}

pub payout_lines-AmountsFit :
    (seller_id : String) (a b fee : ℤ)
    → pos_part fee < 2 ^ 63
    → AmountsFit (payout_lines seller_id (sub64 a b) fee)
unfolding payout_lines
payout_lines-AmountsFit seller_id a b fee fits = ground (arith, sub64_fits a b)

-- What is repaid fits in an int64, as the sums and the limit do.
owed_total_fits :
    (rows : List OpenRecovery) (owed : ℤ)
    → pos_part owed < 2 ^ 63
    → pos_part (owed_total rows owed) < 2 ^ 63
owed_total_fits [] owed h = h
owed_total_fits (r ∷ rows) owed h = owed_total_fits rows (add64 owed r.outstanding) (add64_fits _ _)

pub recovery_take_fits :
    (max_bps : ℤ) (rows : List OpenRecovery) (amount : ℤ)
    → pos_part (recovery_take max_bps rows amount) < 2 ^ 63
unfolding recovery_take
recovery_take_fits max_bps [] amount = omega arith
recovery_take_fits max_bps (r ∷ rows) amount = ground (arith, owed_total_fits (r ∷ rows) (pos 0))

-- The shares of refunds are no negative numbers, and neither is their sum.
pub refunded_sum-pos :
    (booking_id : String) (rs : List Refund)
    → SharesArePositive rs
    → (n : ℕ) × (refunded_sum booking_id rs ≡ pos n)
refunded_sum-pos booking_id [] h = (0, refl)
refunded_sum-pos booking_id (r ∷ rs) ((m, e), h) =
    let (n, rest) = refunded_sum-pos booking_id rs h in
    elim (Bool-cases (takes_from booking_id r)) [
      | inl t ↦ (m + n, ground arith)
      | inr t ↦ (n, ground arith)
    ]

-- The amount that is left of an entitlement.
abbrev pub IsOwed : ℤ → ℤ → Type 0
IsOwed entitlement amount =
    leb_ℤ amount (pos 0) ≡ false
    → (a : ℕ) × ((amount ≡ pos a) × (0 < a) × ((e : ℕ) × (entitlement ≡ pos e) × (a ≤ e)))

difference : (e r : ℕ) → r < e → pos e -ℤ pos r ≡ pos (e - r)
difference e r h = ground arith

pub IsOwed-amount :
    (e r : ℕ) (entitlement refunded : ℤ)
    → entitlement ≡ pos e
    → refunded ≡ pos r
    → e < 2 ^ 63
    → r < 2 ^ 63
    → IsOwed entitlement (sub64 entitlement refunded)
IsOwed-amount e r entitlement refunded he hr fe fr positive =
    let exact : sub64 entitlement refunded ≡ pos e -ℤ pos r = rw (he, hr) (sub64_exact e r fe fr) in
    let above : r < e = ground (arith, exact, positive) in
    (e - r, (exact ∙ difference e r above, omega arith, (e, he, omega arith)))

pub total_fits :
    (total r : ℤ) (n : ℕ)
    → total ≡ pos n
    → (if ltb_ℤ max_int64 total then err database_error else ok total) ≡ ok r
    → (r ≡ pos n) × (n < 2 ^ 63)
total_fits total r n same h = ground (arith, h, same)

pub recovery_within :
    (amount recovery : ℤ) (n : ℕ)
    → amount ≡ pos n
    → refuses_amounts amount recovery ≡ false
    → (r : ℕ) × ((recovery ≡ pos r) × (r ≤ n))
recovery_within amount (pos r) n same h = (r, (refl, ground (arith, h, same)))
recovery_within amount (negsuc r) n same h = absurd (ground (arith, h, same))
