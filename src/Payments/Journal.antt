-- ===== src/Payments/Journal.antt =====
-- The journal of a verified charge passes the checks of the ledger (payment_processing.go).
use Prim.Native.String.{len}
use mathlib.Core.Path.{subst}
use wantmytime.Prelude.{
  ℕ, ◌+◌, ◌-◌, ◌^◌, ◌<◌, ◌≤◌, ◌≡◌, ◌==◌, false, true, String, str_eq, arith, Bool-cases, inl, inr,
  refl, ap, ◌∙◌, Option-cases,
}
use wantmytime.Prelude.Int64.{ℤ, pos, negsuc, add64, sub64, sub64_exact, sub64_pos, add64_pos}
use wantmytime.Store.Schema.{PaymentAttempt}
use wantmytime.Store.Monad.{Error, ok, err}
use wantmytime.Availability.Kept.{ok_inj}
use wantmytime.Refunds.Create.{Settings}
use wantmytime.Ledger.Totals.{ledger_totals}
use wantmytime.Ledger.Journal.{check_journal}
use wantmytime.Payments.Charge.{
  Snapshot, VerifiedCharge, charge_lines, with_fee, fee_differs, read_snapshot, snapshot_of,
  invalid_fees,
}

-- A price of p, of which q is the platform's, and b on top, of which the provider keeps f.
lines-accepted :
    (c : Snapshot) (id currency seller_id : String) (p q b f : ℕ)
    → c.price ≡ pos p
    → c.platform_fee ≡ pos q
    → c.buyer_fee ≡ pos b
    → c.expected ≡ pos (p + b)
    → q ≤ p
    → f < p + b
    → p + b < 2 ^ 63
    → str_eq id "" ≡ false
    → (len currency == 3) ≡ true
    → check_journal "payment_attempt" id currency (charge_lines c seller_id (pos f)) ≡ ok tt
unfolding check_journal ledger_totals charge_lines
lines-accepted c id currency seller_id p q b f price fee on_top expected cap below fits named
      coded =
    ground (
      arith,
      sub64_pos (p + b) f,
      sub64_pos p q,
      add64_pos q b,
      sub64_pos 9_223_372_036_854_775_807 (p + b - f),
      sub64_pos 9_223_372_036_854_775_807 f,
      sub64_pos 9_223_372_036_854_775_807 (q + b),
      sub64_pos 9_223_372_036_854_775_807 (p - q),
      add64_pos 0 (p + b - f),
      add64_pos (p + b - f) f,
      add64_pos 0 (q + b),
      add64_pos (q + b) (p - q),
      add64_pos 0 (p - q),
    )

err-ok : {A : Type 0} {e : Error} {a : A} → err e ≡ ok a → ⊥
err-ok h = cc

-- What a snapshot that is read says of the attempt.
abbrev IsSnapshotOf : Settings → PaymentAttempt → Snapshot → Type 0
IsSnapshotOf env a c =
    (c.expected ≡ a.expected_minor)
    × (c.buyer_fee ≡ a.buyer_fee_minor)
    × (c.price ≡ sub64 a.expected_minor a.buyer_fee_minor)
    × (invalid_fees c ≡ false)

read_snapshot-IsSnapshotOf :
    (env : Settings) (a : PaymentAttempt) (c : Snapshot)
    → read_snapshot env a ≡ ok c
    → IsSnapshotOf env a c
unfolding read_snapshot
read_snapshot-IsSnapshotOf env a c h = elim (Option-cases a.quote_id) [
  | inl n ↦ absurd (err-ok (rw n at h))
  | inr (q, e) ↦ elim (Option-cases a.approved_fee_minor) [
    | inl n ↦ absurd (err-ok (rw (e, n) at h))
    | inr (f, e2) ↦ elim (Option-cases a.fee_basis_points) [
      | inl n ↦ absurd (err-ok (rw (e, e2, n) at h))
      | inr (b, e3) ↦ elim (Bool-cases (invalid_fees (snapshot_of env a q f b))) [
        | inl i ↦ absurd (err-ok (rw (e, e2, e3, i) at h))
        | inr i ↦ subst (IsSnapshotOf env a) (ok_inj (rw (e, e2, e3, i) at h)) (refl, refl, refl, i)
      ]
    ]
  ]
]

platform_fee_bound :
    (c : Snapshot) (p : ℕ)
    → c.price ≡ pos p
    → invalid_fees c ≡ false
    → (0 < p) × ((q : ℕ) × (c.platform_fee ≡ pos q) × (q ≤ p))
unfolding invalid_fees
platform_fee_bound c p price h = go c.platform_fee refl
  where
    go : (z : ℤ) → c.platform_fee ≡ z → (0 < p) × ((q : ℕ) × (c.platform_fee ≡ pos q) × (q ≤ p))
    go (pos q) e = (ground (arith, h, price), (q, e, ground (arith, h, price, e)))
    go (negsuc q) e = absurd (ground (arith, h, e))

-- A price that is not positive is refused.
price_positive :
    (c : Snapshot) (e b : ℕ)
    → c.price ≡ sub64 (pos e) (pos b)
    → e < 2 ^ 63
    → b < 2 ^ 63
    → invalid_fees c ≡ false
    → b < e
unfolding invalid_fees
price_positive c e b price he hb h = ground (arith, h, price, sub64_exact e b he hb)

-- For a checkout snapshot that passes the tests of applyVerifiedCharge, and a provider's fee below the
-- amount that is expected, the journal of the charge is one that the ledger accepts, if the expected
-- amount and the fee added, and the buyer's fee, fit in an int64, the attempt has an id and the
-- currency three letters.
pub charge_lines-accepted :
    (env : Settings) (a : PaymentAttempt) (c : Snapshot) (charge : VerifiedCharge)
    (currency seller_id : String) (e b f : ℕ)
    → a.expected_minor ≡ pos e
    → a.buyer_fee_minor ≡ pos b
    → charge.fee ≡ pos f
    → b < 2 ^ 63
    → e + f < 2 ^ 63
    → f < e
    → read_snapshot env a ≡ ok c
    → str_eq a.id "" ≡ false
    → (len currency == 3) ≡ true
    → check_journal "payment_attempt" a.id currency
        (charge_lines (with_fee c charge) seller_id charge.fee)
      ≡ ok tt
unfolding with_fee
charge_lines-accepted env a c charge currency seller_id e b f expected on_top fee b_fits fits below
      read named coded =
    let (same_expected, same_fee, same_price, valid) = read_snapshot-IsSnapshotOf env a c read in
    let minor : c.price ≡ sub64 (pos e) (pos b) = rw (expected, on_top) at same_price in
    let b_below_e = price_positive c e b minor (omega (arith, fits)) b_fits valid in
    let price = minor ∙ sub64_pos e b (omega (arith, fits)) (omega (arith, b_below_e)) in
    let (positive, (q, q_fee, q_cap)) = platform_fee_bound c (e - b) price valid in
    elim (Bool-cases (fee_differs c charge)) [
      | inl d ↦
          rw (d, fee)
            (lines-accepted _ a.id currency seller_id (e - b) q f f price q_fee refl
              (ap (λ z. add64 z (pos f)) price ∙ add64_pos (e - b) f (omega (arith, fits))) q_cap
              (omega (arith, positive)) (omega (arith, fits, b_below_e)) named coded)
      | inr d ↦
          rw (d, fee)
            (lines-accepted c a.id currency seller_id (e - b) q b f price q_fee (same_fee ∙ on_top)
              (same_expected ∙ expected ∙ ap pos (omega (arith, b_below_e))) q_cap
              (omega (arith, below, b_below_e)) (omega (arith, fits, b_below_e)) named coded)
    ]
