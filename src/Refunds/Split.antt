-- ===== src/Refunds/Split.antt =====
-- What createRefund plans: the parts add up, and nobody gives back more than they received.
use native.Mathlib.Nat.{div-le_of_le-mul, mul-div_cancel_left, le_refl}
use wantmytime.Prelude.{
  ℕ, ◌+◌, ◌-◌, ◌*◌, ◌/◌, ◌^◌, ◌≤◌, ◌<◌, ◌≡◌, ◌≢◌, true, false, ◌||◌, String, str_eq, none,
  if◌then◌else◌, Bool-cases, inl, inr, arith, ltb,
}
use wantmytime.Prelude.Int64.{pos, ◌≤ℤ◌, ltb_ℤ, add64, add64_pos}
use wantmytime.Store.Schema.{pending_approval, queued, not_required}
use wantmytime.Store.Monad.{ok}
use wantmytime.Policy.{refund_shares}
use wantmytime.Policy.Shares.{refund_shares_exact}
use wantmytime.Refunds.Statements.{BookingForCancellation, shares_allowed}
use wantmytime.Refunds.Create.{Settings, RefundPlan, refund_switch, refund_plan, returns_buyer_fee}

-- The amounts of a booking as the tables hold them: a price g above zero, a deduction d of at most
-- the price, a transfer fee f, all small enough for the products in int64.
pub record Prices (b : BookingForCancellation) (g d f : ℕ) : Type 0 where
  pub gross : b.gross_minor ≡ pos g
  pub deduction : b.deduction_minor ≡ pos d
  pub fee : b.buyer_fee_minor ≡ pos f
  pub priced : 0 < g
  pub within : d ≤ g
  pub fits : g + f < 2 ^ 63
  pub product_fits : g * d < 2 ^ 63

-- What the plan promises: the row passes the constraints of its table, the buyer gets at most what
-- they paid, and, unless the payment was simulated, the platform bears at most its deduction and the
-- transfer fee and the seller at most their share of the price.
abbrev pub IsFair : ℕ → ℕ → ℕ → RefundPlan → Type 0
IsFair g d f plan =
    (shares_allowed plan.amount plan.platform plan.seller ≡ true)
    × (plan.amount ≤ℤ pos (g + f))
    × (plan.state ≢ not_required → (plan.platform ≤ℤ pos (d + f)) × (plan.seller ≤ℤ pos (g - d)))

refund_switch-IsFair :
    (env : Settings) (b : BookingForCancellation) (g d f p s : ℕ) {plan : RefundPlan}
    → 0 < p + s
    → p + s ≤ g + f
    → p ≤ d + f
    → s ≤ g - d
    → refund_switch env b (pos (p + s)) (pos p) (pos s) ≡ ok plan
    → IsFair g d f plan
unfolding refund_switch
refund_switch-IsFair env b g d f p s positive bounded covered borne e = ground arith

-- The amount asked for, at most the price.
abbrev capped : ℕ → ℕ → ℕ
capped g asked = if ltb g asked then g else asked

capped_bounds : (g asked : ℕ) → 0 < g → 0 < asked → (0 < capped g asked) × (capped g asked ≤ g)
capped_bounds g asked h k = ground arith

module _ (env : Settings) (b : BookingForCancellation) (g d f m : ℕ) (reason : String)
    (prices : Prices b g d f) (positive : 0 < m) (bounded : m ≤ g) where
  shares :
      refund_shares (pos m) b.gross_minor b.deduction_minor ≡ (pos (m * d / g), pos (m - m * d / g))
  shares = cc (
    prices.gross,
    prices.deduction,
    (refund_shares_exact m g d positive bounded prices.within (omega arith) prices.product_fits).0,
  )

  platform-le : m * d / g ≤ d
  platform-le =
      (refund_shares_exact m g d positive bounded prices.within (omega arith) prices.product_fits).1

  seller-le : m - m * d / g ≤ g - d
  seller-le =
      (refund_shares_exact m g d positive bounded prices.within (omega arith) prices.product_fits).2

  platform-le-amount : m * d / g ≤ m
  platform-le-amount = div-le_of_le-mul g (platform_product m g d prices.within)
    where
      platform_product : (m g d : ℕ) → d ≤ g → m * d ≤ g * m
      platform_product m g d h = grind arith

  planned-IsFair :
      {plan : RefundPlan}
      → (if returns_buyer_fee b (pos m) reason
          then refund_switch env b
              (add64 (pos m) b.buyer_fee_minor)
              (add64 (refund_shares (pos m) b.gross_minor b.deduction_minor).0 b.buyer_fee_minor)
              (refund_shares (pos m) b.gross_minor b.deduction_minor).1
          else refund_switch env b
              (pos m)
              (refund_shares (pos m) b.gross_minor b.deduction_minor).0
              (refund_shares (pos m) b.gross_minor b.deduction_minor).1)
        ≡ ok plan
      → IsFair g d f plan
  planned-IsFair {plan} e = elim (Bool-cases (returns_buyer_fee b (pos m) reason)) [
    | inl fee ↦
        refund_switch-IsFair env b g d f (m * d / g + f) (m - m * d / g) {plan = plan}
          (omega (arith, platform-le-amount)) (omega (arith, platform-le-amount))
          (omega (arith, platform-le)) seller-le
          (ground (
            arith,
            fee,
            e,
            shares,
            platform-le-amount,
            platform-le,
            add64_pos m f,
            add64_pos (m * d / g) f,
          ))
    | inr plain ↦
        refund_switch-IsFair env b g d f (m * d / g) (m - m * d / g) {plan = plan}
          (omega (arith, platform-le-amount)) (omega (arith, platform-le-amount))
          (omega (arith, platform-le)) seller-le
          (ground (arith, plain, e, shares, platform-le-amount))
  ]

-- For a booking whose price is positive, whose deduction is at most the price, and whose price and
-- fee added, and price and deduction multiplied, fit in an int64: the refund planned for a positive
-- amount, whatever was asked for and why, has parts that are not negative and add up to it, and is at
-- most the price and the transfer fee; unless the payment was simulated, it takes from the platform at
-- most its deduction and the transfer fee, and from the seller at most their share of the price.
pub refund_plan-IsFair :
    (env : Settings) (b : BookingForCancellation) (g d f asked : ℕ) (reason : String)
    {plan : RefundPlan}
    → Prices b g d f
    → 0 < asked
    → refund_plan env b (pos asked) reason ≡ ok plan
    → IsFair g d f plan
unfolding refund_plan
refund_plan-IsFair env b g d f asked reason prices positive e =
    let bounds = capped_bounds g asked prices.priced positive in
    let amount : (if ltb_ℤ b.gross_minor (pos asked) then b.gross_minor else pos asked)
        ≡ pos (capped g asked) =
      ground (arith, prices.gross) in
    planned-IsFair env b g d f (capped g asked) reason prices bounds.0 bounds.1 (rw amount at e)

-- For such a booking, paid by a verified payment and not by a simulated one, of which the seller
-- cancels or does not show up: where the whole price is asked for, the buyer gets everything back, the
-- price and the transfer fee, of which the platform bears its deduction and the fee, and the seller their
-- share of the price; it is sent at once where refunds are automatic.
pub refund_plan_seller_fault :
    (env : Settings) (b : BookingForCancellation) (g d f : ℕ) (reason : String)
    → Prices b g d f
    → (str_eq reason "seller_cancelled" || str_eq reason "seller_no_show") ≡ true
    → str_eq b.payment_state "paid" ≡ true
    → str_eq b.payment_state "simulated" ≡ false
    → str_eq b.payment_attempt_id "" ≡ false
    → refund_plan env b (pos g) reason
      ≡ ok (record {
        amount = pos (g + f);
        platform = pos (d + f);
        seller = pos (g - d);
        state = if env.refunds_enabled then queued else pending_approval;
        note = none;
      })
unfolding refund_plan refund_switch
refund_plan_seller_fault env b g d f reason prices fault paid charged attempted =
    let whole : g * d / g ≡ d = mul-div_cancel_left d prices.priced in
    ground (
      arith,
      shares env b g d f g reason prices prices.priced (le_refl g),
      whole,
      add64_pos g f,
      add64_pos d f,
      prices.within,
    )
