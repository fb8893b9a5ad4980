-- ===== src/Policy/Shares.antt =====
-- How a refund is split (policy.go, refundShares).
use native.Mathlib.Nat.{
  mul-add-div_right, div-add-mod', mod-lt, le-div_iff_mul-le, div-le_of_le-mul,
}
use native.Mathlib.Decide.{dec_le}
use wantmytime.Prelude.{ℕ, ◌+◌, ◌-◌, ◌*◌, ◌/◌, ◌%◌, ◌^◌, ◌≤◌, ◌<◌, ◌≡◌, sym, ap, ◌∙◌, arith}
use wantmytime.Prelude.Int64.{
  pos, add64, mul64, div64, rem64, add64_pos, sub64_pos, mul64_pos, div64_pos, rem64_pos,
}
use wantmytime.Policy.{refund_shares}

-- Splitting off the whole multiples of the price changes nothing.
split_division : (a g d : ℕ) → 0 < g → a / g * d + a % g * d / g ≡ a * d / g
split_division a g d h =
    sym (mul-add-div_right h (a / g * d) (a % g * d))
    ∙ ap (λ (t : ℕ). t / g) (omega (arith, ap (λ (t : ℕ). t * d) (div-add-mod' a g)))

share-le-deduction : (a g d : ℕ) → a ≤ g → a * d / g ≤ d
share-le-deduction a g d k = div-le_of_le-mul g (grind arith)

slack_product : (x e f : ℕ) → x * (f + x + e) ≤ (f + x) * (x + e)
slack_product x e f = omega arith

slack_product_of_eq : (a g d x e f : ℕ) → a ≡ f + x → d ≡ x + e → g ≡ f + x + e → x * g ≤ a * d
slack_product_of_eq a g d x e f ha hd hg = rw (ha, hd, hg) (slack_product x e f)

share_lower : (a g d : ℕ) → 0 < g → a ≤ g → d ≤ g → a + d ≤ g + a * d / g
share_lower a g d h k l = elim (dec_le g (a + d)) [
  | yes p ↦ omega (
    arith,
    (le-div_iff_mul-le {k = g} {x = a + d - g} {y = a * d} h).1 (
        slack_product_of_eq a g d (a + d - g) (g - a) (g - d) (omega arith) (omega arith)
          (omega arith)),
  )
  | no p ↦ omega arith
]

rem_product : (a g d : ℕ) → 0 < g → a % g * d ≤ g * d
rem_product a g d h = grind (arith, mod-lt a h)

-- The 64-bit computation does not wrap.
platform_share_exact :
    (a g d : ℕ)
    → 0 < g
    → a ≤ g
    → d ≤ g
    → g < 2 ^ 63
    → g * d < 2 ^ 63
    → add64
        (mul64 (div64 (pos a) (pos g)) (pos d))
        (div64 (mul64 (rem64 (pos a) (pos g)) (pos d)) (pos g))
      ≡ pos (a * d / g)
platform_share_exact a g d h k l fits product_fits =
    let total : a / g * d + a % g * d / g ≡ a * d / g = split_division a g d h in
    let small : a * d / g ≤ d = share-le-deduction a g d k in
    let rest : a % g * d < 2 ^ 63 = omega (arith, rem_product a g d h) in
    rw
      (
        div64_pos a g (omega arith) h,
        rem64_pos a g,
        mul64_pos (a / g) d (omega arith),
        mul64_pos (a % g) d rest,
        div64_pos (a % g * d) g rest h,
        add64_pos (a / g * d) (a % g * d / g) (omega arith),
      )
      (ap pos total)

-- For a refund of at most the price, and a price and a deduction whose product fits in an int64, the
-- platform's part is the deduction scaled by the refunded fraction and rounded down, the seller's
-- part is the rest, and neither exceeds what that side received from the charge.
pub refund_shares_exact :
    (a g d : ℕ)
    → 0 < a
    → a ≤ g
    → d ≤ g
    → g < 2 ^ 63
    → g * d < 2 ^ 63
    → (refund_shares (pos a) (pos g) (pos d) ≡ (pos (a * d / g), pos (a - a * d / g)))
      × (a * d / g ≤ d)
      × (a - a * d / g ≤ g - d)
unfolding refund_shares
refund_shares_exact a g d ha k l fits product_fits =
    let platform = platform_share_exact a g d (omega arith) k l fits product_fits in
    let at_most : a * d / g ≤ a = div-le_of_le-mul g (grind arith) in
    (
      ground (arith, platform, sub64_pos a (a * d / g)),
      share-le-deduction a g d k,
      omega (arith, share_lower a g d (omega arith) k l),
    )
