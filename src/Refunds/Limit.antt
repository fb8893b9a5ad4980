-- ===== src/Refunds/Limit.antt =====
-- How much of a payout goes to earlier refunds (takeRecovery).
use native.Mathlib.Nat.{mul-add-div_right, div-add-mod', mod-lt, div-le_of_le-mul}
use wantmytime.Prelude.{
  ℕ, ◌+◌, ◌*◌, ◌/◌, ◌%◌, ◌^◌, ◌≤◌, ◌<◌, ◌≡◌, sym, ap, ◌∙◌, arith, List, [], ◌∷◌, min, if◌then◌else◌,
}
use wantmytime.Prelude.Int64.{
  pos, min_ℤ, add64, add64_pos, mul64_pos, div64_pos, rem64_pos, leb_ℤ, pos_part,
}
use wantmytime.Refunds.Recovery.{OpenRecovery, recovery_limit, recovery_take, owed_total}

limit_parts : (a b : ℕ) → a / 10000 * b + a % 10000 * b / 10000 ≡ a * b / 10000
limit_parts a b =
    sym (mul-add-div_right {m = 10000} (omega arith) (a / 10000 * b) (a % 10000 * b))
    ∙ ap (λ (t : ℕ). t / 10000) (omega (arith, ap (λ (t : ℕ). t * b) (div-add-mod' a 10000)))

limit-le : (a b : ℕ) → b ≤ 10000 → a * b / 10000 ≤ a
limit-le a b h = div-le_of_le-mul 10000 (grind arith)

small_rest : (a b : ℕ) → b ≤ 10000 → a % 10000 * b ≤ 10000 * 10000
small_rest a b h = grind (arith, mod-lt a {m = 10000} (omega arith))

-- No open recovery is negative.
abbrev pub AreDebts : List OpenRecovery → Type 0
AreDebts [] = Unit
AreDebts (r ∷ rows) = (r.outstanding ≡ pos (pos_part r.outstanding)) × AreDebts rows

abbrev pub owed_sum : List OpenRecovery → ℕ
owed_sum [] = 0
owed_sum (r ∷ rows) = pos_part r.outstanding + owed_sum rows

owed_total_exact :
    (rows : List OpenRecovery) (acc : ℕ)
    → AreDebts rows
    → acc + owed_sum rows < 2 ^ 63
    → owed_total rows (pos acc) ≡ pos (acc + owed_sum rows)
owed_total_exact [] acc debts fits = ap pos (omega arith)
owed_total_exact (r ∷ rows) acc (debt, debts) fits =
    let n = pos_part r.outstanding in
    let step : add64 (pos acc) r.outstanding ≡ pos (acc + n) =
      ap (add64 (pos acc)) debt ∙ add64_pos acc n (omega arith) in
    ap (owed_total rows) step
    ∙ owed_total_exact rows (acc + n) debts (omega arith)
    ∙ ap pos (omega arith)

limit_exact :
    (a b : ℕ) → a < 2 ^ 63 → b ≤ 10000 → recovery_limit (pos b) (pos a) ≡ pos (a * b / 10000)
unfolding recovery_limit
limit_exact a b fits cap =
    let total = limit_parts a b in
    let small = small_rest a b cap in
    let bounded = limit-le a b cap in
    rw
      (
        div64_pos a 10000 fits (omega arith),
        rem64_pos a 10000,
        mul64_pos (a / 10000) b (omega arith),
        mul64_pos (a % 10000) b (omega arith),
        div64_pos (a % 10000 * b) 10000 (omega arith) (omega arith),
        add64_pos (a / 10000 * b) (a % 10000 * b / 10000) (omega arith),
      )
      (ap pos total)

min_taken :
    (x y : ℕ)
    → (if leb_ℤ (min_ℤ (pos x) (pos y)) (pos 0) then pos 0 else min_ℤ (pos x) (pos y))
      ≡ pos (min x y)
min_taken x y = ground arith

-- For a payout of any amount of int64, a cap of at most 10000 basis points and open debts whose sum
-- fits in an int64, what is taken is the smaller of that sum and the cap's share of the payout,
-- rounded down; no step overflows, and it is never more than the payout.
pub recovery_take_exact :
    (a b : ℕ) (rows : List OpenRecovery)
    → a < 2 ^ 63
    → b ≤ 10000
    → AreDebts rows
    → owed_sum rows < 2 ^ 63
    → (recovery_take (pos b) rows (pos a) ≡ pos (min (owed_sum rows) (a * b / 10000)))
      × (min (owed_sum rows) (a * b / 10000) ≤ a)
unfolding recovery_take
recovery_take_exact a b [] fits cap debts sum_fits = (ap pos (omega arith), omega arith)
recovery_take_exact a b (r ∷ rows) fits cap debts sum_fits = (
  rw (owed_total_exact (r ∷ rows) 0 debts (omega arith), limit_exact a b fits cap)
      (min_taken (0 + owed_sum (r ∷ rows)) (a * b / 10000) ∙ ap pos (omega arith)),
  omega (arith, limit-le a b cap),
)
