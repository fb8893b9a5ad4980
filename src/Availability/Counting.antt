-- ===== src/Availability/Counting.antt =====
-- The loops with a step (availability.go): which values they visit.
use wantmytime.Prelude.{
  ℕ, zero, suc, ◌+◌, ◌*◌, ◌≤◌, ◌<◌, ◌≡◌, ◌||◌, inl, inr, refl, Bool, true, false, leb, arith,
  Bool-cases, le→leb, leb→le,
}
use wantmytime.Prelude.Tables.{any}
use wantmytime.Availability.Slots.{count_up}

step_on : (k step x : ℕ) → x + step * suc k ≡ (x + step) + step * k
step_on k step x = omega arith

no_step : (step x : ℕ) → x + step * 0 ≡ x
no_step step x = omega arith

pub or-true : (a b : Bool) → b ≡ true → a || b ≡ true
or-true true b h = refl
or-true false b h = h

module _ (p : ℕ → Bool) (step room last : ℕ) where
  -- A value that the loop visits is the start and some steps, and leaves the room.
  pub count_up-visits :
      (fuel x : ℕ)
      → any p (count_up fuel step room last x) ≡ true
      → (k : ℕ) × (x + step * k + room ≤ last) × (p (x + step * k) ≡ true)
  unfolding count_up
  count_up-visits zero x h = cc
  count_up-visits (suc fuel) x h = elim (Bool-cases (leb (x + room) last)) [
    | inl e ↦ elim (Bool-cases (p x)) [
      | inl q ↦ (0, rw (no_step step x) (leb→le (x + room) last e), rw (no_step step x) q)
      | inr q ↦
          let r = count_up-visits fuel (x + step) (ground (arith, h, e, q)) in
          (suc r.0, rw (step_on r.0 step x) r.1, rw (step_on r.0 step x) r.2)
    ]
    | inr e ↦ absurd (ground (arith, h, e))
  ]

  -- With fuel for the steps, the loop visits each such value.
  pub visits-count_up :
      (fuel k x : ℕ)
      → k < fuel
      → x + step * k + room ≤ last
      → p (x + step * k) ≡ true
      → any p (count_up fuel step room last x) ≡ true
  unfolding count_up
  visits-count_up zero k x h l q = absurd (omega (arith, h))
  visits-count_up (suc fuel) zero x h l q =
      rw (le→leb (x + room) last (rw (no_step step x) at l), (rw (no_step step x) at q)) refl
  visits-count_up (suc fuel) (suc k) x h l q =
      let rest =
        visits-count_up fuel k (x + step) (omega (arith, h)) (rw (step_on k step x) at l)
          (rw (step_on k step x) at q) in
      rw (le→leb (x + room) last (omega (arith, l)))
        (or-true (p x) (any p (count_up fuel step room last (x + step))) rest)
