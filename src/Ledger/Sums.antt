-- ===== src/Ledger/Sums.antt =====
-- The totals that `ledger_totals` computes in 64 bits are the sums of the lines.
use wantmytime.Prelude.{
  ℕ, ◌+◌, ◌^◌, ◌<◌, ◌≡◌, refl, ap, ◌∙◌, true, false, String, str_eq, eq_iff, List, [], ◌∷◌,
  if◌then◌else◌, arith,
}
use wantmytime.Prelude.Int64.{ℤ, pos, negsuc, leb_ℤ, eqb_ℤ, pos_part, sub64_pos, add64_pos}
use wantmytime.Store.Monad.{Result, ok, err}
use wantmytime.Ledger.Totals.{LedgerLine, add_line, ledger_totals}

-- The sum of the amounts of the lines on one side.
abbrev pub side_sum : String → List LedgerLine → ℕ
side_sum side [] = 0
side_sum side (line ∷ lines) =
    (if str_eq line.side side then pos_part line.amount else 0) + side_sum side lines

-- Every amount is a value of int64.
abbrev pub AmountsFit : List LedgerLine → Type 0
AmountsFit [] = Unit
AmountsFit (line ∷ lines) = (pos_part line.amount < 2 ^ 63) × AmountsFit lines

abbrev pub AmountsPositive : List LedgerLine → Type 0
AmountsPositive [] = Unit
AmountsPositive (line ∷ lines) = (0 < pos_part line.amount) × AmountsPositive lines

debit-not-credit : (s : String) → str_eq s "debit" ≡ true → str_eq s "credit" ≡ false
debit-not-credit s h = rw ((eq_iff s "debit").0 h) refl

positive_amount : (a : ℤ) → leb_ℤ a (pos 0) ≡ false → (a ≡ pos (pos_part a)) × (0 < pos_part a)
positive_amount (pos n) h = (refl, ground arith)
positive_amount (negsuc n) h = ground arith

-- What one accepted line adds to the two totals.
abbrev Added : LedgerLine → ℕ → ℕ → Result (ℤ × ℤ) → Type 0
Added line d c (err e) = Unit
Added line d c (ok (x, y)) =
    (0 < pos_part line.amount)
    × (x ≡ pos (d + side_sum "debit" (line ∷ [])))
    × (y ≡ pos (c + side_sum "credit" (line ∷ [])))
    × (d + side_sum "debit" (line ∷ []) < 2 ^ 63)
    × (c + side_sum "credit" (line ∷ []) < 2 ^ 63)

add_line-Added :
    (line : LedgerLine) (d c : ℕ)
    → pos_part line.amount < 2 ^ 63
    → d < 2 ^ 63
    → c < 2 ^ 63
    → Added line d c (add_line line (pos d) (pos c))
unfolding add_line
add_line-Added line d c fits hd hc = ground (
  arith,
  positive_amount line.amount,
  sub64_pos 9_223_372_036_854_775_807 (pos_part line.amount),
  add64_pos d (pos_part line.amount),
  add64_pos c (pos_part line.amount),
  debit-not-credit line.side,
)

-- What the loop has computed from the totals d and c on.
abbrev Summed : List LedgerLine → ℕ → ℕ → Result (ℤ × ℤ) → Type 0
Summed lines d c (err e) = Unit
Summed lines d c (ok (x, y)) =
    (x ≡ pos (d + side_sum "debit" lines))
    × (y ≡ pos (c + side_sum "credit" lines))
    × AmountsPositive lines

Summed-cons :
    (line : LedgerLine) (lines : List LedgerLine) (d c : ℕ) (r : Result (ℤ × ℤ))
    → 0 < pos_part line.amount
    → Summed lines (d + side_sum "debit" (line ∷ [])) (c + side_sum "credit" (line ∷ [])) r
    → Summed (line ∷ lines) d c r
Summed-cons line lines d c (err e) p h = tt
Summed-cons line lines d c (ok (x, y)) p h =
    (h.0 ∙ ap pos (omega arith), h.1 ∙ ap pos (omega arith), (p, h.2))

continue-Summed :
    (line : LedgerLine) (lines : List LedgerLine) (d c : ℕ)
    → ((d' c' : ℕ)
        → d' < 2 ^ 63
        → c' < 2 ^ 63
        → Summed lines d' c' (ledger_totals lines (pos d') (pos c')))
    → (r : Result (ℤ × ℤ)) → Added line d c r
    → Summed
        (line ∷ lines)
        d
        c
        (elim r [ ok (debit, credit) ↦ ledger_totals lines debit credit | err e ↦ err e ])
continue-Summed line lines d c ih (err e) h = tt
continue-Summed line lines d c ih (ok (x, y)) (p, ex, ey, fx, fy) =
    rw (ex, ey)
      (Summed-cons line lines d c
        (ledger_totals lines (pos (d + side_sum "debit" (line ∷ [])))
          (pos (c + side_sum "credit" (line ∷ []))))
        p (ih _ _ fx fy))

ledger_totals-Summed :
    (lines : List LedgerLine)
    → AmountsFit lines
    → (d c : ℕ) → d < 2 ^ 63
    → c < 2 ^ 63
    → Summed lines d c (ledger_totals lines (pos d) (pos c))
unfolding ledger_totals
ledger_totals-Summed [] fits d c hd hc = (ap pos (omega arith), ap pos (omega arith), tt)
ledger_totals-Summed (line ∷ lines) fits d c hd hc =
    continue-Summed line lines d c (ledger_totals-Summed lines fits.1)
      (add_line line (pos d) (pos c)) (add_line-Added line d c fits.0 hd hc)

-- Totals that are accepted and equal: the two sides have the same sum, and no amount is zero or
-- negative.
pub balanced_sums :
    (lines : List LedgerLine) (t : ℤ × ℤ)
    → AmountsFit lines
    → ledger_totals lines (pos 0) (pos 0) ≡ ok t
    → eqb_ℤ t.0 t.1 ≡ true
    → (side_sum "debit" lines ≡ side_sum "credit" lines) × AmountsPositive lines
balanced_sums lines t fits e same =
    let summed : Summed lines 0 0 (ok t) =
      rw e at (ledger_totals-Summed lines fits 0 0 (omega arith) (omega arith)) in
    (ground arith, summed.2)
