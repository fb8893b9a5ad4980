-- ===== src/Payments/Money/RoundTrip.antt =====
-- An amount is read back from the text that is sent (kora.go).
use Prim.Native.Char.{char, code}
use Prim.Native.String.append
use Prim.Native.String.{[], ◌∷◌, ◌++◌ as text_append}
use wantmytime.Prelude.{
  ℕ, zero, suc, ◌+◌, ◌*◌, ◌/◌, ◌%◌, ◌^◌, ◌<◌, ◌≤◌, ◌≡◌, refl, ◌∙◌, ap, ◌==◌, Bool, true, false,
  String, some, ltb, Bool-cases, inl, inr, arith, lt→ltb, ltb→lt,
}
use wantmytime.Prelude.Int64.{pos, leb_ℤ, eqb_ℤ, div64_pos, rem64_pos, mul64_pos, add64_pos}
use wantmytime.Prelude.Chars.{
  decimal, put_digits, digit, is_digit, digit_of-digit, code-digit, is_digit-digit,
}
use wantmytime.Payments.Money.{
  decimal2, major_amount, digits_value, parse_int, cut_minus, cut_point, or_zero, all_digits,
  cents_of, parse_major,
}

abbrev has_digit_first : String → Bool
has_digit_first [] = false
has_digit_first (c ∷ s) = is_digit c

digits_value-put_digits :
    (fuel n : ℕ) (s : String)
    → n < 10 ^ fuel
    → digits_value (put_digits fuel n s) 0 ≡ digits_value s n
unfolding digits_value put_digits
digits_value-put_digits zero n s h = ap (digits_value s) (omega (arith, h))
digits_value-put_digits (suc fuel) n s h = elim (Bool-cases (ltb n 10)) [
  | inl e ↦ rw (e, digit_of-digit n (ltb→lt n 10 e)) (ap (digits_value s) (omega arith))
  | inr e ↦ rw e (
      digits_value-put_digits fuel (n / 10) (digit (n % 10) ∷ s) (omega (arith, h))
      ∙ rw (digit_of-digit (n % 10) (omega arith)) (ap (digits_value s) (omega arith)))
]

not_point : (n : ℕ) → code (digit n) == 46 ≡ false
not_point n = ground (arith, is_digit-digit n)

cut_point-put_digits :
    (fuel n : ℕ) (s : String)
    → cut_point (put_digits fuel n s) ≡ (put_digits fuel n (cut_point s).0, (cut_point s).1)
unfolding put_digits
cut_point-put_digits zero n s = refl
cut_point-put_digits (suc fuel) n s = elim (Bool-cases (ltb n 10)) [
  | inl e ↦ rw (e, not_point n) refl
  | inr e ↦
      rw e (cut_point-put_digits fuel (n / 10) (digit (n % 10) ∷ s) ∙ rw (not_point (n % 10)) refl)
]

has_digit_first-put_digits :
    (fuel n : ℕ) (s : String)
    → has_digit_first s ≡ true
    → has_digit_first (put_digits fuel n s) ≡ true
unfolding put_digits
has_digit_first-put_digits zero n s h = h
has_digit_first-put_digits (suc fuel) n s h = elim (Bool-cases (ltb n 10)) [
  | inl e ↦ rw e (is_digit-digit n)
  | inr e ↦
      rw e (has_digit_first-put_digits fuel (n / 10) (digit (n % 10) ∷ s) (is_digit-digit (n % 10)))
]

parse_int_digits :
    (s : String) (n : ℕ)
    → has_digit_first s ≡ true
    → digits_value s 0 ≡ some n
    → n < 2 ^ 63
    → parse_int s ≡ some (pos n)
unfolding parse_int
parse_int_digits [] n h v fits = absurd (cc)
parse_int_digits (c ∷ s) n h v fits = ground (arith, h, v, fits)

cut_minus_digits : (s : String) → has_digit_first s ≡ true → cut_minus s ≡ (false, s)
cut_minus_digits [] h = absurd (cc)
cut_minus_digits (c ∷ s) h = ground (arith, h)

or_zero_digits : (s : String) → has_digit_first s ≡ true → or_zero s ≡ s
or_zero_digits [] h = absurd (cc)
or_zero_digits (c ∷ s) h = refl

cents_of-digits : (a b : ℕ) → a < 10 → b < 10 → cents_of (digit a ∷ digit b ∷ []) ≡ a * 10 + b
cents_of-digits a b ha hb = rw (code-digit a ha, code-digit b hb) (omega arith)

all_digits-digits : (a b : ℕ) → all_digits (digit a ∷ digit b ∷ []) ≡ true
all_digits-digits a b = rw (is_digit-digit a, is_digit-digit b) refl

put_digits-append :
    (fuel n : ℕ) (s t : String)
    → text_append (put_digits fuel n s) t ≡ put_digits fuel n (text_append s t)
unfolding put_digits
put_digits-append zero n s t = refl
put_digits-append (suc fuel) n s t = elim (Bool-cases (ltb n 10)) [
  | inl e ↦ rw (e, append.cons (digit n) s t) refl
  | inr e ↦ rw e (
      put_digits-append fuel (n / 10) (digit (n % 10) ∷ s) t
      ∙ ap (put_digits fuel (n / 10)) (append.cons (digit (n % 10)) s t))
]

put_digits-short : (fuel n : ℕ) (s : String) → n < 10 → put_digits (suc fuel) n s ≡ digit n ∷ s
unfolding put_digits
put_digits-short fuel n s h = rw (lt→ltb n 10 h) refl

put_digits-longer :
    (fuel n : ℕ) (s : String)
    → ltb n 10 ≡ false
    → put_digits (suc fuel) n s ≡ put_digits fuel (n / 10) (digit (n % 10) ∷ s)
unfolding put_digits
put_digits-longer fuel n s h = rw h refl

put_digits-has_digit_first :
    (fuel n : ℕ) (s : String) → has_digit_first (put_digits (suc fuel) n s) ≡ true
put_digits-has_digit_first fuel n s = elim (Bool-cases (ltb n 10)) [
  | inl e ↦ rw (put_digits-short fuel n s (ltb→lt n 10 e)) (is_digit-digit n)
  | inr e ↦
      rw (put_digits-longer fuel n s e)
        (has_digit_first-put_digits fuel (n / 10) _ (is_digit-digit (n % 10)))
]

decimal2_two : (r : ℕ) → r < 100 → decimal2 (pos r) ≡ digit (r / 10) ∷ digit (r % 10) ∷ []
unfolding decimal2 decimal
decimal2_two r h = elim (Bool-cases (ltb r 10)) [
  | inl e ↦
      let short : r / 10 ≡ 0 = omega (arith, ltb→lt r 10 e) in
      let same : r % 10 ≡ r = omega (arith, ltb→lt r 10 e) in
      rw (e, put_digits-short 19 r [] (ltb→lt r 10 e), short, same) refl
  | inr e ↦
      rw (e, put_digits-longer 19 r [] e, put_digits-short 18 (r / 10) _ (omega (arith, h))) refl
]

-- What parse_major reads in a number and what stands after the point.
parse_major_parts :
    (q : ℕ) (s frac : String)
    → cut_point s ≡ ([], frac)
    → q ≤ 2 ^ 52
    → all_digits frac ≡ true
    → cents_of frac < 100
    → parse_major (put_digits 20 q s) ≡ some (pos (q * 100 + cents_of frac))
unfolding parse_major digits_value
parse_major_parts q s frac cut small digits below =
    let read =
      parse_int_digits (put_digits 20 q []) q (put_digits-has_digit_first 19 q [])
        (digits_value-put_digits 20 q [] (omega (arith, small))) (omega (arith, small)) in
    let within : leb_ℤ (pos q) (pos (2 ^ 52)) ≡ true = ground (arith, small) in
    rw
      (
        cut_minus_digits (put_digits 20 q s) (put_digits-has_digit_first 19 q s),
        cut_point-put_digits 20 q s,
        cut,
      )
      (rw
        (
          or_zero_digits (put_digits 20 q []) (put_digits-has_digit_first 19 q []),
          read,
          within,
          digits,
          mul64_pos q 100 (omega (arith, small)),
          add64_pos (q * 100) (cents_of frac) (omega (arith, small, below)),
        )
        refl)

parse_major_hundredths :
    (q r : ℕ)
    → q ≤ 2 ^ 52
    → r < 100
    → parse_major (text_append (put_digits 20 q []) (char 46 tt ∷ decimal2 (pos r)))
      ≡ some (pos (q * 100 + r))
parse_major_hundredths q r small h =
    let frac = digit (r / 10) ∷ digit (r % 10) ∷ [] in
    let cents : cents_of frac ≡ r =
      cents_of-digits (r / 10) (r % 10) (omega (arith, h)) (omega arith) ∙ omega arith in
    rw
      (
        decimal2_two r h,
        put_digits-append 20 q [] (char 46 tt ∷ frac),
        append.nil (char 46 tt ∷ frac),
      )
      (parse_major_parts q (char 46 tt ∷ frac) frac refl small (all_digits-digits (r / 10) (r % 10))
          (omega (arith, cents, h))
        ∙ ap (λ n. some (pos (q * 100 + n))) cents)

no_rest : (r : ℕ) → eqb_ℤ (pos r) (pos 0) ≡ true → r ≡ 0
no_rest r e = ground (arith, e)

-- Every amount up to 2^52 units is read back from the text that is sent.
pub parse_major-major_amount :
    (minor : ℕ) → minor ≤ 100 * 2 ^ 52 → parse_major (major_amount (pos minor)) ≡ some (pos minor)
unfolding major_amount decimal
parse_major-major_amount minor h =
    let q = minor / 100 in
    let r = minor % 100 in
    rw (rem64_pos minor 100, div64_pos minor 100 (omega (arith, h)) (omega arith))
      (elim (Bool-cases (eqb_ℤ (pos r) (pos 0))) [
        | inl e ↦ rw e (
            parse_major_parts q [] [] refl (omega (arith, h)) refl (omega arith)
            ∙ ap (λ n. some (pos n)) (omega (arith, no_rest r e)))
        | inr e ↦ rw e (
            parse_major_hundredths q r (omega (arith, h)) (omega arith)
            ∙ ap (λ n. some (pos n)) (omega arith))
      ])
