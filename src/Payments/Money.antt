-- ===== src/Payments/Money.antt =====
-- cmd/api/kora.go, majorAmount and parseMajor: an amount in minor units as the provider's number with
-- two decimals, and back.
pub mod RoundTrip
use Prim.Native.Char.{Char, char, code}
use Prim.Native.String.{[], ◌∷◌, ◌++◌ as text_append}
use wantmytime.Prelude.{
  ℕ, ◌+◌, ◌*◌, ◌-◌, ◌==◌, Bool, true, false, String, Option, none, some, leb, ltb, ◌&&◌, ◌^◌,
  if◌then◌else◌,
}
use wantmytime.Prelude.Int64.{
  ℤ, pos, negsuc, ◌-ℤ◌, leb_ℤ, eqb_ℤ, add64, sub64, mul64, div64, rem64, max_int64,
}
use wantmytime.Prelude.Chars.{decimal, digit_of, is_digit}
use wantmytime.Prelude.Options.{◌>>=◌, ◌>>◌, require}

-- fmt's %02d: the sign counts.
unfoldable pub decimal2 : ℤ → String
decimal2 (pos n) = if ltb n 10 then char 48 tt ∷ decimal (pos n) else decimal (pos n)
decimal2 (negsuc n) = decimal (negsuc n)

unfoldable pub major_amount : ℤ → String
major_amount minor =
    if eqb_ℤ (rem64 minor (pos 100)) (pos 0)
    then decimal (div64 minor (pos 100))
    else text_append (decimal (div64 minor (pos 100)))
        (char 46 tt ∷ decimal2 (rem64 minor (pos 100)))

-- The number that digits write after the digits of another one.
unfoldable pub digits_value : String → ℕ → Option ℕ
digits_value [] n = some n
digits_value (c ∷ s) n = digit_of c >>= λ d. digits_value s (n * 10 + d)

abbrev some_digits : String → Option ℕ
some_digits [] = none
some_digits (c ∷ s) = digits_value (c ∷ s) 0

abbrev in_range : ℤ → Option ℤ
in_range z = if leb_ℤ (negsuc (2 ^ 63 - 1)) z && leb_ℤ z max_int64 then some z else none

-- strconv.ParseInt(s, 10, 64)
unfoldable pub parse_int : String → Option ℤ
parse_int [] = none
parse_int (c ∷ s) =
    if code c == 45
    then (some_digits s >>= λ n. in_range (pos 0 -ℤ pos n))
    else if code c == 43
    then (some_digits s >>= λ n. in_range (pos n))
    else (some_digits (c ∷ s) >>= λ n. in_range (pos n))

-- strings.HasPrefix and strings.TrimPrefix with "-"
abbrev pub cut_minus : String → Bool × String
cut_minus [] = (false, [])
cut_minus (c ∷ s) = if code c == 45 then (true, s) else (false, c ∷ s)

abbrev with_first : Char → String × String → String × String
with_first c (before, after) = (c ∷ before, after)

-- strings.Cut with "."
abbrev pub cut_point : String → String × String
cut_point [] = ([], [])
cut_point (c ∷ s) = let rest = cut_point s in if code c == 46 then ([], s) else with_first c rest

abbrev pub or_zero : String → String
or_zero [] = char 48 tt ∷ []
or_zero (c ∷ s) = c ∷ s

abbrev pub all_digits : String → Bool
all_digits [] = true
all_digits (c ∷ s) = is_digit c && all_digits s

-- The hundredths, from the third digit on rounded half up.
abbrev pub cents_of : String → ℕ
cents_of [] = 0
cents_of (c ∷ []) = (code c - 48) * 10
cents_of (c ∷ d ∷ []) = (code c - 48) * 10 + (code d - 48)
cents_of (c ∷ d ∷ e ∷ s) = (code c - 48) * 10 + (code d - 48) + (if leb 53 (code e) then 1 else 0)

abbrev with_sign : Bool → ℤ → ℤ
with_sign negative v = if negative then sub64 (pos 0) v else v

unfoldable pub parse_major : String → Option ℤ
parse_major text =
    let (negative, amount) = cut_minus text in
    let (whole, frac) = cut_point amount in
    do
      w ← parse_int (or_zero whole)
      require (leb_ℤ w (pos (2 ^ 52)))
      require (all_digits frac)
      some (with_sign negative (add64 (mul64 w (pos 100)) (pos (cents_of frac))))
