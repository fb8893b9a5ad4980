-- ===== src/Availability/Clock.antt =====
-- Times of day (availability.go): `HH:MM` and `HH:MM:SS`, as time.Parse reads them with the layouts
-- `15:04` and `15:04:05`.
pub mod RoundTrip
pub mod Bounds
use Prim.Native.Char.{Char, char, code}
use Prim.Native.String.{[], ◌∷◌, len}
use Prim.Native.String.len
use wantmytime.Prelude.{
  ℕ, ◌+◌, ◌*◌, ◌/◌, ◌%◌, ◌<◌, ◌≡◌, ◌==◌, ltb, refl, String, Option, none, some, Bool, true, false,
  if◌then◌else◌, arith, Unit0, ◌&&◌, ◌||◌,
}
use wantmytime.Prelude.Chars.{
  trim_space, digit, digit_of, is_digit, digit_of-digit, digit_not_space, len-digit,
}
use wantmytime.Prelude.Options.{◌>>=◌, ◌>>◌, require}

-- One or two digits, two where `fixed` is set.
abbrev one_digit : Bool → ℕ → String → Option (ℕ × String)
one_digit true d rest = none
one_digit false d rest = some (d, rest)

abbrev two_digits : Bool → ℕ → String → String → Option ℕ → Option (ℕ × String)
two_digits fixed d all rest none = one_digit fixed d all
two_digits fixed d all rest (some e) = some (d * 10 + e, rest)

abbrev second_digit : Bool → ℕ → String → Option (ℕ × String)
second_digit fixed d [] = one_digit fixed d []
second_digit fixed d (c ∷ s) = two_digits fixed d (c ∷ s) s (digit_of c)

unfoldable pub getnum : Bool → String → Option (ℕ × String)
getnum fixed [] = none
getnum fixed (c ∷ s) = digit_of c >>= λ d. second_digit fixed d s

-- The separator of the layout.
unfoldable pub skip_colon : String → Option String
skip_colon [] = none
skip_colon (c ∷ s) = require (code c == 58) >> some s

abbrev pub at_end : String → Option Unit0
at_end [] = some tt
at_end (c ∷ s) = none

-- time.Parse("15:04", s): the hour and the minute.
unfoldable pub parse_15_04 : String → Option (ℕ × ℕ)
parse_15_04 s = do
  (h, s1) ← getnum false s
  require (ltb h 24)
  s2 ← skip_colon s1
  (m, s3) ← getnum true s2
  require (ltb m 60)
  at_end s3
  some (h, m)

-- A fraction of a second, which time.Parse reads after the seconds and the code ignores.
abbrev skip_digits : String → String
skip_digits [] = []
skip_digits (c ∷ s) = let rest = skip_digits s in if is_digit c then rest else c ∷ s

abbrev pub skip_fraction : String → String
skip_fraction [] = []
skip_fraction (c ∷ []) = c ∷ []
skip_fraction (c ∷ d ∷ s) =
    if (code c == 44 || code c == 46) && is_digit d then skip_digits s else c ∷ d ∷ s

-- time.Parse("15:04:05", s)
unfoldable pub parse_15_04_05 : String → Option (ℕ × ℕ × ℕ)
parse_15_04_05 s = do
  (h, s1) ← getnum false s
  require (ltb h 24)
  s2 ← skip_colon s1
  (m, s3) ← getnum true s2
  require (ltb m 60)
  s4 ← skip_colon s3
  (sec, s5) ← getnum true s4
  require (ltb sec 60)
  at_end (skip_fraction s5)
  some (h, m, sec)

unfoldable pub parse_trimmed : String → Option ℕ
parse_trimmed value =
    if len value == 8
    then (do (h, m, sec) ← parse_15_04_05 value; require (sec == 0); some (h * 60 + m))
    else do (h, m) ← parse_15_04 value; some (h * 60 + m)

unfoldable pub parse_clock_minutes : String → Option ℕ
parse_clock_minutes value = parse_trimmed (trim_space value)

unfoldable pub format_clock_minutes : ℕ → String
format_clock_minutes minutes =
    digit (minutes / 60 / 10)
    ∷ digit (minutes / 60 % 10)
    ∷ char 58 tt
    ∷ digit (minutes % 60 / 10)
    ∷ digit (minutes % 60 % 10)
    ∷ []
