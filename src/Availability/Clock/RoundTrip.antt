-- ===== src/Availability/Clock/RoundTrip.antt =====
-- A minute of the day, written and read back (availability.go).
use Prim.Native.Char.{char}
use Prim.Native.String.{[], ◌∷◌, len}
use Prim.Native.String.len
use wantmytime.Prelude.{
  ℕ, ◌+◌, ◌*◌, ◌/◌, ◌%◌, ◌<◌, ◌≡◌, lt→ltb, ap, refl, String, some, Bool, true, false, arith,
}
use wantmytime.Prelude.Chars.{trim_space, digit, digit_of-digit, digit_not_space, len-digit}
use wantmytime.Availability.Clock.{
  getnum, parse_15_04, parse_trimmed, parse_clock_minutes, format_clock_minutes, skip_colon,
}

abbrev pub clock_text : (a b c d : ℕ) → String
clock_text a b c d = digit a ∷ digit b ∷ char 58 tt ∷ digit c ∷ digit d ∷ []

trim_space-clock_text : (a b c d : ℕ) → trim_space (clock_text a b c d) ≡ clock_text a b c d
unfolding trim_space
trim_space-clock_text a b c d = simp digit_not_space

len-clock_text : (a b c d : ℕ) → len (clock_text a b c d) ≡ 5
len-clock_text a b c d =
    rw (len-digit a, len-digit b, len.cons (char 58 tt), len-digit c, len-digit d) refl

pub getnum-digits :
    (fixed : Bool) (a b : ℕ) (s : String)
    → a < 10
    → b < 10
    → getnum fixed (digit a ∷ digit b ∷ s) ≡ some (a * 10 + b, s)
unfolding getnum
getnum-digits fixed a b s ha hb = rw (digit_of-digit a ha, digit_of-digit b hb) refl

pub parse_15_04-clock_text :
    (a b c d : ℕ)
    → a < 10
    → b < 10
    → c < 6
    → d < 10
    → a * 10 + b < 24
    → parse_15_04 (clock_text a b c d) ≡ some (a * 10 + b, c * 10 + d)
unfolding parse_15_04 skip_colon
parse_15_04-clock_text a b c d ha hb hc hd h =
    rw
      (
        getnum-digits false a b (char 58 tt ∷ digit c ∷ digit d ∷ []) ha hb,
        lt→ltb (a * 10 + b) 24 h,
        getnum-digits true c d [] (omega arith) hd,
        lt→ltb (c * 10 + d) 60 (omega arith),
      )
      refl

-- Every minute of a day is read back from its text.
pub parse_clock_minutes-format_clock_minutes :
    (m : ℕ) → m < 1440 → parse_clock_minutes (format_clock_minutes m) ≡ some m
unfolding parse_clock_minutes format_clock_minutes parse_trimmed
parse_clock_minutes-format_clock_minutes m h =
    let a = m / 60 / 10 in
    let b = m / 60 % 10 in
    let c = m % 60 / 10 in
    let d = m % 60 % 10 in
    rw
      (
        trim_space-clock_text a b c d,
        len-clock_text a b c d,
        parse_15_04-clock_text a b c d (omega arith) (omega arith) (omega arith) (omega arith)
            (omega arith),
      )
      (ap some (omega arith))
