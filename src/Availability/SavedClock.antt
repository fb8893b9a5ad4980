-- ===== src/Availability/SavedClock.antt =====
-- The texts of saved hours (availability.go): what is written to the column of a window and to an
-- override is read back as the same minute, by both readers of the code.
use Prim.Native.Char.{char}
use Prim.Native.String.{[], ◌∷◌, len}
use Prim.Native.String.len
use Prim.Native.String.append
use wantmytime.Prelude.{
  ℕ, ◌+◌, ◌*◌, ◌/◌, ◌%◌, ◌<◌, ◌≡◌, lt→ltb, ap, ◌∙◌, refl, String, none, some, true, false, arith,
}
use wantmytime.Prelude.Chars.{trim_space, digit, digit_not_space, len-digit}
use wantmytime.Availability.Clock.{
  parse_15_04, parse_15_04_05, parse_trimmed, parse_clock_minutes, format_clock_minutes, skip_colon,
}
use wantmytime.Availability.Hours.{time_column}
use wantmytime.Availability.Clock.RoundTrip.{clock_text, getnum-digits, parse_15_04-clock_text}

abbrev column_text : (a b c d : ℕ) → String
column_text a b c d =
    digit a ∷ digit b ∷ char 58 tt ∷ digit c ∷ digit d ∷ char 58 tt ∷ char 48 tt ∷ char 48 tt ∷ []

column_of : (a b c d : ℕ) → time_column (clock_text a b c d) ≡ column_text a b c d
column_of a b c d =
    append.cons (digit a) (digit b ∷ char 58 tt ∷ digit c ∷ digit d ∷ []) ":00"
    ∙ ap (λ s. digit a ∷ s) (append.cons (digit b) (char 58 tt ∷ digit c ∷ digit d ∷ []) ":00")
    ∙ ap (λ s. digit a ∷ digit b ∷ s) (append.cons (char 58 tt) (digit c ∷ digit d ∷ []) ":00")
    ∙ ap (λ s. digit a ∷ digit b ∷ char 58 tt ∷ s) (append.cons (digit c) (digit d ∷ []) ":00")
    ∙ ap (λ s. digit a ∷ digit b ∷ char 58 tt ∷ digit c ∷ s) (append.cons (digit d) [] ":00")
    ∙ ap (λ s. digit a ∷ digit b ∷ char 58 tt ∷ digit c ∷ digit d ∷ s) (append.nil ":00")

len-column_text : (a b c d : ℕ) → len (column_text a b c d) ≡ 8
len-column_text a b c d =
    rw (len-digit a, len-digit b, len.cons (char 58 tt), len-digit c, len-digit d) refl

trim_space-column_text : (a b c d : ℕ) → trim_space (column_text a b c d) ≡ column_text a b c d
unfolding trim_space
trim_space-column_text a b c d = simp digit_not_space

module _ (a b c d : ℕ) (ha : a < 10) (hb : b < 10) (hc : c < 6) (hd : d < 10)
    (h : a * 10 + b < 24) where
  parse_15_04_05-column_text :
      parse_15_04_05 (column_text a b c d) ≡ some (a * 10 + b, c * 10 + d, 0)
  unfolding parse_15_04_05 skip_colon
  parse_15_04_05-column_text =
      rw
        (
          getnum-digits false a b
              (char 58 tt ∷ digit c ∷ digit d ∷ char 58 tt ∷ char 48 tt ∷ char 48 tt ∷ []) ha hb,
          lt→ltb (a * 10 + b) 24 h,
          getnum-digits true c d (char 58 tt ∷ char 48 tt ∷ char 48 tt ∷ []) (omega (arith, hc)) hd,
          lt→ltb (c * 10 + d) 60 (omega (arith, hc, hd)),
          getnum-digits true 0 0 [] (omega arith) (omega arith),
        )
        refl

  parse_15_04_05-clock_text : parse_15_04_05 (clock_text a b c d) ≡ none
  unfolding parse_15_04_05 skip_colon
  parse_15_04_05-clock_text =
      rw
        (
          getnum-digits false a b (char 58 tt ∷ digit c ∷ digit d ∷ []) ha hb,
          lt→ltb (a * 10 + b) 24 h,
          getnum-digits true c d [] (omega (arith, hc)) hd,
          lt→ltb (c * 10 + d) 60 (omega (arith, hc, hd)),
        )
        refl

-- The digits of a minute of the day.
module _ (m : ℕ) (m_in_day : m < 1440) where
  abbrev h1 : ℕ
  h1 = m / 60 / 10

  abbrev h0 : ℕ
  h0 = m / 60 % 10

  abbrev m1 : ℕ
  m1 = m % 60 / 10

  abbrev m0 : ℕ
  m0 = m % 60 % 10

  hours : h1 * 10 + h0 ≡ m / 60
  hours = omega arith

  minutes : m1 * 10 + m0 ≡ m % 60
  minutes = omega arith

  -- What the column of a window holds.
  pub parse_clock_minutes-time_column :
      parse_clock_minutes (time_column (format_clock_minutes m)) ≡ some m
  unfolding parse_clock_minutes parse_trimmed format_clock_minutes
  parse_clock_minutes-time_column =
      rw
        (
          column_of h1 h0 m1 m0,
          trim_space-column_text h1 h0 m1 m0,
          len-column_text h1 h0 m1 m0,
          parse_15_04_05-column_text h1 h0 m1 m0 (omega arith) (omega arith) (omega arith)
              (omega arith) (omega (arith, m_in_day)),
        )
        (ap some (omega arith))

  pub parse_15_04_05-time_column :
      parse_15_04_05 (time_column (format_clock_minutes m)) ≡ some (m / 60, m % 60, 0)
  unfolding format_clock_minutes
  parse_15_04_05-time_column =
      rw
        (
          column_of h1 h0 m1 m0,
          parse_15_04_05-column_text h1 h0 m1 m0 (omega (arith, m_in_day)) (omega arith)
              (omega arith) (omega arith) (omega (arith, m_in_day)),
          hours,
          minutes,
        )
        refl

  pub parse_15_04_05-format_clock_minutes : parse_15_04_05 (format_clock_minutes m) ≡ none
  unfolding format_clock_minutes
  parse_15_04_05-format_clock_minutes =
      parse_15_04_05-clock_text h1 h0 m1 m0 (omega (arith, m_in_day)) (omega arith) (omega arith)
        (omega arith) (omega (arith, m_in_day))

  pub parse_15_04-format_clock_minutes :
      parse_15_04 (format_clock_minutes m) ≡ some (m / 60, m % 60)
  unfolding format_clock_minutes
  parse_15_04-format_clock_minutes =
      rw
        (
          parse_15_04-clock_text h1 h0 m1 m0 (omega (arith, m_in_day)) (omega arith) (omega arith)
              (omega arith) (omega (arith, m_in_day)),
          hours,
          minutes,
        )
        refl
