-- ===== src/Prelude/Chars.antt =====
-- The part of package strings and of the formatting verbs that the code calls on short texts.
use Prim.Native.Nat.{ℕ, ◌+◌, ◌-◌, ◌/◌, ◌%◌, zero, suc, ◌<◌}
use Prim.Native.Char.{Char, char, code, len_utf8}
use Prim.Native.String.len
use Prim.Native.String.{String, [], ◌∷◌, len}
use mathlib.Core.Path.{◌≡◌, refl}
use mathlib.Core.Bool.{Bool, true, false, ◌||◌, ◌&&◌}
use mathlib.Core.Option.{Option, none, some}
use native.Mathlib.Omega.{arith}
use wantmytime.Prelude.Int64.{ℤ, pos, negsuc}
use wantmytime.Prelude.Tests.{ltb, leb, ◌==◌, if◌then◌else◌}

-- unicode.IsSpace
abbrev pub is_space : Char → Bool
is_space c =
    let n = code c in
    (leb 9 n && leb n 13)
    || n == 32
    || n == 133
    || n == 160
    || n == 5760
    || (leb 8192 n && leb n 8202)
    || n == 8232
    || n == 8233
    || n == 8239
    || n == 8287
    || n == 12288

abbrev pub trim_left : String → String
trim_left [] = []
trim_left (c ∷ s) = let rest = trim_left s in if is_space c then rest else c ∷ s

-- A text with one more character in front, which goes if it is a space before nothing.
abbrev pub keep_left_of : Char → String → String
keep_left_of c [] = if is_space c then [] else c ∷ []
keep_left_of c (d ∷ s) = c ∷ d ∷ s

abbrev pub trim_right : String → String
trim_right [] = []
trim_right (c ∷ s) = keep_left_of c (trim_right s)

-- strings.TrimSpace
unfoldable pub trim_space : String → String
trim_space s = trim_left (trim_right s)

-- The value of a decimal digit.
abbrev pub is_digit : Char → Bool
is_digit c = leb 48 (code c) && leb (code c) 57

abbrev pub digit_of : Char → Option ℕ
digit_of c = if is_digit c then some (code c - 48) else none

abbrev pub digit : ℕ → Char
digit zero = char 48 tt
digit (suc zero) = char 49 tt
digit (suc (suc zero)) = char 50 tt
digit (suc (suc (suc zero))) = char 51 tt
digit (suc (suc (suc (suc zero)))) = char 52 tt
digit (suc (suc (suc (suc (suc zero))))) = char 53 tt
digit (suc (suc (suc (suc (suc (suc zero)))))) = char 54 tt
digit (suc (suc (suc (suc (suc (suc (suc zero))))))) = char 55 tt
digit (suc (suc (suc (suc (suc (suc (suc (suc zero)))))))) = char 56 tt
digit (suc (suc (suc (suc (suc (suc (suc (suc (suc n))))))))) = char 57 tt

pub digit_of-digit : (n : ℕ) → n < 10 → digit_of (digit n) ≡ some n
digit_of-digit zero h = refl
digit_of-digit (suc zero) h = refl
digit_of-digit (suc (suc zero)) h = refl
digit_of-digit (suc (suc (suc zero))) h = refl
digit_of-digit (suc (suc (suc (suc zero)))) h = refl
digit_of-digit (suc (suc (suc (suc (suc zero))))) h = refl
digit_of-digit (suc (suc (suc (suc (suc (suc zero)))))) h = refl
digit_of-digit (suc (suc (suc (suc (suc (suc (suc zero))))))) h = refl
digit_of-digit (suc (suc (suc (suc (suc (suc (suc (suc zero)))))))) h = refl
digit_of-digit (suc (suc (suc (suc (suc (suc (suc (suc (suc zero))))))))) h = refl
digit_of-digit (suc (suc (suc (suc (suc (suc (suc (suc (suc (suc n)))))))))) h =
    absurd (omega (arith, h))

pub digit_not_space : (n : ℕ) → is_space (digit n) ≡ false
digit_not_space zero = refl
digit_not_space (suc zero) = refl
digit_not_space (suc (suc zero)) = refl
digit_not_space (suc (suc (suc zero))) = refl
digit_not_space (suc (suc (suc (suc zero)))) = refl
digit_not_space (suc (suc (suc (suc (suc zero))))) = refl
digit_not_space (suc (suc (suc (suc (suc (suc zero)))))) = refl
digit_not_space (suc (suc (suc (suc (suc (suc (suc zero))))))) = refl
digit_not_space (suc (suc (suc (suc (suc (suc (suc (suc zero)))))))) = refl
digit_not_space (suc (suc (suc (suc (suc (suc (suc (suc (suc n))))))))) = refl

pub code-digit : (n : ℕ) → n < 10 → code (digit n) ≡ 48 + n
code-digit zero h = refl
code-digit (suc zero) h = refl
code-digit (suc (suc zero)) h = refl
code-digit (suc (suc (suc zero))) h = refl
code-digit (suc (suc (suc (suc zero)))) h = refl
code-digit (suc (suc (suc (suc (suc zero))))) h = refl
code-digit (suc (suc (suc (suc (suc (suc zero)))))) h = refl
code-digit (suc (suc (suc (suc (suc (suc (suc zero))))))) h = refl
code-digit (suc (suc (suc (suc (suc (suc (suc (suc zero)))))))) h = refl
code-digit (suc (suc (suc (suc (suc (suc (suc (suc (suc zero))))))))) h = refl
code-digit (suc (suc (suc (suc (suc (suc (suc (suc (suc (suc n)))))))))) h =
    absurd (omega (arith, h))

pub is_digit-digit : (n : ℕ) → is_digit (digit n) ≡ true
is_digit-digit zero = refl
is_digit-digit (suc zero) = refl
is_digit-digit (suc (suc zero)) = refl
is_digit-digit (suc (suc (suc zero))) = refl
is_digit-digit (suc (suc (suc (suc zero)))) = refl
is_digit-digit (suc (suc (suc (suc (suc zero))))) = refl
is_digit-digit (suc (suc (suc (suc (suc (suc zero)))))) = refl
is_digit-digit (suc (suc (suc (suc (suc (suc (suc zero))))))) = refl
is_digit-digit (suc (suc (suc (suc (suc (suc (suc (suc zero)))))))) = refl
is_digit-digit (suc (suc (suc (suc (suc (suc (suc (suc (suc n))))))))) = refl

len_utf8-digit : (n : ℕ) → len_utf8 (digit n) ≡ 1
len_utf8-digit zero = refl
len_utf8-digit (suc zero) = refl
len_utf8-digit (suc (suc zero)) = refl
len_utf8-digit (suc (suc (suc zero))) = refl
len_utf8-digit (suc (suc (suc (suc zero)))) = refl
len_utf8-digit (suc (suc (suc (suc (suc zero))))) = refl
len_utf8-digit (suc (suc (suc (suc (suc (suc zero)))))) = refl
len_utf8-digit (suc (suc (suc (suc (suc (suc (suc zero))))))) = refl
len_utf8-digit (suc (suc (suc (suc (suc (suc (suc (suc zero)))))))) = refl
len_utf8-digit (suc (suc (suc (suc (suc (suc (suc (suc (suc n))))))))) = refl

pub len-digit : (n : ℕ) (s : String) → len (digit n ∷ s) ≡ suc (len s)
len-digit n s = rw (len.cons, len_utf8-digit n) (omega arith)

-- The order of texts by their characters.
unfoldable pub leb_text : String → String → Bool
leb_text [] s = true
leb_text (c ∷ s) [] = false
leb_text (c ∷ s) (d ∷ t) =
    let rest = leb_text s t in if code c == code d then rest else leb (code c) (code d)

-- The decimal digits of a number before a text; an int64 has 19 at most.
unfoldable pub put_digits : ℕ → ℕ → String → String
put_digits zero n s = s
put_digits (suc fuel) n s =
    let longer = put_digits fuel (n / 10) (digit (n % 10) ∷ s) in
    if ltb n 10 then digit n ∷ s else longer

-- fmt's %d of an int64.
unfoldable pub decimal : ℤ → String
decimal (pos n) = put_digits 20 n []
decimal (negsuc n) = char 45 tt ∷ put_digits 20 (suc n) []
