-- ===== src/Ledger/Bytes.antt =====
-- ledger.go, equalBytes: the comparison of digests.
use Prim.Native.Nat.{bit_or, bit_xor, max, differ, digits, bit_or-bitwise, bit_xor-bitwise}
use wantmytime.Prelude.{
  ℕ, zero, suc, ◌/◌, ◌%◌, ◌≤◌, ◌≡◌, refl, ◌↔◌, Bool, true, false, not, List, [], ◌∷◌, length, ◌==◌,
  if◌then◌else◌, arith,
}

-- `diff` over the positions of `a`; the lengths are equal where it is called.
diff_bytes : ℕ → List ℕ → List ℕ → ℕ
diff_bytes diff [] b = diff
diff_bytes diff (x ∷ a) [] = diff
diff_bytes diff (x ∷ a) (y ∷ b) = diff_bytes (bit_or diff (bit_xor x y)) a b

unfoldable pub equal_bytes : List ℕ → List ℕ → Bool
unfolding diff_bytes
equal_bytes a b = if not (length a == length b) then false else diff_bytes 0 a b == 0

-- Digit by digit: an or is 0 only of two zeros, and an exclusive or only of equal numbers.
or_digits_zero : (n a b : ℕ) → a ≤ n → digits (λ b. b) max n a b ≡ 0 → (a ≡ 0) × (b ≡ 0)
or_digits_zero zero a b h e = (omega arith, e)
or_digits_zero (suc n) zero b h e = (refl, e)
or_digits_zero (suc n) (suc a) b h e =
    let below = or_digits_zero n (suc a / 2) (b / 2) (omega arith) (omega arith) in omega arith

differ-zero : (x y : ℕ) → differ x y ≡ 0 → x ≡ y
differ-zero zero y e = omega arith
differ-zero (suc x) zero e = omega arith
differ-zero (suc x) (suc y) e = omega (arith, differ-zero x y e)

differ_self : (x : ℕ) → differ x x ≡ 0
differ_self zero = refl
differ_self (suc x) = differ_self x

xor_digits_zero : (n a b : ℕ) → a ≤ n → digits (λ b. b) differ n a b ≡ 0 → a ≡ b
xor_digits_zero zero a b h e = omega arith
xor_digits_zero (suc n) zero b h e = omega arith
xor_digits_zero (suc n) (suc a) b h e =
    let low : suc a % 2 ≡ b % 2 = differ-zero (suc a % 2) (b % 2) (omega arith) in
    let high : suc a / 2 ≡ b / 2 =
      xor_digits_zero n (suc a / 2) (b / 2) (omega arith) (omega arith) in
    omega arith

xor_digits_self : (n a : ℕ) → a ≤ n → digits (λ b. b) differ n a a ≡ 0
xor_digits_self zero a h = omega arith
xor_digits_self (suc n) zero h = refl
xor_digits_self (suc n) (suc a) h =
    omega (arith, xor_digits_self n (suc a / 2) (omega arith), differ_self (suc a % 2))

bit_or-zero : (a b : ℕ) → bit_or a b ≡ 0 → (a ≡ 0) × (b ≡ 0)
bit_or-zero a b e = or_digits_zero a a b (omega arith) (rw bit_or-bitwise at e)

bit_xor-zero : (a b : ℕ) → bit_xor a b ≡ 0 → a ≡ b
bit_xor-zero a b e = xor_digits_zero a a b (omega arith) (rw bit_xor-bitwise at e)

bit_xor_self : (a : ℕ) → bit_xor a a ≡ 0
bit_xor_self a = rw bit_xor-bitwise (xor_digits_self a a (omega arith))

diff_bytes-zero :
    (d : ℕ) (a b : List ℕ) → length a ≡ length b → diff_bytes d a b ≡ 0 → (d ≡ 0) × (a ≡ b)
unfolding diff_bytes
diff_bytes-zero d [] [] h e = (e, refl)
diff_bytes-zero d [] (y ∷ b) h e = absurd (omega arith)
diff_bytes-zero d (x ∷ a) [] h e = absurd (omega arith)
diff_bytes-zero d (x ∷ a) (y ∷ b) h e =
    let rest = diff_bytes-zero (bit_or d (bit_xor x y)) a b (omega arith) e in
    let here = bit_or-zero d (bit_xor x y) rest.0 in (here.0, cc (bit_xor-zero x y here.1, rest.1))

diff_bytes_self : (a : List ℕ) → diff_bytes 0 a a ≡ 0
unfolding diff_bytes
diff_bytes_self [] = refl
diff_bytes_self (x ∷ a) = rw (bit_xor_self x) (diff_bytes_self a)

-- The comparison, which looks at every byte of two sequences of the same length, answers true exactly
-- when the two sequences are equal.
pub equal_bytes_iff : (a b : List ℕ) → (equal_bytes a b ≡ true) ↔ (a ≡ b)
unfolding equal_bytes
equal_bytes_iff a b =
    (λ h. ground (arith, diff_bytes-zero 0 a b), λ e. ground (arith, diff_bytes_self a))
