-- ===== src/Base/Bits.antt =====
-- Binary digits of the native numbers, and what the bitwise operations do to each of them.
use Prim.Native.Nat.{
  ℕ, zero, suc, ◌+◌, ◌*◌, ◌/◌, ◌%◌, ◌≤◌, ◌<◌, min, max, bit_and, bit_or, bit_xor, digits, differ,
  bit_and-bitwise, bit_or-bitwise, bit_xor-bitwise,
}
use mathlib.Core.Path.{◌≡◌, refl, ap, ◌∙◌}
use mathlib.Core.Bool.{Bool, false, not, xor, ◌&&◌, ◌||◌}
use native.Mathlib.Omega.{arith}
use sophons.Base.Tests.{◌==◌}

-- The digit of 2 ^ i.
unfoldable pub test : ℕ → ℕ → Bool
test zero n = n % 2 == 1
test (suc i) n = test i (n / 2)

test-zero : (i : ℕ) → test i 0 ≡ false
unfolding test
test-zero zero = refl
test-zero (suc i) = test-zero i

test_low : (d r : ℕ) → r < 2 → test 0 (d * 2 + r) ≡ (r == 1)
unfolding test
test_low d r h = ap (λ (k : ℕ). k == 1) (omega arith)

test_high : (i d r : ℕ) → r < 2 → test (suc i) (d * 2 + r) ≡ test i d
unfolding test
test_high i d r h = ap (test i) (omega arith)

module _ (z : ℕ → ℕ) (f : ℕ → ℕ → ℕ) (op : Bool → Bool → Bool)
    (z_lem : (i b : ℕ) → test i (z b) ≡ op false (test i b))
    (f_bound : (x y : ℕ) → x < 2 → y < 2 → f x y < 2)
    (f_lem : (x y : ℕ) → x < 2 → y < 2 → (f x y == 1) ≡ op (x == 1) (y == 1)) where
  test-digits : (n a b i : ℕ) → a ≤ n → test i (digits z f n a b) ≡ op (test i a) (test i b)
  unfolding test
  test-digits zero zero b i h = rw (test-zero i) (z_lem i b)
  test-digits zero (suc a) b i h = absurd (omega arith)
  test-digits (suc n) zero b i h = rw (test-zero i) (z_lem i b)
  test-digits (suc n) (suc a) b zero h =
      test_low (digits z f n (suc a / 2) (b / 2)) _ (f_bound _ _ (omega arith) (omega arith))
      ∙ f_lem (suc a % 2) (b % 2) (omega arith) (omega arith)
  test-digits (suc n) (suc a) b (suc i) h =
      test_high i (digits z f n (suc a / 2) (b / 2)) _ (f_bound _ _ (omega arith) (omega arith))
      ∙ test-digits n (suc a / 2) (b / 2) i (omega arith)

differ_bound : (x y : ℕ) → x < 2 → y < 2 → differ x y < 2
differ_bound zero y h k = k
differ_bound (suc zero) zero h k = omega arith
differ_bound (suc zero) (suc y) h k = omega arith
differ_bound (suc (suc x)) y h k = absurd (omega arith)

differ_lem : (x y : ℕ) → x < 2 → y < 2 → (differ x y == 1) ≡ xor (x == 1) (y == 1)
unfolding xor
differ_lem zero zero h k = refl
differ_lem zero (suc zero) h k = refl
differ_lem zero (suc (suc y)) h k = absurd (omega arith)
differ_lem (suc zero) zero h k = refl
differ_lem (suc zero) (suc zero) h k = refl
differ_lem (suc zero) (suc (suc y)) h k = absurd (omega arith)
differ_lem (suc (suc x)) y h k = absurd (omega arith)

pub test-bit_and : (i a b : ℕ) → test i (bit_and a b) ≡ (test i a && test i b)
test-bit_and i a b =
    ap (test i) (λ j. bit_and-bitwise a b j)
    ∙ test-digits (λ b. zero) min ◌&&◌ (λ i b. test-zero i) (λ x y h k. omega arith)
        (λ x y h k. ground arith) a a b i (omega arith)

pub test-bit_or : (i a b : ℕ) → test i (bit_or a b) ≡ (test i a || test i b)
test-bit_or i a b =
    ap (test i) (λ j. bit_or-bitwise a b j)
    ∙ test-digits (λ b. b) max ◌||◌ (λ i b. refl) (λ x y h k. omega arith) (λ x y h k. ground arith)
        a a b i (omega arith)

test-bit_xor : (i a b : ℕ) → test i (bit_xor a b) ≡ xor (test i a) (test i b)
unfolding xor
test-bit_xor i a b =
    ap (test i) (λ j. bit_xor-bitwise a b j)
    ∙ test-digits (λ b. b) differ xor (λ i b. ground arith) differ_bound differ_lem a a b i
        (omega arith)

-- a &^ b
abbrev pub and_not : ℕ → ℕ → ℕ
and_not a b = bit_xor a (bit_and a b)

pub test-and_not : (i a b : ℕ) → test i (and_not a b) ≡ (test i a && not (test i b))
unfolding xor
test-and_not i a b = rw (test-bit_xor, test-bit_and) (ground arith)
