-- ===== src/Base/Xor.antt =====
-- The exclusive or of two words is a word.
use Prim.Native.Nat.{
  ℕ, zero, suc, ◌*◌, ◌/◌, ◌%◌, ◌≤◌, ◌<◌, bit_xor, digits, differ, bit_xor-bitwise,
}
use native.Mathlib.Omega.{arith}

abbrev xor_digits : ℕ → ℕ → ℕ → ℕ
xor_digits n a b = digits (λ b. b) differ n a b

abbrev pub width : ℕ → ℕ
width zero = 1
width (suc k) = 2 * width k

differ_bit : (a b : ℕ) → differ (a % 2) (b % 2) ≤ 1
differ_bit a b = bits (a % 2) (b % 2) (omega arith) (omega arith)
  where
    bits : (x y : ℕ) → x ≤ 1 → y ≤ 1 → differ x y ≤ 1
    bits zero y h k = k
    bits (suc zero) zero h k = h
    bits (suc zero) (suc zero) h k = omega arith
    bits (suc zero) (suc (suc y)) h k = absurd (omega arith)
    bits (suc (suc x)) y h k = absurd (omega arith)

digits-lt : (k n a b : ℕ) → a < width k → b < width k → xor_digits n a b < width k
digits-lt k zero a b h l = l
digits-lt k (suc n) zero b h l = l
digits-lt zero (suc n) (suc a) b h l = absurd (omega arith)
digits-lt (suc k) (suc n) (suc a) b h l =
    omega
      (arith, digits-lt k n (suc a / 2) (b / 2) (omega arith) (omega arith), differ_bit (suc a) b)

-- The exclusive or of numbers of `k` bits has `k` bits.
pub bit_xor-lt : (k a b : ℕ) → a < width k → b < width k → bit_xor a b < width k
bit_xor-lt k a b h l = omega (arith, bit_xor-bitwise a b, digits-lt k a a b h l)
