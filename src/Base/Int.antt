-- ===== src/Base/Int.antt =====
-- Integers over the native numbers, for the C type `int`.
use Prim.Native.Nat.{ℕ, suc, ◌+◌, ◌-◌, ◌/◌, ◌%◌, ◌^◌}
use mathlib.Core.Path.{◌≡◌}
use mathlib.Core.Bool.{◌&&◌}
use native.Mathlib.Omega.{arith}
use cosemlib.Base.Tests.{if◌then◌else◌, ltb, leb}
use cosemlib.Base.Run.{M, pure, crash}
use cosemlib.Base.Words.{u32_mod}

-- `negsuc n` is -(n + 1).
pub data ℤ : Type 0 where
  pos : ℕ → ℤ
  negsuc : ℕ → ℤ

abbrev pub pos_part : ℤ → ℕ
pos_part (pos n) = n
pos_part (negsuc n) = 0

abbrev pub neg_part : ℤ → ℕ
neg_part (pos n) = 0
neg_part (negsuc n) = suc n

-- a - b, as an integer.
abbrev pub sub_ℕ : ℕ → ℕ → ℤ
sub_ℕ a b = if leb b a then pos (a - b) else negsuc (b - a - 1)

infixl 65 ◌+ℤ◌
unfoldable pub ◌+ℤ◌ : ℤ → ℤ → ℤ
a +ℤ b = sub_ℕ (pos_part a + pos_part b) (neg_part a + neg_part b)

pub +ℤ_parts :
    (a b : ℤ)
    → pos_part (a +ℤ b) + neg_part a + neg_part b ≡ neg_part (a +ℤ b) + pos_part a + pos_part b
unfolding ◌+ℤ◌
+ℤ_parts a b = ground arith

-- The parts of a sum are the truncated differences.
pub +ℤ_pos : (a b : ℤ) → pos_part (a +ℤ b) ≡ pos_part a + pos_part b - (neg_part a + neg_part b)
unfolding ◌+ℤ◌
+ℤ_pos a b = ground arith

pub +ℤ_neg : (a b : ℤ) → neg_part (a +ℤ b) ≡ neg_part a + neg_part b - (pos_part a + pos_part b)
unfolding ◌+ℤ◌
+ℤ_neg a b = ground arith

-- A sum of two values of type `int`; one that does not fit has no defined value.
unfoldable pub add_int : {S : Type 0} → ℤ → ℤ → M S ℤ
add_int a b =
    let c = a +ℤ b in
    if ltb (pos_part c) (2 ^ 31) && leb (neg_part c) (2 ^ 31) then pure c else crash

-- The conversion to `uint32_t`.
unfoldable pub to_u32 : ℤ → ℕ
to_u32 (pos n) = n % u32_mod
to_u32 (negsuc n) = u32_mod - 1 - n % u32_mod

-- `div` rounds to zero: the quotient and the remainder have the sign of the first number.
unfoldable pub div_int : ℤ → ℕ → ℤ × ℤ
div_int (pos n) k = (pos (n / k), pos (n % k))
div_int (negsuc n) k = (sub_ℕ 0 (suc n / k), sub_ℕ 0 (suc n % k))
