-- ===== src/Base/Bits.antt =====
-- Statements over all small numbers, such as all bytes, by evaluation.
use Prim.Native.Nat.{ℕ, zero, suc, ◌<◌}
use mathlib.Core.Path.{◌≡◌}
use mathlib.Core.Bool.{Bool, true, ◌&&◌}
use native.Mathlib.Omega.{arith}

-- The test at each number below the bound, the smallest first.
unfoldable pub holds_below : ℕ → (ℕ → Bool) → Bool
holds_below zero test = true
holds_below (suc k) test = holds_below k test && test k

pub holds_below_at : (test : ℕ → Bool) (k i : ℕ) → i < k → holds_below k test ≡ true → test i ≡ true
unfolding holds_below
holds_below_at test zero i small table = absurd (omega arith)
holds_below_at test (suc k) i small table = ground (arith, holds_below_at test k i)
