-- ===== src/Base/Words.antt =====
-- share/util/os_util.h: big-endian numbers in bytes.
use Prim.Native.Nat.{ℕ, ◌+◌, ◌*◌, ◌/◌, ◌%◌, ◌^◌, ◌<◌}
use mathlib.Core.Path.{◌≡◌}
use mathlib.Core.List.{List, [], ◌∷◌}
use native.Mathlib.Omega.{arith}

abbrev pub u8_mod : ℕ
u8_mod = 2 ^ 8

abbrev pub u16_mod : ℕ
u16_mod = 2 ^ 16

abbrev pub u32_mod : ℕ
u32_mod = 2 ^ 32

-- A shift to the right, and the mask of the lowest byte.
abbrev pub shr : ℕ → ℕ → ℕ
shr word bits = word / 2 ^ bits

abbrev pub low8 : ℕ → ℕ
low8 x = x % 256

unfoldable pub put_be16 : ℕ → List ℕ
put_be16 v = low8 (shr v 8) ∷ low8 v ∷ []

unfoldable pub put_be32 : ℕ → List ℕ
put_be32 v = low8 (shr v 24) ∷ low8 (shr v 16) ∷ low8 (shr v 8) ∷ low8 v ∷ []

-- The second byte is masked and added in 16 bits.
unfoldable pub get_be16 : ℕ → ℕ → ℕ
get_be16 a b = (a * 256 % u16_mod + low8 b) % u16_mod

-- The four operands of `|` have no bit in common, so the sum is their disjunction.
unfoldable pub get_be32 : ℕ → ℕ → ℕ → ℕ → ℕ
get_be32 a b c d = (a * 2 ^ 24 + b * 2 ^ 16 + c * 2 ^ 8 + d) % u32_mod

pub get_be16-put_be16 : (v : ℕ) → v < u16_mod → get_be16 (low8 (shr v 8)) (low8 v) ≡ v
unfolding get_be16
get_be16-put_be16 v h = omega arith

pub get_be32-put_be32 :
    (v : ℕ)
    → v < u32_mod
    → get_be32 (low8 (shr v 24)) (low8 (shr v 16)) (low8 (shr v 8)) (low8 v) ≡ v
unfolding get_be32
get_be32-put_be32 v h = omega arith
