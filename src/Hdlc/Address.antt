-- ===== src/Hdlc/Address.antt =====
-- hdlc/hdlc.c: the addresses of a frame, of one, two or four bytes.
use cosemlib.Base.{
  ℕ, zero, suc, ◌+◌, ◌*◌, ◌/◌, ◌%◌, ◌<◌, ◌≡◌, ◌↔◌, refl, List, [], ◌∷◌, ◌++◌, Option, none, some,
  if◌then◌else◌, ltb, ◌==◌, arith, ret, M, pure, ◌>>=◌,
}
use cosemlib.Base.Words.{u16_mod, low8, shr}
use cosemlib.Hdlc.{load}

-- The loop of `hdlc_decode_addr_size`; the first number is the rounds left.
unfoldable pub addr_loop : {S : Type 0} → ℕ → List ℕ → ℕ → ℕ → M S ℕ
addr_loop zero buf i n = pure n
addr_loop (suc k) buf i n = do
  b ← load buf i
  if b % 2 == 1 then pure (n + 1) else addr_loop k buf (i + 1) (n + 1)

-- `hdlc_decode_addr_size` at index `i` of the frame; an address has four bytes at most.
unfoldable pub decode_addr_size : {S : Type 0} → List ℕ → ℕ → ℕ → M S ℕ
unfolding addr_loop
decode_addr_size buf i size = addr_loop (if ltb size 4 then size else 4) buf i 0

unfoldable pub getuint16_addr : ℕ → ℕ → ℕ
getuint16_addr a b = (a / 2 * 256 % u16_mod + b / 2) % u16_mod

-- What `hdlc_get_addr` stores: the upper part, and the lower one where it is stored at all. `none` is
-- `HDLC_ERR_ADDR`.
abbrev pub Parts : Type 0
Parts = ℕ × Option ℕ

unfoldable pub get_addr : {S : Type 0} → List ℕ → ℕ → ℕ → M S (Option Parts)
unfolding getuint16_addr
get_addr buf i addr_size =
    if addr_size == 1
    then (do a ← load buf i; pure (some (a / 2, none)))
    else if addr_size == 2
    then (do a ← load buf i; b ← load buf (i + 1); pure (some (a / 2, some (b / 2))))
    else if addr_size == 4
    then (do
      a ← load buf i
      b ← load buf (i + 1)
      c ← load buf (i + 2)
      d ← load buf (i + 3)
      pure (some (getuint16_addr a b, some (getuint16_addr c d))))
    else pure none

-- `x & 0x7E`
abbrev pub mask_7e : ℕ → ℕ
mask_7e x = x / 2 % 64 * 2

-- The bytes that `hdlc_set_addr` stores; `none` is `HDLC_ERR_ADDR`, where it stores none.
unfoldable pub set_addr : ℕ → ℕ → ℕ → Option (List ℕ)
set_addr addr_size upper lower =
    if addr_size == 1
    then some ((low8 (upper * 2) + 1) ∷ [])
    else if addr_size == 2
    then some (mask_7e (low8 (upper * 2)) ∷ (low8 (lower * 2) + 1) ∷ [])
    else if addr_size == 4
    then some (
        mask_7e (low8 (shr upper 7))
        ∷ mask_7e (low8 (upper * 2))
        ∷ mask_7e (low8 (shr lower 7))
        ∷ (low8 (lower * 2) + 1)
        ∷ [])
    else none

-- A one-byte address comes back from `hdlc_set_addr` and `hdlc_get_addr` exactly when it is below 128.
pub get_addr-set_addr_one :
    {S : Type 0} (upper : ℕ) (rest : List ℕ) (s : S)
    → (bs : List ℕ) × (set_addr 1 upper 0 ≡ some bs)
      × ((get_addr (bs ++ rest) 0 1 s ≡ ret (some (upper, none)) s) ↔ (upper < 128))
unfolding get_addr set_addr
get_addr-set_addr_one upper rest s =
    ((low8 (upper * 2) + 1) ∷ [], refl, ((λ e. ground arith), (λ h. ground arith)))

-- A two-byte address comes back exactly when its upper part is below 64 and its lower part below 128.
pub get_addr-set_addr_two :
    {S : Type 0} (upper lower : ℕ) (rest : List ℕ) (s : S)
    → (bs : List ℕ) × (set_addr 2 upper lower ≡ some bs)
      × ((get_addr (bs ++ rest) 0 2 s ≡ ret (some (upper, some lower)) s)
          ↔ ((upper < 64) × (lower < 128)))
unfolding get_addr set_addr
get_addr-set_addr_two upper lower rest s = (
  mask_7e (low8 (upper * 2)) ∷ (low8 (lower * 2) + 1) ∷ [],
  refl,
  ((λ e. ground arith), (λ h. ground arith)),
)

-- A four-byte address comes back exactly when both parts are below 16384 and bits 6 and 7 of the upper
-- one and bit 7 of the lower one are clear.
pub get_addr-set_addr_four :
    {S : Type 0} (upper lower : ℕ) (rest : List ℕ) (s : S)
    → (bs : List ℕ) × (set_addr 4 upper lower ≡ some bs)
      × ((get_addr (bs ++ rest) 0 4 s ≡ ret (some (upper, some lower)) s)
          ↔ ((upper < 16384) × (upper % 256 < 64) × (lower < 16384) × (lower % 256 < 128)))
unfolding get_addr set_addr
get_addr-set_addr_four upper lower rest s = (
  mask_7e (low8 (shr upper 7))
      ∷ mask_7e (low8 (upper * 2))
      ∷ mask_7e (low8 (shr lower 7))
      ∷ (low8 (lower * 2) + 1)
      ∷ [],
  refl,
  ((λ e. ground arith), (λ h. ground arith)),
)

-- An address comes back from `hdlc_set_addr` and `hdlc_get_addr`, whatever bytes follow it: of one byte
-- exactly when it is below 128; of two bytes exactly when its upper part is below 64 and its lower part
-- below 128; of four bytes exactly when both parts are below 16384 and bits 6 and 7 of the upper one and
-- bit 7 of the lower one are clear.
pub get_addr-set_addr :
    {S : Type 0} (upper lower : ℕ) (rest : List ℕ) (s : S)
    → ((bs : List ℕ) × (set_addr 1 upper 0 ≡ some bs)
        × ((get_addr (bs ++ rest) 0 1 s ≡ ret (some (upper, none)) s) ↔ (upper < 128)))
      × ((bs : List ℕ) × (set_addr 2 upper lower ≡ some bs)
          × ((get_addr (bs ++ rest) 0 2 s ≡ ret (some (upper, some lower)) s)
              ↔ ((upper < 64) × (lower < 128))))
      × ((bs : List ℕ) × (set_addr 4 upper lower ≡ some bs)
          × ((get_addr (bs ++ rest) 0 4 s ≡ ret (some (upper, some lower)) s)
              ↔ ((upper < 16384) × (upper % 256 < 64) × (lower < 16384) × (lower % 256 < 128))))
get_addr-set_addr upper lower rest s = (
  get_addr-set_addr_one upper rest s,
  get_addr-set_addr_two upper lower rest s,
  get_addr-set_addr_four upper lower rest s,
)
