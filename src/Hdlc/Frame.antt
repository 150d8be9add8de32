-- ===== src/Hdlc/Frame.antt =====
-- The bytes of a frame, as one list.
use cosemlib.Base.{
  ℕ, ◌+◌, ◌*◌, ◌%◌, ◌<◌, ◌≡◌, ◌⊎◌, refl, List, [], ◌∷◌, ◌++◌, Option, none, some, true, arith,
  length, get_or, bit_xor, ltb, ltb→lt,
}
use cosemlib.Base.Bits.{holds_below, holds_below_at}
use cosemlib.Base.Words.{u16_mod, low8, shr}
use cosemlib.Base.Xor.{bit_xor-lt}
use cosemlib.Hdlc.{Hdlc, Sender}
use cosemlib.Hdlc.Address.{set_addr}
use cosemlib.Hdlc.Encode.{low_first}
use cosemlib.Hdlc.Fcs.{fcstab, pppfcs16}

abbrev pub bytes_of : Option (List ℕ) → List ℕ
bytes_of none = []
bytes_of (some bs) = bs

-- The sizes of an address.
abbrev pub IsAddrLen : ℕ → Type 0
IsAddrLen n = (n ≡ 1) ⊎ ((n ≡ 2) ⊎ (n ≡ 4))

abbrev pub server_bytes : Hdlc → List ℕ
server_bytes h = bytes_of (set_addr h.addr_len h.logical_device h.phy_address)

abbrev pub client_bytes : Hdlc → List ℕ
client_bytes h = bytes_of (set_addr 1 h.client_addr 0)

-- The destination, and the source.
abbrev pub in_order : Sender → List ℕ → List ℕ → List ℕ
in_order Sender.server server client = client ++ server
in_order Sender.client server client = server ++ client

abbrev pub addresses_of : Sender → Hdlc → List ℕ
addresses_of s h = in_order s (server_bytes h) (client_bytes h)

-- A check sequence, the low byte first.
abbrev pub crc_value : List ℕ → ℕ
crc_value bs = bit_xor (pppfcs16 0xffff bs) 0xffff

abbrev pub crc : List ℕ → List ℕ
crc bs = low_first (crc_value bs)

-- The frame before the first check sequence: format, length, addresses and control.
abbrev pub head : Hdlc → ℕ → ℕ → List ℕ
head h frame_size control =
    (0xA0 + shr frame_size 8 % 8) ∷ low8 frame_size ∷ (addresses_of h.sender h ++ (control ∷ []))

-- The information field with the check sequence of the header, where there is one.
abbrev pub info_part : List ℕ → List ℕ → List ℕ
info_part header [] = []
info_part header (b ∷ bs) = crc header ++ (b ∷ bs)

-- The length that the frame has without its flags.
abbrev pub frame_size_of : Hdlc → List ℕ → ℕ
frame_size_of h [] = length (addresses_of h.sender h) + 5
frame_size_of h (b ∷ bs) = length (addresses_of h.sender h) + 7 + length (b ∷ bs)

abbrev pub body : Hdlc → ℕ → List ℕ → List ℕ
body h control field =
    let header = head h (frame_size_of h field) control in header ++ info_part header field

abbrev pub frame : Hdlc → ℕ → List ℕ → List ℕ
frame h control field = let b = body h control field in 0x7E ∷ (b ++ (crc b ++ (0x7E ∷ [])))

fcstab_small : holds_below 256 (λ i. ltb (get_or fcstab i 0) 65536) ≡ true
unfolding holds_below fcstab
fcstab_small = refl

fcstab-lt : (i : ℕ) → get_or fcstab (low8 i) 0 < 65536
fcstab-lt i =
    ltb→lt _ _
      (holds_below_at (λ j. ltb (get_or fcstab j 0) 65536) 256 (low8 i) (omega arith) fcstab_small)

pub pppfcs16-lt : (fcs : ℕ) (bs : List ℕ) → fcs < 65536 → pppfcs16 fcs bs < 65536
unfolding pppfcs16
pppfcs16-lt fcs [] h = h
pppfcs16-lt fcs (b ∷ bs) h =
    pppfcs16-lt (bit_xor (shr fcs 8) (get_or fcstab (low8 (bit_xor fcs b)) 0)) bs (
      bit_xor-lt 16 (shr fcs 8) (get_or fcstab (low8 (bit_xor fcs b)) 0) (omega arith)
        (fcstab-lt (bit_xor fcs b)))

pub crc_value-lt : (bs : List ℕ) → crc_value bs < 65536
crc_value-lt bs = bit_xor-lt 16 _ _ (pppfcs16-lt 0xffff bs (omega arith)) (omega arith)

-- The number that the test of a check sequence puts together.
pub crc_bytes :
    (bs : List ℕ)
    → (low8 (shr (crc_value bs) 8) * 256 % u16_mod + low8 (crc_value bs)) % u16_mod ≡ crc_value bs
crc_bytes bs = omega (arith, crc_value-lt bs)
