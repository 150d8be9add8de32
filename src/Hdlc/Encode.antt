-- ===== src/Hdlc/Encode.antt =====
-- hdlc/hdlc.c: the encoders of a frame, over the memory that `buf` points to.
use cosemlib.Base.{
  ℕ, ◌+◌, ◌%◌, ◌-◌, List, [], ◌∷◌, Option, none, some, if◌then◌else◌, leb, ◌==◌, length, slice,
  splice, bit_xor, ret, fault, M, pure, ◌>>=◌, ◌>>◌, not,
}
use cosemlib.Base.Words.{u16_mod, u32_mod, low8, shr}
use cosemlib.Hdlc.{Hdlc, Packet, Sender}
use cosemlib.Hdlc.Address.{set_addr}
use cosemlib.Hdlc.Control.{data_control, rr_control}
use cosemlib.Hdlc.Fcs.{pppfcs16}

-- The bytes that stand in memory, and the stores; both fault outside it.
unfoldable pub store : ℕ → List ℕ → M (List ℕ) (Unit {0})
store i xs buf = if leb (i + length xs) (length buf) then ret tt (splice i xs buf) else fault

unfoldable pub bytes : ℕ → ℕ → M (List ℕ) (List ℕ)
bytes i n buf = if leb (i + n) (length buf) then ret (slice i n buf) buf else fault

-- `hdlc_set_uint16_low_first`
unfoldable pub low_first : ℕ → List ℕ
low_first v = low8 v ∷ low8 (shr v 8) ∷ []

-- What `hdlc_set_addr` stores at index `i`; its result is dropped.
unfoldable pub store_addr : ℕ → Option (List ℕ) → M (List ℕ) (Unit {0})
unfolding store
store_addr i none = pure tt
store_addr i (some bs) = store i bs

-- The destination and the source address, and the index behind them.
unfoldable pub store_by : Sender → Hdlc → ℕ → M (List ℕ) ℕ
unfolding store_addr set_addr
store_by Sender.server h i = do
  store_addr i (set_addr 1 h.client_addr 0)
  store_addr (i + 1) (set_addr h.addr_len h.logical_device h.phy_address)
  pure (i + 1 + h.addr_len)
store_by Sender.client h i = do
  store_addr i (set_addr h.addr_len h.logical_device h.phy_address)
  store_addr (i + h.addr_len) (set_addr 1 h.client_addr 0)
  pure (i + h.addr_len + 1)

unfoldable pub store_addresses : Hdlc → ℕ → M (List ℕ) ℕ
unfolding store_by
store_addresses h i = store_by h.sender h i

-- The flag, the addresses and the control field, and the index behind them.
unfoldable pub open_frame : Hdlc → ℕ → M (List ℕ) ℕ
unfolding store store_addresses
open_frame h frame_type = do
  store 0 (0x7E ∷ [])
  at_control ← store_addresses h 3
  store at_control (frame_type ∷ [])
  pure (at_control + 1)

-- The check sequence of the frame and the flag, and the index behind them.
unfoldable pub close_frame : ℕ → ℕ → M (List ℕ) ℕ
unfolding store bytes low_first
close_frame index frame_size = do
  frame ← bytes 1 ((frame_size + u32_mod - 2) % u32_mod)
  store index (low_first (bit_xor (pppfcs16 0xffff frame) 0xffff))
  let flag = (index + 2) % u16_mod
  store flag (0x7E ∷ [])
  pure ((flag + 1) % u16_mod)

-- `hdlc_encode`, with the information field as a list: no field and one of size 0 are both `[]`. The
-- result is -1, `none`, where the frame is larger than `size`, and its length otherwise. Every index is a
-- `uint16_t`.
unfoldable pub encode : Hdlc → ℕ → ℕ → List ℕ → M (List ℕ) (Option ℕ)
unfolding open_frame close_frame
encode h size frame_type field = do
  control_end ← open_frame h frame_type
  let has_info = not (length field == 0)
  let info_field_start = control_end + 2
  (if has_info then store info_field_start field else pure tt)
  let index = (if has_info then (info_field_start + length field) % u16_mod else control_end)
  let frame_size = (index + 1) % u16_mod
  store 1 ((0xA0 + shr frame_size 8 % 8) ∷ [])
  store 2 (low8 frame_size ∷ [])
  (if has_info
      then (do
        head ← bytes 1 (info_field_start - 3)
        store (info_field_start - 2) (low_first (bit_xor (pppfcs16 0xffff head) 0xffff)))
      else pure tt)
  total ← close_frame index frame_size
  pure (if leb total size then some total else none)

-- `snrm_nego`
abbrev pub snrm_nego : List ℕ
snrm_nego =
    0x81 ∷ 0x80 ∷ 0x12 ∷ 5 ∷ 1 ∷ 0x80 ∷ 6 ∷ 1 ∷ 0x80 ∷ 7 ∷ 4 ∷ 0 ∷ 0 ∷ 0 ∷ 1 ∷ 8 ∷ 4 ∷ 0 ∷ 0 ∷ 0 ∷ 7
    ∷ []

-- The encoders that set the packet type first; each gives the state of the link and the run.
unfoldable pub encode_snrm : Hdlc → ℕ → Hdlc × M (List ℕ) (Option ℕ)
encode_snrm h size = let h' = record h { type = Packet.snrm } in (h', encode h' size 0x93 snrm_nego)

unfoldable pub encode_data : Hdlc → ℕ → List ℕ → Hdlc × M (List ℕ) (Option ℕ)
unfolding data_control
encode_data h size field =
    let h' = record h { type = Packet.info } in
    (h', encode h' size (data_control h.rrr h.sss) field)

unfoldable pub encode_rr : Hdlc → ℕ → Hdlc × M (List ℕ) (Option ℕ)
unfolding rr_control
encode_rr h size =
    let h' = record h { type = Packet.rr } in (h', encode h' size (rr_control h.rrr) [])
