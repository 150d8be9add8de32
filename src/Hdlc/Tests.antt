-- ===== src/Hdlc/Tests.antt =====
-- HDLC at concrete inputs: addresses, negotiations and frames.
use cosemlib.Base.{
  ℕ, zero, suc, ◌%◌, ◌<◌, ◌≡◌, ◌↔◌, refl, inr, List, [], ◌∷◌, ◌++◌, none, some, arith, replicate,
  get_elem?, get_or, ret,
}
use cosemlib.Base.Lists.{slice}
use cosemlib.Hdlc.{Hdlc, Code, Packet, Sender}
use cosemlib.Hdlc.Fcs.{fcstab, crc_bits, fcstab-crc_bits, check_fcs}
use cosemlib.Hdlc.Address.{get_addr, set_addr, get_addr-set_addr}
use cosemlib.Hdlc.Control.{decode_control_field}
use cosemlib.Hdlc.Info.{decode_info_field, running, NoOption, decode_info_field_diverges}
use cosemlib.Hdlc.Encode.{encode, encode_data, encode_rr, encode_snrm, snrm_nego}
use cosemlib.Hdlc.Frame.{frame}
use cosemlib.Hdlc.Written.{encode-frame}
use cosemlib.Hdlc.Long.{decode-encode_long}
use cosemlib.Hdlc.Delivery.{Delivered, decode-encode}
use cosemlib.Hdlc.Decode.{decode, decode_tail, decode_control, decode_addresses}
use cosemlib.Hdlc.Framing.{WellFramed, decode-WellFramed}

-- The link after `hdlc_init`, on the side of the server, and one that has received an SNRM frame.
abbrev link : Hdlc
link = record {
  data_index = 0;
  data_size = 0;
  logical_device = 0;
  phy_address = 0;
  client_addr = 0;
  frame_size = 0;
  max_info_field_tx = 128;
  max_info_field_rx = 128;
  window_tx = 1;
  window_rx = 1;
  addr_len = 4;
  segmentation = 0;
  rrr = 0;
  sss = 0;
  type = Packet.bad;
  poll_final = 0;
  cmd_resp = 0;
  sender = Sender.client;
}

abbrev negotiating : Hdlc
negotiating = record link { type = Packet.snrm }

fcstab-crc_bits_example : get_or fcstab 3 0 ≡ crc_bits 8 3
fcstab-crc_bits_example = fcstab-crc_bits 3 (ground arith)

-- A negotiation without an option, in a memory of zeros.
abbrev no_options : List ℕ
no_options = 0x81 ∷ 0x80 ∷ 18 ∷ replicate 253 0

get_elem?-replicate : (n i x : ℕ) {b : ℕ} → get_elem? (replicate n x) i ≡ some b → b ≡ x
get_elem?-replicate zero i x e = cc
get_elem?-replicate (suc n) zero x e = ground arith
get_elem?-replicate (suc n) (suc i) x e = get_elem?-replicate n i x e

no_options-NoOption : NoOption no_options
no_options-NoOption zero b odd e = ground arith
no_options-NoOption (suc zero) b odd e = ground arith
no_options-NoOption (suc (suc zero)) b odd e = ground arith
no_options-NoOption (suc (suc (suc i))) b odd e = let z = get_elem?-replicate 253 i 0 e in rw z refl

decode_info_field_diverges_example :
    decode_info_field 1000 no_options 21 negotiating ≡ ret running negotiating
decode_info_field_diverges_example =
    decode_info_field_diverges 1000 no_options 18 negotiating refl (ground arith) refl refl refl
      no_options-NoOption

-- An SNRM frame with addresses of one byte.
abbrev snrm_frame : List ℕ
snrm_frame = 0x7E ∷ 0xA0 ∷ 7 ∷ 3 ∷ 0x21 ∷ 0x93 ∷ 0x0F ∷ 1 ∷ 0x7E ∷ []

abbrev after_snrm : Hdlc
after_snrm = record link {
  logical_device = 1;
  client_addr = 16;
  frame_size = 9;
  addr_len = 1;
  type = Packet.snrm;
  poll_final = 1;
  rrr = 4;
  sss = 1;
}

accepted : decode snrm_frame 9 link ≡ ret Code.ok after_snrm
unfolding decode check_fcs slice decode_addresses decode_control decode_control_field decode_tail
accepted = refl

decode-WellFramed_example : WellFramed snrm_frame 9
decode-WellFramed_example = decode-WellFramed snrm_frame 9 link accepted

get_addr-set_addr_example :
    ((bs : List ℕ) × (set_addr 1 65 0 ≡ some bs)
      × ((get_addr (bs ++ []) 0 1 link ≡ ret (some (65, none)) link) ↔ (65 < 128)))
    × ((bs : List ℕ) × (set_addr 2 65 17 ≡ some bs)
        × ((get_addr (bs ++ []) 0 2 link ≡ ret (some (65, some 17)) link)
            ↔ ((65 < 64) × (17 < 128))))
    × ((bs : List ℕ) × (set_addr 4 65 17 ≡ some bs)
        × ((get_addr (bs ++ []) 0 4 link ≡ ret (some (65, some 17)) link)
            ↔ ((65 < 16384) × (65 % 256 < 64) × (17 < 16384) × (17 % 256 < 128))))
get_addr-set_addr_example = get_addr-set_addr 65 17 [] link

-- A client of number 16 that talks to the logical device 1 at the physical address 17.
abbrev client_link : Hdlc
client_link = record link {
  logical_device = 1;
  phy_address = 17;
  client_addr = 16;
  rrr = 2;
  sss = 3;
}

abbrev llc_header : List ℕ
llc_header = 0xE6 ∷ 0xE6 ∷ 0 ∷ []

encode-frame_example :
    encode client_link 40 0x56 llc_header (replicate 40 0)
    ≡ ret (some 17) (frame client_link 0x56 llc_header ++ replicate 23 0)
unfolding set_addr
encode-frame_example =
    encode-frame client_link 40 0x56 llc_header (replicate 40 0) (inr (inr refl)) (omega arith)
      (omega arith)

decode-encode_example :
    Delivered client_link link Packet.info 2 3 llc_header
      ((encode_data client_link 40 llc_header).1 (replicate 40 0))
    × Delivered client_link link Packet.rr 2 0 [] ((encode_rr client_link 40).1 (replicate 40 0))
    × Delivered client_link link Packet.snrm 4 1 snrm_nego
        ((encode_snrm client_link 40).1 (replicate 40 0))
unfolding set_addr
decode-encode_example =
    decode-encode client_link link llc_header (replicate 40 0) 40
      (inr (inr (refl, ground arith, ground arith, ground arith, ground arith))) (ground arith)
      (ground arith) (ground arith) refl (ground arith) (ground arith) (ground arith) (ground arith)
      (ground arith)

abbrev long_field : List ℕ
long_field = replicate 300 7

-- A frame of 312 bytes between its flags.
decode-encode_long_example :
    (out : List ℕ) × (encode client_link 400 0x56 long_field (replicate 400 0) ≡ ret (some 314) out)
    × (decode out 314 link
        ≡ ret Code.err_size (record link { segmentation = 0; frame_size = 2106 }))
unfolding set_addr
decode-encode_long_example =
    decode-encode_long client_link link 0x56 400 long_field (replicate 400 0) (inr (inr refl))
      (ground arith) (ground arith) (ground arith) (ground arith)
