-- ===== src/Hdlc.antt =====
-- hdlc/hdlc.h and hdlc/hdlc.c: the state of an HDLC link, the result codes, and reads of a frame.
pub mod Fcs
pub mod Address
pub mod Control
pub mod Info
pub mod Encode
pub mod Decode
pub mod Framing
pub mod Frame
pub mod Stores
pub mod Written
pub mod Reading
pub mod Addressed
pub mod RoundTrip
pub mod Delivery
pub mod Long
mod Tests
use cosemlib.Base.{
  ℕ, suc, ◌+◌, ◌*◌, ◌/◌, ◌%◌, ◌≡◌, List, [], ◌∷◌, Option, none, some, get_elem?, Exec, ret, fault,
  M,
}
use cosemlib.Base.Words.{u16_mod}

-- `HDLC_OK` and the negative codes
pub data Code : Type 0 where
  ok err err_7e err_format err_size err_addr err_fcs err_hcs err_i_format err_nego : Code

-- `HDLC_PACKET_TYPE_*`
pub data Packet : Type 0 where
  bad info rr rnr snrm disc ua dm frmr ui : Packet

-- `HDLC_SENDER`
pub data Sender : Type 0 where
  client server : Sender

-- `hdlc_t`
pub record Hdlc : Type 0 where
  pub data_index : ℕ
  pub data_size : ℕ
  pub logical_device : ℕ
  pub phy_address : ℕ
  pub client_addr : ℕ
  pub frame_size : ℕ
  pub max_info_field_tx : ℕ
  pub max_info_field_rx : ℕ
  pub window_tx : ℕ
  pub window_rx : ℕ
  pub addr_len : ℕ
  pub segmentation : ℕ
  pub rrr : ℕ
  pub sss : ℕ
  pub type : Packet
  pub poll_final : ℕ
  pub cmd_resp : ℕ
  pub sender : Sender

-- `hdlc_init` sets every field.
unfoldable pub init : Hdlc → Hdlc
init h = record {
  data_index = 0;
  data_size = 0;
  logical_device = 0;
  phy_address = 0;
  client_addr = 0;
  frame_size = 0;
  max_info_field_tx = 128;
  max_info_field_rx = 128;
  window_tx = 1;
  window_rx = 1;
  addr_len = 4;
  segmentation = 0;
  rrr = 0;
  sss = 0;
  type = bad;
  poll_final = 0;
  cmd_resp = 0;
  sender = server;
}

-- `hdlc_get_len`: the mask is `HDLC_LEN_HI`, 3, and the shift is by 11.
unfoldable pub get_len : ℕ → ℕ → ℕ
get_len b0 b1 = (b0 % 4 * 2048 % u16_mod + b1) % u16_mod

-- The byte `buf[i]`; a read outside the memory of the frame is a fault.
abbrev pub load : {S : Type 0} → List ℕ → ℕ → M S ℕ
load buf i s = elim (get_elem? buf i) [ none ↦ fault | some b ↦ ret b s ]
