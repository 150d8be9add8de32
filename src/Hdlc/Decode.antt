-- ===== src/Hdlc/Decode.antt =====
-- hdlc/hdlc.c: the decoder of a frame.
use cosemlib.Base.{
  ℕ, ◌+◌, ◌/◌, ◌%◌, ◌-◌, Bool, List, none, some, if◌then◌else◌, leb, ◌==◌, M, pure, get, put, ◌>>=◌,
  ◌>>◌,
}
use cosemlib.Base.Words.{u16_mod}
use cosemlib.Hdlc.{Hdlc, Code, Sender, load, get_len}
use cosemlib.Hdlc.Address.{Parts, decode_addr_size, get_addr}
use cosemlib.Hdlc.Control.{decode_control_field}
use cosemlib.Hdlc.Fcs.{check_fcs, check_hcs}

-- The server's address, of any size; the lower part is stored where it is present.
abbrev pub set_server : Parts → Hdlc → Hdlc
set_server (upper, none) h = record h { logical_device = upper }
set_server (upper, some lower) h = record h { logical_device = upper; phy_address = lower }

unfoldable pub server_address : List ℕ → ℕ → ℕ → M Hdlc Code
unfolding get_addr
server_address buf i addr_size = do
  parts ← get_addr buf i addr_size
  h ← get
  elim parts [
    | none ↦ put (record h { addr_len = addr_size }) >> pure Code.err_addr
    | some p ↦ put (record (set_server p h) { addr_len = addr_size }) >> pure Code.ok
  ]

-- The client's address, of one byte.
unfoldable pub client_address : List ℕ → ℕ → ℕ → M Hdlc Code
unfolding get_addr
client_address buf i addr_size =
    if addr_size == 1
    then (do
      parts ← get_addr buf i addr_size
      h ← get
      elim parts [
        | none ↦ pure Code.err_addr
        | some p ↦ put (record h { client_addr = p.0 }) >> pure Code.ok
      ])
    else pure Code.err_addr

-- What stands behind the control field at index `i - 1`: nothing, or the checked header and the data.
-- The size is a difference of pointers, cut to 16 bits.
unfoldable pub decode_tail : List ℕ → ℕ → M Hdlc Code
unfolding check_hcs
decode_tail buf i = do
  h ← get
  let remaining = (h.frame_size + u16_mod - 3 + u16_mod - i % u16_mod) % u16_mod
  if leb 2 remaining
      then (do
        code ← check_hcs buf ((i + 2) % u16_mod)
        h' ← get
        elim code [
          | Code.ok ↦
              put (record h' { data_index = (i + 2) % u16_mod; data_size = remaining - 2 })
              >> pure Code.ok
          | other ↦ pure other
        ])
      else pure Code.ok

unfoldable pub decode_control : List ℕ → ℕ → M Hdlc Code
decode_control buf i = do
  cf ← load buf i
  h ← get
  let (code, h') = decode_control_field h cf
  put h'
  elim code [ Code.ok ↦ decode_tail buf (i + 1) | other ↦ pure other ]

-- The destination, and the source: the client's address is the destination in a frame of the server's
-- partner, and the source in one of the client's.
unfoldable pub first_address : Sender → List ℕ → ℕ → M Hdlc Code
unfolding server_address client_address
first_address Sender.client buf addr_size = server_address buf 3 addr_size
first_address Sender.server buf addr_size = client_address buf 3 addr_size

unfoldable pub second_address : Sender → List ℕ → ℕ → ℕ → M Hdlc Code
unfolding server_address client_address
second_address Sender.client buf i addr_size = client_address buf i addr_size
second_address Sender.server buf i addr_size = server_address buf i addr_size

-- Both addresses. An error of the second one is reported as `HDLC_ERR_ADDR`.
unfoldable pub decode_addresses_of : Sender → List ℕ → M Hdlc Code
unfolding first_address second_address decode_addr_size
decode_addresses_of sender buf = do
  h ← get
  first ← decode_addr_size buf 3 h.frame_size
  code ← first_address sender buf first
  elim code [
    | Code.ok ↦ do
      second ← decode_addr_size buf (3 + first) h.frame_size
      code' ← second_address sender buf (3 + first) second
      elim code' [ Code.ok ↦ decode_control buf (3 + first + second) | _ ↦ pure Code.err_addr ]
    | other ↦ pure other
  ]

unfoldable pub decode_addresses : List ℕ → M Hdlc Code
unfolding decode_addresses_of
decode_addresses buf = do h ← get; decode_addresses_of h.sender buf

-- `buf[1] & HDLC_FORMAT_TYPE == HDLC_FORMAT_TYPE`, the mask being 0xA0
abbrev pub is_format_3 : ℕ → Bool
is_format_3 b = b / 128 % 2 + b / 32 % 2 == 2

-- `hdlc_decode`
unfoldable pub decode : List ℕ → ℕ → M Hdlc Code
unfolding get_len
decode buf size = do
  flag ← load buf 0
  if flag == 0x7E
      then (do
        format ← load buf 1
        if is_format_3 format
            then (do
              low ← load buf 2
              h ← get
              let frame_size = (get_len format low + 2) % u16_mod
              put (record h { segmentation = format / 8 % 2; frame_size = frame_size })
              if leb frame_size size
                  then (do
                    last ← load buf (frame_size - 1)
                    if last == 0x7E
                        then (do
                          code ← check_fcs buf frame_size
                          elim code [ Code.ok ↦ decode_addresses buf | other ↦ pure other ])
                        else pure Code.err_size)
                  else pure Code.err_size)
            else pure Code.err_format)
      else pure Code.err_7e
