-- ===== src/Channel/Hls.antt =====
-- src/csm_channel.c: the passes 3 and 4 of the high level of security, `csm_channel_hls_pass3` and
-- `csm_channel_hls_pass4`.
pub mod Check
pub mod Answer
pub mod Mutual
mod Tests
use cosemlib.Base.{
  ℕ, ◌+◌, ◌-◌, ◌%◌, Bool, true, false, ◌&&◌, List, [], ◌∷◌, Option, none, some, if◌then◌else◌, leb,
  ◌==◌, length, take, get_elem?, M, pure, crash, get, put, ret, ◌>>=◌, ◌>>◌, ◌&&&◌,
}
use cosemlib.Base.Words.{u32_mod}
use cosemlib.Array
use cosemlib.Array.{Array, unread}
use cosemlib.Ber
use cosemlib.Association.{Association, Challenge, Hal}
use cosemlib.Services.{Request}
use cosemlib.Security.{
  SecResult, sec_ok, Gcm, Sealed, on_array, read_or, auth_decrypt, auth_encrypt,
}
use cosemlib.Channel.{Stack}

-- `CSM_DEF_MAX_HLS_SIZE` and `CSM_DEF_SEC_HDR_SIZE`
abbrev pub max_hls_size : ℕ
max_hls_size = 1 + 16 + 64

abbrev pub sec_hdr_size : ℕ
sec_hdr_size = 5

abbrev pub is_sec_ok : SecResult → Bool
is_sec_ok sec_ok = true
is_sec_ok _ = false

-- `channel_list[request->channel_id - 1U].asso`, through which both passes read the handshake; a channel
-- without an association is a fault.
unfoldable pub find_state : Stack → Request → Option Association
find_state stack request =
    elim (get_elem? stack.channels ((request.channel_id + u32_mod - 1) % u32_mod)) [
      | none ↦ none
      | some c ↦ elim c.asso [ none ↦ none | some i ↦ get_elem? stack.assos i ]
    ]

-- `csm_array_write_buff` of a challenge; its value has as many bytes as its object.
unfoldable pub write_challenge : Challenge → M Array Bool
write_challenge c =
    if leb c.size (length c.value) then Array.write_buff (take c.size c.value) else crash

abbrev pub window : ℕ → Array → Array
window offset a = record a { offset = offset; rd_index = 0; wr_index = 0 }

-- The packet of the third pass, in front of the tag that is in the buffer already.
unfoldable pub fake_packet : ℕ → ℕ → Challenge → M Array Bool
fake_packet sc ic stoc =
    Array.write_u8 sc >> Array.write_u32 ic >> write_challenge stoc >> Array.writer_jump 12

-- The response of the fourth pass, in front of the tag.
unfoldable pub tag_string : ℕ → ℕ → M Array Bool
tag_string sc ic =
    (Array.write_u8 9 &&& Ber.write_len 17 &&& Array.write_u8 sc &&& Array.write_u32 ic)
    &&& Array.writer_jump 12

module _ {G : Type 0} (hal : Hal) (gcm : Gcm G) (request : Request) where
  abbrev pub edit : (Array → Array) → M (Sealed G) (Unit {0})
  edit f s = ret tt (record s { array = f s.array })

  -- The third pass where the size of the tag and the room before the array are right.
  unfoldable pub check_answer : Association → ℕ → ℕ → M (Sealed G) Bool
  check_answer asso sc ic = do
    s ← get
    let offset = s.array.offset
    let front = sec_hdr_size + asso.handshake.stoc.size
    edit (window ((offset + s.array.rd_index + u32_mod - front) % u32_mod))
    on_array gcm request (fake_packet sc ic asso.handshake.stoc)
    res ← auth_decrypt gcm request asso.client_app_title hal.junk hal.junk
    edit (λ a. record a { offset = offset })
    pure (is_sec_ok res)

  abbrev pub on_state : Stack → (Association → M (Sealed G) Bool) → M (Sealed G) Bool
  on_state stack k = elim (find_state stack request) [ none ↦ crash | some asso ↦ k asso ]

  unfoldable pub sized_answer : Stack → ℕ → ℕ → M (Sealed G) Bool
  sized_answer stack sc ic s =
      if unread s.array == 12
      then (if leb max_hls_size s.array.offset
          then on_state stack (λ asso. check_answer asso sc ic) s
          else pure false s)
      else pure false s

  -- `csm_channel_hls_pass3`; where the header cannot be read, its variables are not initialised.
  unfoldable pub hls_pass3 : Stack → M (Sealed G) Bool
  hls_pass3 stack = do
    first ← on_array gcm request Array.read_u8
    counter ← on_array gcm request Array.read_u32
    sized_answer stack (read_or gcm request hal.junk first)
        (read_or gcm request hal.junk counter.value)

  -- The fourth pass where there is room before the array.
  unfoldable pub give_answer : ℕ → ℕ → Association → M (Sealed G) Bool
  give_answer sc ic asso = do
    s ← get
    let offset = s.array.offset
    let front = (asso.handshake.ctos.size + u32_mod - sec_hdr_size + u32_mod - 2) % u32_mod
    edit (λ a. record a { offset = (offset + u32_mod - front) % u32_mod })
    on_array gcm request (write_challenge asso.handshake.ctos)
    res ← auth_encrypt gcm request hal.system_title sc ic
    edit (λ a. record a { offset = offset; wr_index = 0 })
    valid ← on_array gcm request (tag_string sc ic)
    pure (is_sec_ok res && valid)

  -- `csm_channel_hls_pass4`: only the bit of authentication is set in the control byte.
  unfoldable pub hls_pass4 : Stack → M (Sealed G) Bool
  hls_pass4 stack s =
      if leb max_hls_size s.array.offset
      then on_state stack (give_answer 0x10 0x01234567) s
      else pure false s
