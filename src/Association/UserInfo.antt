-- ===== src/Association/UserInfo.antt =====
-- src/csm_association.c: the decoder of the user information, an InitiateRequest or InitiateResponse.
use cosemlib.Base.{
  ℕ, ◌+◌, ◌*◌, ◌%◌, ◌^◌, Bool, true, false, ◌&&◌, none, some, if◌then◌else◌, ◌==◌, M, pure, get,
  ◌>>=◌, ◌>>◌, ◌&&>◌,
}
use cosemlib.Base.Words.{u32_mod}
use cosemlib.Array
use cosemlib.Array.{Array}
use cosemlib.Axdr
use cosemlib.Association.{Session, Hal, Handshake, on_array, decode_ber, set_handshake}
use cosemlib.Association.Decoders.{or_else}

-- `valid = valid && csm_array_read_u8(array, &byte)`: the test, and the byte after it.
abbrev pub read_if : Bool → ℕ → M Session (Bool × ℕ)
read_if valid byte =
    if valid
    then (do
      r ← on_array Array.read_u8
      elim r [ none ↦ pure (false, byte) | some b ↦ pure (true, b) ])
    else pure (false, byte)

-- The request's size is the client's, any other the server's.
abbrev pub store_pdu_size : ℕ → ℕ → Handshake → Handshake
store_pdu_size tag n h =
    if tag == 1
    then record h { client_max_receive_pdu_size = n }
    else record h { server_max_receive_pdu_size = n }

-- `acse_decode_conformance_block`: the fields are stored whether the reads succeed or not.
unfoldable pub conformance_block : Hal → ℕ → M Session Bool
conformance_block hal tag = do
  decoded ← decode_ber
  s ← get
  if s.ber.tag.tag == 0x5F && s.ber.tag.ext == 0x1F
      then (if s.ber.length.length == 4
          then (do
            (v1, unused) ← read_if decoded hal.junk
            let v2 = v1 && unused == 0
            let c1 = unused * 2 ^ 16 % u32_mod
            set_handshake (λ h. record h { proposed_conformance = c1 })
            (v3, b) ← read_if v2 unused
            let c2 = (c1 + b * 2 ^ 8) % u32_mod
            set_handshake (λ h. record h { proposed_conformance = c2 })
            (v4, c) ← read_if v3 b
            set_handshake (λ h. record h { proposed_conformance = (c2 + c) % u32_mod })
            if v4
                then (do
                  r ← on_array Array.read_u16
                  set_handshake (store_pdu_size tag (or_else r.value hal.junk))
                  pure r.done)
                else (set_handshake (store_pdu_size tag hal.junk) >> pure false))
          else pure decoded)
      else pure false

-- The test of the VAA-name where the byte read last is the tag of an InitiateResponse.
unfoldable pub vaa_name : ℕ → Bool → M Session Bool
vaa_name byte valid =
    if byte == 8
    then (do
      r ← on_array Array.read_u16
      pure (if r.done then valid && or_else r.value 0 == 7 else valid))
    else pure valid

-- From the quality of service on.
unfoldable pub initiate_body : Hal → ℕ → M Session Bool
unfolding conformance_block vaa_name
initiate_body hal tag = do
  (v1, qos) ← read_if true 0xFF
  (v2, byte) ← (if v1 && qos == 1 then read_if v1 qos else pure (v1, qos))
  (v3, version) ← read_if v2 byte
  valid ← (if v3 && version == 6 then conformance_block hal tag else pure false)
  vaa_name version valid

-- The APDU: the test of its tag, and what stands before the quality of service in a request.
unfoldable pub initiate_apdu : Hal → ℕ → M Session Bool
unfolding initiate_body Axdr.rd_null
initiate_apdu hal tag = on_array Array.read_u8 &&> λ kind. do
  valid ←
      (if kind == 1
        then (on_array Array.read_u8 &&> λ _. on_array Axdr.rd_null)
        else pure (kind == 8))
  if valid then initiate_body hal tag else pure false

-- `acse_user_info_decoder`
unfoldable pub user_info : Hal → ℕ → M Session Bool
unfolding initiate_apdu
user_info hal tag = do
  decoded ← decode_ber
  s ← get
  if decoded && s.ber.tag.id == 4 then initiate_apdu hal tag else pure false
