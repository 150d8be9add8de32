-- ===== src/Association/Encoders.antt =====
-- src/csm_association.c: the encoders of the fields of AARQ and AARE.
use cosemlib.Base.{
  ℕ, zero, suc, ◌+◌, ◌-◌, ◌/◌, ◌%◌, Bool, true, false, List, [], ◌∷◌, none, some, if◌then◌else◌,
  leb, length, take, splice, ret, fault, M, crash, get, put, ◌>>=◌, ◌>>◌, ◌&&&◌,
}
use cosemlib.Base.Words.{u32_mod, low8, shr}
use cosemlib.Array
use cosemlib.Array.{Array}
use cosemlib.Ber
use cosemlib.Association.{
  Association, Session, Hal, StateCf, Referencing, AuthLevel, referencing_id, auth_level_id,
  on_array, set_handshake, oid_header,
}
use cosemlib.Association.Decoders.{Target, client_challenge, server_challenge, on_challenge}

-- `acse_app_context_encoder`
unfoldable pub app_context : M Session Bool
app_context = on_array (Ber.write_len 9)

-- `acse_oid_encoder`
unfoldable pub oid : ℕ → ℕ → M Array Bool
oid name id =
    Ber.write_len 7 &&& Array.write_buff oid_header &&& Array.write_u8 name &&& Array.write_u8 id

unfoldable pub oid_context : M Session Bool
unfolding oid
oid_context = do s ← get; on_array (oid 1 (referencing_id s.asso.ref))

-- `acse_result_encoder`
abbrev pub association_result : StateCf → ℕ
association_result StateCf.idle = 1
association_result _ = 0

unfoldable pub result : M Session Bool
result = do
  s ← get
  on_array (Ber.write_len 3 &&& Ber.write_u8 (association_result s.asso.state_cf))

-- `acse_result_src_diag_encoder`
unfoldable pub result_src_diag : M Session Bool
result_src_diag = do
  s ← get
  on_array (
      Ber.write_len 5
      &&& Array.write_u8 0xA1
      &&& Ber.write_len 3
      &&& Ber.write_u8 (low8 s.asso.handshake.result))

-- `acse_resp_system_title_encoder`; a title shorter than the eight bytes is a read beyond it.
unfoldable pub resp_system_title : Hal → M Session Bool
resp_system_title hal = on_array (
    Ber.write_len 10
    &&& Array.write_u8 4
    &&& Array.write_u8 8
    &&& (if leb 8 (length hal.system_title)
        then Array.write_buff (take 8 hal.system_title)
        else crash))

-- `acse_requirements_encoder`
unfoldable pub requirements : M Session Bool
requirements = on_array (Ber.write_len 2 &&& Array.write_u8 7 &&& Array.write_u8 0x80)

unfoldable pub oid_mechanism : M Session Bool
unfolding oid
oid_mechanism = do s ← get; on_array (oid 2 (auth_level_id s.asso.auth_level))

-- `acse_auth_value_encoder`
unfoldable pub auth_value : List ℕ → ℕ → M Array Bool
auth_value value size =
    Ber.write_len (size + 2)
    &&& Array.write_u8 0x80
    &&& Array.write_u8 size
    &&& (if leb size (length value) then Array.write_buff (take size value) else crash)

-- `n` random bytes from the `k`th call on.
abbrev pub draw : Hal → ℕ → ℕ → List ℕ
draw hal k zero = []
draw hal k (suc n) = hal.random_u8 k 0 255 ∷ draw hal (k + 1) n

-- The loops that fill a challenge of the given size; beyond its 64 bytes they are a fault.
unfoldable pub fill_random : Hal → Target → ℕ → M Session (Unit {0})
fill_random hal target size s =
    if leb size 64
    then ret tt (record s {
      drawn = s.drawn + size;
      asso = record s.asso {
        handshake =
            on_challenge target
              (λ c. record c { value = splice 0 (draw hal s.drawn size) c.value; size = size })
              s.asso.handshake;
      };
    })
    else fault

-- `acse_responder_auth_value_encoder`: a challenge of the client's size.
unfoldable pub responder_auth_value : Hal → M Session Bool
unfolding fill_random auth_value
responder_auth_value hal = do
  s ← get
  fill_random hal server_challenge s.asso.handshake.ctos.size
  s' ← get
  on_array (auth_value s'.asso.handshake.stoc.value s'.asso.handshake.ctos.size)

-- `acse_aarq_auth_value_encoder`: the password, or a challenge of random size.
unfoldable pub aarq_auth_value : Hal → M Session Bool
unfolding fill_random auth_value
aarq_auth_value hal = do
  s ← get
  elim s.asso.auth_level [
    | AuthLevel.low ↦ set_handshake (
        on_challenge client_challenge
          (λ c. record c { value = splice 0 (hal.lls_password 0 8) c.value; size = 8 }))
    | _ ↦ do
      put (record s { drawn = s.drawn + 1 })
      fill_random hal client_challenge (hal.random_u8 s.drawn 8 64)
  ]
  s' ← get
  on_array (auth_value s'.asso.handshake.ctos.value s'.asso.handshake.ctos.size)

-- `asce_conformance_block_encoder`
unfoldable pub conformance_block : ℕ → M Array Bool
conformance_block value =
    Array.write_u8 (low8 (shr value 16))
    &&& Array.write_u8 (low8 (shr value 8))
    &&& Array.write_u8 (low8 value)

-- Referencing by logical name: the VAA-name is 0x0007, and 0xFA00 otherwise.
abbrev by_logical_name : Referencing → Bool
by_logical_name Referencing.ln_ref = true
by_logical_name Referencing.ln_ref_with_cyphering = true
by_logical_name _ = false

abbrev vaa_name : Referencing → M Array Bool
vaa_name r =
    if by_logical_name r
    then Array.write_u8 0 &&& Array.write_u8 7
    else Array.write_u8 0xFA &&& Array.write_u8 0

-- The InitiateResponse; a missing configuration is a NULL pointer that is followed. The size of a PDU,
-- `CSM_DEF_PDU_SIZE`, is 1024.
abbrev initiate_response : Association → M Array Bool
initiate_response asso =
    Array.write_u8 8
    &&& Array.write_u8 0
    &&& Array.write_u8 6
    &&& Array.write_u8 0x5F
    &&& Array.write_u8 0x1F
    &&& Array.write_u8 4
    &&& Array.write_u8 0
    &&& elim asso.config [ none ↦ crash | some c ↦ conformance_block c.conformance ]
    &&& Array.write_u8 (1024 / 256)
    &&& Array.write_u8 (1024 % 256)
    &&& vaa_name asso.ref

abbrev initiate_request : M Array Bool
initiate_request =
    Array.write_u8 1
    &&& Array.write_u8 0
    &&& Array.write_u8 0
    &&& Array.write_u8 0
    &&& Array.write_u8 6
    &&& Array.write_u8 0x5F
    &&& Array.write_u8 0x1F
    &&& Array.write_u8 4
    &&& Array.write_u8 0
    &&& conformance_block 0xFFFFFFFF
    &&& Array.write_u16 0xFFFF

-- The two sizes, once what they measure is written.
unfoldable pub store_sizes : ℕ → M Array Bool
store_sizes saved_index a =
    let size = (a.wr_index + u32_mod - saved_index) % u32_mod in
    (Array.set_byte saved_index (low8 (size + u32_mod - 1))
        &&& Array.set_byte (saved_index + 2) (low8 (size + u32_mod - 3)))
      a

-- `acse_user_info_encoder`; `response` tells the two tags apart.
unfoldable pub user_info : Bool → M Session Bool
unfolding conformance_block store_sizes
user_info response = do
  s ← get
  on_array (
      Array.write_u8 0
      &&& Array.write_u8 4
      &&& Array.write_u8 0
      &&& (if response then initiate_response s.asso else initiate_request)
      &&& store_sizes s.array.wr_index)
