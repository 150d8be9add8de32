-- ===== src/Services/Coding.antt =====
-- src/csm_services.c: the request, as the client encodes it and as the server decodes it.
use cosemlib.Base.{
  ℕ, ◌+◌, ◌%◌, Bool, true, false, not, ◌&&◌, if◌then◌else◌, leb, ltb, ◌==◌, length, slice, ret,
  fault, M, pure, ◌>>=◌, ◌&&&◌, ◌&&>◌,
}
use cosemlib.Base.Words.{u32_mod}
use cosemlib.Array
use cosemlib.Array.{Array, written}
use cosemlib.Axdr.{CosemObject}
use cosemlib.Services.{
  Service, OptData, DbRequest, Request, Exchange, on_array, take_u8, take_read, take_buff, is_get,
  is_set, is_action, svc_request_normal, svc_request_next, get_request_tag, set_request_tag,
  action_request_tag,
}

abbrev pub set_db : (DbRequest → DbRequest) → Request → Request
set_db f r = record r { db_request = f r.db_request }

abbrev pub set_name : (CosemObject → CosemObject) → Request → Request
set_name f = set_db (λ d. record d { logical_name = f d.logical_name })

abbrev pub set_sel_access : ℕ → Request → Request
set_sel_access e = set_db (λ d. record d { sel_access = record d.sel_access { enable = e } })

abbrev pub set_additional : ℕ → Request → Request
set_additional e =
    set_db (λ d. record d { additional_data = record d.additional_data { enable = e } })

abbrev pub is_normal_request : ℕ → Bool
is_normal_request t = t == 1

abbrev pub is_next_request : ℕ → Service → Bool
is_next_request t service = t == 2 && not (is_action service)

-- The service of the request that is being decoded.
abbrev pub service_of : M (Exchange Request) Service
service_of s = ret s.message.db_request.service s

abbrev pub sel_access_of : M (Exchange Request) ℕ
sel_access_of s = ret s.message.db_request.sel_access.enable s

-- SET and ACTION can have data in the request.
unfoldable pub data_presence : M (Exchange Request) Bool
data_presence = do
  service ← service_of
  if is_get service then pure true else take_u8 set_additional

-- `svc_decode_request`. The parameter is `csm_hal_decode_selective_access` of the application.
module _ (decode_selective_access : M (Exchange Request) Bool) where
  unfoldable pub selective_access : M (Exchange Request) Bool
  selective_access = do
    service ← service_of
    if is_action service
        then pure true
        else (take_u8 set_sel_access &&& (do
          enable ← sel_access_of
          if enable == 0 then pure true else decode_selective_access))

  unfoldable pub normal_request : M (Exchange Request) Bool
  unfolding selective_access data_presence
  normal_request =
      take_read Array.read_u16 (λ w. set_name (λ o. record o { class_id = w }))
      &&& take_buff 6 (λ bs. set_name (λ o. record o { obis = bs }))
      &&& take_u8 (λ b. set_name (λ o. record o { id = b }))
      &&& selective_access
      &&& data_presence

  -- A type that is neither normal nor next is accepted, with nothing more read.
  unfoldable pub request_body : ℕ → M (Exchange Request) Bool
  unfolding normal_request
  request_body type = do
    service ← service_of
    if is_normal_request type
        then normal_request
        else if is_next_request type service
        then take_read Array.read_u32 (λ n. set_db (λ d. record d { block_number = n }))
        else pure true

  unfoldable pub decode_request : M (Exchange Request) Bool
  unfolding request_body
  decode_request = on_array Array.read_u8 &&> λ type.
      take_u8 (λ b r. record r { sender_invoke_id = b }) &&& request_body type

-- `csm_get_request_type`
unfoldable pub get_request_type : Request → ℕ
get_request_type r = if r.request_type == svc_request_normal then 1 else 2

-- `csm_array_write_buff` of `n` bytes of another array, from the place `i` of its buffer on.
unfoldable pub write_from : ℕ → ℕ → Array → M Array Bool
write_from i n bytes a =
    if leb (i + n) (length bytes.buff)
    then Array.write_buff (slice i n bytes.buff) a
    else if leb ((Array.index a a.wr_index + n) % u32_mod) a.size
    then fault
    else ret false a

-- The number of bytes counts the offset of the array, and the first byte is that of the buffer.
unfoldable pub write_opt : OptData → M Array Bool
unfolding write_from
write_opt o = if o.is_null then pure false else write_from 0 (written o.data_array) o.data_array

-- The parts of `svc_request_encoder`
unfoldable pub request_tag : Service → ℕ
request_tag service =
    if is_get service
    then get_request_tag
    else if is_set service
    then set_request_tag
    else action_request_tag

unfoldable pub encode_option : DbRequest → M Array Bool
unfolding write_opt
encode_option d =
    if request_tag d.service == action_request_tag
    then Array.write_u8 d.additional_data.enable
    else Array.write_u8 d.sel_access.enable
      &&& (if d.sel_access.enable == 0 then pure true else write_opt d.sel_access)

unfoldable pub encode_data : DbRequest → M Array Bool
unfolding write_opt
encode_data d =
    if request_tag d.service == get_request_tag
    then pure true
    else if not (d.additional_data.enable == 0) && ltb 0 (written d.additional_data.data_array)
    then write_opt d.additional_data
    else if request_tag d.service == set_request_tag
    then Array.write_u8 0
    else pure true

unfoldable pub encode_normal : Request → M Array Bool
unfolding encode_option encode_data
encode_normal r =
    Array.write_u8 r.sender_invoke_id
    &&& Array.write_u16 r.db_request.logical_name.class_id
    &&& Array.write_buff r.db_request.logical_name.obis
    &&& Array.write_u8 r.db_request.logical_name.id
    &&& encode_option r.db_request
    &&& encode_data r.db_request

-- `svc_request_encoder`
unfoldable pub request_encoder : Request → M Array Bool
unfolding request_tag get_request_type encode_normal
request_encoder r =
    Array.write_u8 (request_tag r.db_request.service)
    &&& Array.write_u8 (get_request_type r)
    &&& (if r.request_type == svc_request_normal
        then encode_normal r
        else if r.request_type == svc_request_next
        then (Array.write_u8 r.sender_invoke_id &&& Array.write_u32 r.db_request.block_number)
        else pure true)
