-- ===== src/Services/Client.antt =====
-- src/csm_services.c: the responses, as the client decodes them.
use cosemlib.Base.{
  ℕ, Bool, true, false, ◌&&◌, List, [], ◌∷◌, none, some, ◌%◌, if◌then◌else◌, ◌==◌, ret, M, pure,
  ◌>>=◌, ◌>>◌, ◌&&&◌, ◌&&>◌,
}
use cosemlib.Base.Words.{u16_mod}
use cosemlib.Services.Coding.{write_from}
use cosemlib.Array
use cosemlib.Array.{Array, written}
use cosemlib.Ber
use cosemlib.Axdr
use cosemlib.Axdr.{CosemObject}
use cosemlib.Services.{
  Service, svc_unkown, svc_get, svc_set, svc_action, svc_exception, is_action, Exchange, on_array,
  update, take_u8, take_read, get_response_tag, set_response_tag, action_response_tag,
  exception_response_tag,
}

-- `csm_response`, with its `exception`. The results and the type are numbers, since the decoder stores
-- bytes in them.
pub record Response : Type 0 where
  pub service : Service
  pub response_type : ℕ
  pub result : ℕ
  pub access_result : ℕ
  pub action_result : ℕ
  pub state_err : ℕ
  pub service_err : ℕ
  pub invoke_id : ℕ
  pub has_data : Bool
  pub block_number : ℕ
  pub last_block : ℕ

-- `enum svc_response`
abbrev pub svc_response_normal : ℕ
svc_response_normal = 0

abbrev pub svc_response_with_datablock : ℕ
svc_response_with_datablock = 1

-- `CSM_ACCESS_RESULT_NOT_SET`
abbrev pub not_set : ℕ
not_set = 255

-- The `switch` statements, as the lists of their cases.
abbrev pub is_one_of : List ℕ → ℕ → Bool
is_one_of [] n = false
is_one_of (x ∷ xs) n = let rest = is_one_of xs n in if x == n then true else rest

unfoldable pub is_valid_data_access_result : ℕ → Bool
is_valid_data_access_result =
    is_one_of (0 ∷ 1 ∷ 2 ∷ 3 ∷ 4 ∷ 9 ∷ 11 ∷ 12 ∷ 13 ∷ 14 ∷ 15 ∷ 16 ∷ 17 ∷ 18 ∷ 19 ∷ 250 ∷ [])

unfoldable pub is_valid_action_result : ℕ → Bool
is_valid_action_result = is_one_of (0 ∷ 1 ∷ 2 ∷ 3 ∷ 4 ∷ 9 ∷ 11 ∷ 12 ∷ 13 ∷ 14 ∷ 15 ∷ 16 ∷ 250 ∷ [])

abbrev pub is_normal_response : ℕ → Bool
is_normal_response t = t == 1

abbrev pub is_data_block_response : ℕ → Bool
is_data_block_response t = t == 2

abbrev pub set_access : ℕ → M (Exchange Response) (Unit {0})
set_access n = update (λ r. record r { access_result = n })

-- The second part of an action's response. The byte 1 says that the result is a Data-Access-Result; it
-- is stored in its place, and the result that follows is not read. Where the byte is missing, the
-- variable still holds the presence flag, which is 1.
unfoldable pub return_result : M (Exchange Response) Bool
return_result = do
  read ← on_array Array.read_u8
  elim read [
    | none ↦ set_access 1 >> pure false
    | some b ↦
        if b == 1
        then (set_access 1 >> pure true)
        else if b == 0
        then (update (λ r. record r { has_data = true; access_result = 0 }) >> pure true)
        else pure false
  ]

unfoldable pub action_result : ℕ → M (Exchange Response) Bool
unfolding return_result is_valid_action_result is_valid_data_access_result
action_result result =
    if is_valid_action_result result
    then (do
      update (λ r. record r { action_result = result })
      on_array Array.read_u8 &&> λ flag.
          if flag == 1
          then (if is_valid_data_access_result flag then return_result else pure false)
          else pure (flag == 0))
    else pure false

unfoldable pub data_result : ℕ → M (Exchange Response) Bool
unfolding is_valid_data_access_result
data_result result =
    if is_valid_data_access_result result
    then (set_access result >> pure true)
    else (set_access not_set >> pure false)

abbrev service_of : M (Exchange Response) Service
service_of s = ret s.message.service s

-- `svc_result_decoder`
unfoldable pub result_decoder : M (Exchange Response) Bool
unfolding action_result data_result
result_decoder = do
  read ← on_array Array.read_u8
  update (λ r. record r { has_data = false; access_result = not_set })
  service ← service_of
  elim read [
    | none ↦ pure false
    | some result ↦ if is_action service then action_result result else data_result result
  ]

unfoldable pub data_block : M (Exchange Response) Bool
data_block =
    take_u8 (λ b r. record r { last_block = b })
    &&& take_read Array.read_u32 (λ n r. record r { block_number = n })
    &&& (set_access 0 >> pure true)

-- `svc_response_decoder`. A type that is neither normal nor with a data block is accepted.
unfoldable pub response_body : ℕ → M (Exchange Response) Bool
unfolding result_decoder data_block
response_body type =
    if is_normal_response type
    then (update (λ r. record r { response_type = svc_response_normal }) >> result_decoder)
    else if is_data_block_response type
    then (update (λ r. record r { response_type = svc_response_with_datablock }) >> data_block)
    else pure true

unfoldable pub response_decoder : M (Exchange Response) Bool
unfolding response_body
response_decoder = on_array Array.read_u8 &&> λ type.
    take_u8 (λ b r. record r { invoke_id = b }) &&& response_body type

unfoldable pub set_service : Service → M (Exchange Response) (Unit {0})
set_service service = update (λ r. record r { service = service })

-- `svc_get_response_decoder`, `svc_set_response_decoder` and `svc_action_response_decoder`
unfoldable pub service_response_decoder : Service → M (Exchange Response) Bool
service_response_decoder service = set_service service >> response_decoder

-- `svc_exception_decoder`
unfoldable pub exception_decoder : M (Exchange Response) Bool
exception_decoder =
    set_service svc_exception
    >> (take_u8 (λ b r. record r { state_err = b })
        &&& take_u8 (λ b r. record r { service_err = b }))

-- The table `client_services`, and the loop over it.
pub record Handler : Type 0 where
  pub tag : ℕ
  pub decoder : M (Exchange Response) Bool

unfoldable pub client_services : List Handler
client_services =
    record { tag = get_response_tag; decoder = service_response_decoder svc_get }
    ∷ record { tag = set_response_tag; decoder = service_response_decoder svc_set }
    ∷ record { tag = action_response_tag; decoder = service_response_decoder svc_action }
    ∷ record { tag = exception_response_tag; decoder = exception_decoder }
    ∷ []

unfoldable pub run_service : List Handler → ℕ → M (Exchange Response) Bool
run_service [] tag = pure false
run_service (h ∷ hs) tag = let rest = run_service hs tag in if h.tag == tag then h.decoder else rest

-- `csm_client_decode`
unfoldable pub client_decode : M (Exchange Response) Bool
client_decode = do set_service svc_unkown; on_array Array.read_u8 &&> run_service client_services

-- `csm_client_init`
unfoldable pub client_init : Response → Response
client_init r = record r { response_type = 0; block_number = 0; invoke_id = 0; last_block = 0 }

-- `csm_client_has_more_data`
unfoldable pub has_more_data : Response → Bool
has_more_data r = r.response_type == svc_response_with_datablock && r.last_block == 0

-- `csm_axdr_wr_octetstring(array, csm_array_rd_data(date), csm_array_written(date))`; the number of
-- bytes counts the offset of the array.
unfoldable pub wr_date : Array → M Array Bool
unfolding write_from
wr_date date =
    Array.write_u8 9
    &&& Ber.write_len (written date % u16_mod)
    &&& write_from (Array.index date date.rd_index) (written date) date

-- `csm_client_encode_selective_access_by_range`
unfoldable pub encode_selective_access_by_range : CosemObject → Array → Array → M Array Bool
unfolding wr_date
encode_selective_access_by_range object start end_date =
    Array.write_u8 1
    &&& Array.write_u8 2
    &&& Ber.write_len 4
    &&& Axdr.wr_capture_object object
    &&& wr_date start
    &&& wr_date end_date
    &&& Array.write_u8 1
    &&& Array.write_u8 0
