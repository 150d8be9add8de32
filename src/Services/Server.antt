-- ===== src/Services/Server.antt =====
-- src/csm_services.c: the services of the server.
use cosemlib.Base.{
  ℕ, ◌+◌, ◌-◌, ◌%◌, Bool, true, List, [], ◌∷◌, Option, none, some, if◌then◌else◌, ltb, ◌==◌, Exec,
  ret, fault, M, pure, get, ◌>>=◌, ◌>>◌, ◌&&&◌,
}
use cosemlib.Base.Words.{u32_mod}
use cosemlib.Array
use cosemlib.Array.{Array}
use cosemlib.Services.{
  Service, svc_get, svc_set, svc_action, Request, Exchange, DbCode, ok, err_object_error,
  err_bad_encoding, is_ok, is_set, is_action, on_array, update, get_request_tag, set_request_tag,
  action_request_tag, get_response_tag, set_response_tag, action_response_tag,
  exception_response_tag,
}
use cosemlib.Services.Coding.{set_db, decode_request}

-- A `csm_array` over the buffer of another one.
pub record Window : Type 0 where
  pub rd_index : ℕ
  pub wr_index : ℕ
  pub offset : ℕ
  pub size : ℕ

-- The state in which the database runs for SET and ACTION: its input, and the output that is another
-- view of the input's buffer.
pub record Transfer : Type 0 where
  pub message : Request
  pub input : Array
  pub output : Window

-- The function of the application that `csm_services_init` stores, as it is called by GET, where the
-- output is the input, and by SET and ACTION.
pub record Database : Type 0 where
  pub in_place : M (Exchange Request) DbCode
  pub apart : M Transfer DbCode

-- The code of the application: `csm_hal_decode_selective_access`, and the pointer `database`.
pub record App : Type 0 where
  pub decode_selective_access : M (Exchange Request) Bool
  pub database : Option Database

-- `svc_exception_response_encoder`
unfoldable pub exception_response_encoder : M Array Bool
exception_response_encoder =
    Array.write_u8 exception_response_tag &&& Array.write_u8 1 &&& Array.write_u8 1

-- `svc_data_access_result_encoder`
unfoldable pub access_result : DbCode → ℕ
access_result code = if is_ok code then 0 else 250

unfoldable pub data_access_result_encoder : DbCode → M Array Bool
unfolding access_result
data_access_result_encoder code = Array.write_u8 (access_result code)

-- `array->wr_index = 0U`
unfoldable pub rewind : M (Exchange Request) (Unit {0})
rewind s = ret tt (record { message = s.message; array = record s.array { wr_index = 0 } })

-- The end of both decoders: an exception response in place of any other code than `CSM_OK`.
unfoldable pub or_exception : DbCode → M (Exchange Request) DbCode
unfolding rewind
or_exception code = if is_ok code then pure code else (do
  rewind
  written ← on_array exception_response_encoder
  pure (if written then ok else code))

unfoldable pub set_service : Service → M (Exchange Request) (Unit {0})
set_service service = update (set_db (λ d. record d { service = service }))

unfoldable pub get_header : Request → M Array Bool
get_header r =
    Array.write_u8 get_response_tag
    &&& Array.write_u8 1
    &&& Array.write_u8 r.sender_invoke_id
    &&& Array.write_u8 0

-- What `svc_get_request_decoder` does with a database.
unfoldable pub answer_get : Database → M (Exchange Request) DbCode
unfolding rewind get_header
answer_get db = do
  rewind
  s ← get
  valid ← on_array (get_header s.message)
  if valid then db.in_place else pure err_bad_encoding

-- `svc_get_request_decoder`
unfoldable pub get_request_decoder : App → M (Exchange Request) DbCode
get_request_decoder app = do
  set_service svc_get
  decoded ← decode_request app.decode_selective_access
  code ←
      if decoded
      then elim app.database [ none ↦ pure err_object_error | some db ↦ answer_get db ]
      else pure err_bad_encoding
  or_exception code

-- `gResponseNormalHeaderSize`
abbrev pub header_size : ℕ
header_size = 6

unfoldable pub response_tag : Service → ℕ
response_tag service = if is_set service then set_response_tag else action_response_tag

-- The optional return parameters of an ACTION: their header, and the jump over the bytes that the
-- database has written.
unfoldable pub return_parameters : ℕ → M Array Bool
return_parameters reply_size =
    if ltb 0 reply_size
    then (Array.write_u8 1 &&& Array.write_u8 0 &&& Array.writer_jump reply_size)
    else Array.write_u8 0

unfoldable pub response_start : Request → M Array Bool
unfolding response_tag
response_start r =
    Array.write_u8 (response_tag r.db_request.service)
    &&& Array.write_u8 1
    &&& Array.write_u8 r.sender_invoke_id

-- The response of SET and ACTION. The result of the first three calls is overwritten by that of
-- `svc_data_access_result_encoder`.
unfoldable pub response_encoder : Request → DbCode → ℕ → M Array Bool
unfolding response_start data_access_result_encoder
response_encoder r code reply_size = do
  response_start r
  data_access_result_encoder code
      &&& (if is_action r.db_request.service then return_parameters reply_size else pure true)

-- The output that SET and ACTION make, and the array that it is for the response.
abbrev pub output_window : Array → Window
output_window a = record {
  rd_index = 0;
  wr_index = 0;
  offset = (a.offset + header_size) % u32_mod;
  size = a.size;
}

abbrev pub response_array : Transfer → Array
response_array t = record {
  rd_index = t.output.rd_index;
  wr_index = 0;
  offset = (t.output.offset + u32_mod - header_size) % u32_mod;
  size = t.output.size;
  buff = t.input.buff;
}

-- The encoding of the response after the database has run.
unfoldable pub finish_answer : DbCode → Transfer → Exec (Exchange Request) DbCode
finish_answer code t = elim (response_encoder t.message code t.output.wr_index (response_array t)) [
  | ret valid out ↦ ret (if valid then ok else err_bad_encoding) (record {
    message = t.message;
    array = record t.input { wr_index = out.wr_index; buff = out.buff };
  })
  | fault ↦ fault
]

unfoldable pub answer_set_or_action : Database → M (Exchange Request) DbCode
answer_set_or_action db s =
    let t : Transfer = record {
      message = s.message;
      input = s.array;
      output = output_window s.array;
    } in
    elim (db.apart t) [ ret code t' ↦ finish_answer code t' | fault ↦ fault ]

-- `svc_set_or_action_decoder`
unfoldable pub set_or_action_decoder : App → M (Exchange Request) DbCode
set_or_action_decoder app = do
  decoded ← decode_request app.decode_selective_access
  code ←
      if decoded
      then elim app.database [ none ↦ pure err_object_error | some db ↦ answer_set_or_action db ]
      else pure err_bad_encoding
  or_exception code

-- `svc_set_request_decoder` and `svc_action_request_decoder`
unfoldable pub set_request_decoder : App → M (Exchange Request) DbCode
set_request_decoder app = set_service svc_set >> set_or_action_decoder app

unfoldable pub action_request_decoder : App → M (Exchange Request) DbCode
action_request_decoder app = set_service svc_action >> set_or_action_decoder app

-- The table `services`, and the loop over it.
pub record Handler : Type 0 where
  pub tag : ℕ
  pub decoder : M (Exchange Request) DbCode

unfoldable pub services : App → List Handler
services app =
    record { tag = get_request_tag; decoder = get_request_decoder app }
    ∷ record { tag = set_request_tag; decoder = set_request_decoder app }
    ∷ record { tag = action_request_tag; decoder = action_request_decoder app }
    ∷ []

unfoldable pub run_service : List Handler → ℕ → M (Exchange Request) ℕ
run_service [] tag = pure 0
run_service (h ∷ hs) tag =
    let rest = run_service hs tag in
    if h.tag == tag
    then (do code ← h.decoder; s ← get; pure (if is_ok code then s.array.wr_index else 0))
    else rest

-- `csm_services_init`
unfoldable pub services_init : Option Database → App → App
services_init db app = record app { database = db }

-- `csm_server_services_execute`: the number of bytes of the response.
unfoldable pub server_services_execute : App → M (Exchange Request) ℕ
server_services_execute app = elim app.database [
  | none ↦ pure 0
  | some db ↦ do
    tag ← on_array Array.read_u8
    elim tag [ none ↦ pure 0 | some t ↦ run_service (services app) t ]
]

-- `csm_services_hls_execute`
unfoldable pub hls_execute : App → M (Exchange Request) ℕ
hls_execute app = server_services_execute app
