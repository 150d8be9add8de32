-- ===== src/Services.antt =====
-- src/csm_services.c and src/csm_services.h: the requests and the responses of GET, SET and ACTION, and
-- the state in which a message is coded.
pub mod Coding
pub mod Server
pub mod Client
pub mod Takes
pub mod RoundTrip
pub mod Delivery
pub mod Replies
pub mod Decoded
pub mod Stable
pub mod Layout
pub mod Answers
pub mod Liveness
pub mod Wire
pub mod Serving
mod Tests
use cosemlib.Base.{ℕ, Bool, true, false, List, Option, none, some, Exec, ret, fault, M, ◌%◌, ◌+◌}
use cosemlib.Array
use cosemlib.Array.{Array, Read}
use cosemlib.Axdr.{CosemObject}
use cosemlib.Association.{Llc}

-- `enum csm_service`
pub data Service : Type 0 where
  svc_unkown svc_get svc_set svc_action svc_exception : Service

abbrev pub is_get : Service → Bool
is_get svc_get = true
is_get _ = false

abbrev pub is_set : Service → Bool
is_set svc_set = true
is_set _ = false

abbrev pub is_action : Service → Bool
is_action svc_action = true
is_action _ = false

-- `csm_opt_data`: the array, and whether the pointer to its bytes is NULL.
pub record OptData : Type 0 where
  pub enable : ℕ
  pub data_array : Array
  pub is_null : Bool

-- `csm_db_request`
pub record DbRequest : Type 0 where
  pub block_number : ℕ
  pub service : Service
  pub additional_data : OptData
  pub sel_access : OptData
  pub logical_name : CosemObject
  pub db_type : ℕ

-- `enum svc_request` as numbers, since the encoder has a branch for any other one.
abbrev pub svc_request_normal : ℕ
svc_request_normal = 0

abbrev pub svc_request_next : ℕ
svc_request_next = 1

-- `csm_request`
pub record Request : Type 0 where
  pub db_request : DbRequest
  pub sender_invoke_id : ℕ
  pub request_type : ℕ
  pub llc : Llc
  pub channel_id : ℕ

-- `csm_db_code`
pub data DbCode : Type 0 where
  ok ok_block err_object_error err_object_not_found err_bad_encoding : DbCode
  err_unauthorized_access err_temporary_failure err_data_content_not_ok : DbCode

abbrev pub is_ok : DbCode → Bool
is_ok ok = true
is_ok _ = false

-- The tags of the services in `enum xdlms_tag`
abbrev pub get_request_tag : ℕ
get_request_tag = 192

abbrev pub set_request_tag : ℕ
set_request_tag = 193

abbrev pub action_request_tag : ℕ
action_request_tag = 195

abbrev pub get_response_tag : ℕ
get_response_tag = 196

abbrev pub set_response_tag : ℕ
set_response_tag = 197

abbrev pub action_response_tag : ℕ
action_response_tag = 199

abbrev pub exception_response_tag : ℕ
exception_response_tag = 216

-- A message (a request, or a response) and the array that it is coded in.
pub record Exchange (R : Type 0) : Type 0 where
  pub message : R
  pub array : Array

abbrev pub has_value : Option ℕ → Bool
has_value none = false
has_value (some x) = true

module _ {R : Type 0} where
  -- A function of the array alone.
  abbrev pub on_array : {A : Type 0} → M Array A → M (Exchange R) A
  on_array m s = elim (m s.array) [
    | ret r a ↦ ret r (record { message = s.message; array = a })
    | fault ↦ fault
  ]

  abbrev pub update : (R → R) → M (Exchange R) (Unit {0})
  update f s = ret tt (record { message = f s.message; array = s.array })

  -- A number that is read into a field of the message, where it is written.
  abbrev stored : (ℕ → R → R) → Option ℕ → R → R
  stored f none r = r
  stored f (some x) r = f x r

  abbrev pub take_u8 : (ℕ → R → R) → M (Exchange R) Bool
  take_u8 f s = elim (Array.read_u8 s.array) [
    | ret r a ↦ ret (has_value r) (record { message = stored f r s.message; array = a })
    | fault ↦ fault
  ]

  abbrev pub take_read : M Array Read → (ℕ → R → R) → M (Exchange R) Bool
  take_read m f s = elim (m s.array) [
    | ret r a ↦ ret r.done (record { message = stored f r.value s.message; array = a })
    | fault ↦ fault
  ]

  -- The bytes are copied whatever the result is.
  abbrev pub take_buff : ℕ → (List ℕ → R → R) → M (Exchange R) Bool
  take_buff n f s = elim (Array.read_buff n s.array) [
    | ret r a ↦ ret (r.1) (record { message = f (r.0) s.message; array = a })
    | fault ↦ fault
  ]
