-- ===== src/Association.antt =====
-- src/csm_association.h: the state of an association, and the session in which its codecs run.
pub mod Decoders
pub mod UserInfo
pub mod Decode
pub mod Encoders
pub mod Encode
pub mod Server
pub mod Security
pub mod Faults
pub mod Keeps
pub mod States
pub mod Conformance
mod Tests
use cosemlib.Base.{
  ℕ, zero, suc, ◌+◌, Bool, true, false, List, [], ◌∷◌, Option, none, some, if◌then◌else◌, ◌==◌,
  Exec, ret, fault, M,
}
use cosemlib.Ber
use cosemlib.Ber.{Ber}
use cosemlib.Array.{Array}

-- `enum state_cf`
pub data StateCf : Type 0 where
  inactive idle association_pending associated association_release_pending : StateCf

-- `enum csm_referencing`
pub data Referencing : Type 0 where
  no_ref ln_ref sn_ref ln_ref_with_cyphering sn_ref_with_cyphering : Referencing

-- `enum csm_auth_level`
pub data AuthLevel : Type 0 where
  lowest low high md5 sha1 gmac sha256 : AuthLevel

abbrev pub referencing_id : Referencing → ℕ
referencing_id no_ref = 0
referencing_id ln_ref = 1
referencing_id sn_ref = 2
referencing_id ln_ref_with_cyphering = 3
referencing_id sn_ref_with_cyphering = 4

abbrev pub auth_level_id : AuthLevel → ℕ
auth_level_id lowest = 0
auth_level_id low = 1
auth_level_id high = 2
auth_level_id md5 = 3
auth_level_id sha1 = 4
auth_level_id gmac = 5
auth_level_id sha256 = 6

-- `enum csm_asso_result` as numbers, since the decoder stores any byte.
abbrev pub err_null : ℕ
err_null = 0

abbrev pub auth_not_recognized : ℕ
auth_not_recognized = 11

abbrev pub auth_failure : ℕ
auth_failure = 13

abbrev pub auth_required : ℕ
auth_required = 14

-- `csm_llc`, `csm_asso_config`, `csm_challenge`, `csm_asso_handshake` and `csm_asso_state`
pub record Llc : Type 0 where
  pub ssap : ℕ
  pub dsap : ℕ

pub record Config : Type 0 where
  pub llc : Llc
  pub conformance : ℕ
  pub is_auto_connected : ℕ

pub record Challenge : Type 0 where
  pub value : List ℕ
  pub size : ℕ

pub record Handshake : Type 0 where
  pub ctos : Challenge
  pub stoc : Challenge
  pub proposed_conformance : ℕ
  pub client_max_receive_pdu_size : ℕ
  pub server_max_receive_pdu_size : ℕ
  pub accepted : Bool
  pub result : ℕ

-- The pointer to the configuration may be NULL, `none`.
pub record Association : Type 0 where
  pub state_cf : StateCf
  pub ref : Referencing
  pub auth_level : AuthLevel
  pub client_app_title : List ℕ
  pub server_app_title : List ℕ
  pub handshake : Handshake
  pub config : Option Config

-- What the functions of the application give: random bytes by the number of the call, the password that
-- is written for a SAP, the system title; and the value of an uninitialised local variable.
pub record Hal : Type 0 where
  pub random_u8 : ℕ → ℕ → ℕ → ℕ
  pub lls_password : ℕ → ℕ → List ℕ
  pub system_title : List ℕ
  pub junk : ℕ

-- The state of a codec: the association, the local `csm_ber`, the array, and the random bytes drawn.
pub record Session : Type 0 where
  pub asso : Association
  pub ber : Ber
  pub array : Array
  pub drawn : ℕ

-- A function of the array, in a session.
abbrev pub on_array : {A : Type 0} → M Array A → M Session A
on_array m s = elim (m s.array) [ ret r a ↦ ret r (record s { array = a }) | fault ↦ fault ]

-- `csm_ber_decode(&ber, array)`
unfoldable pub decode_ber : M Session Bool
decode_ber s = elim (Ber.decode s.ber s.array) [
  | ret r a ↦ ret (r.0) (record s { ber = r.1; array = a })
  | fault ↦ fault
]

abbrev pub set_asso : (Association → Association) → M Session (Unit {0})
set_asso f s = ret tt (record s { asso = f s.asso })

abbrev pub set_handshake : (Handshake → Handshake) → M Session (Unit {0})
set_handshake f s = ret tt (record s { asso = record s.asso { handshake = f s.asso.handshake } })

-- `cOidHeader`
abbrev pub oid_header : List ℕ
oid_header = 0x60 ∷ 0x85 ∷ 0x74 ∷ 0x05 ∷ 0x08 ∷ []

-- `csm_asso_tag`
abbrev pub aarq : ℕ
aarq = 0x60

abbrev pub aare : ℕ
aare = 0x61

abbrev pub rlrq : ℕ
rlrq = 0x62

abbrev pub rlre : ℕ
rlre = 0x63

abbrev pub user_information : ℕ
user_information = 0xBE

-- `enum acse_context`
pub data Context : Type 0 where
  skip always opt sec : Context

-- `csm_asso_dec` and `csm_asso_enc`
pub record Codec : Type 0 where
  pub tag : ℕ
  pub context : Context
  pub run : M Session Bool
