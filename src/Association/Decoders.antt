-- ===== src/Association/Decoders.antt =====
-- src/csm_association.c: the decoders of the fields of AARQ and AARE, but the user information.
use cosemlib.Base.{
  ℕ, Bool, true, false, ◌&&◌, List, Option, none, some, if◌then◌else◌, leb, ◌==◌, splice, M, pure,
  get, ◌>>=◌, ◌>>◌, ◌&&>◌,
}
use cosemlib.Array
use cosemlib.Array.{Array}
use cosemlib.Ber
use cosemlib.Association.{
  Association, Session, Hal, Handshake, Challenge, Referencing, AuthLevel, ln_ref, sn_ref,
  ln_ref_with_cyphering, sn_ref_with_cyphering, low, high, md5, sha1, gmac, sha256, on_array,
  decode_ber, set_asso, set_handshake, oid_header,
}

-- The contents of a bit string of two bytes with only the first bit: `acse_proto_version_decoder` reads
-- both bytes before it looks at them.
unfoldable pub proto_version : M Session Bool
proto_version = do
  s ← get
  if s.ber.length.length == 2
      then (on_array Array.read_u8 &&> λ unused.
          on_array Array.read_u8 &&> λ version. pure (unused == 7 && version == 0x80))
      else pure false

unfoldable pub app_context : M Session Bool
app_context = do s ← get; pure (s.ber.length.length == 9)

-- The identifiers that `acse_oid_decoder` knows.
abbrev pub referencing_of : ℕ → Option Referencing
referencing_of id =
    if id == 1
    then some ln_ref
    else if id == 2
    then some sn_ref
    else if id == 3
    then some ln_ref_with_cyphering
    else if id == 4
    then some sn_ref_with_cyphering
    else none

abbrev pub auth_level_of : ℕ → Option AuthLevel
auth_level_of id =
    if id == 1
    then some low
    else if id == 2
    then some high
    else if id == 3
    then some md5
    else if id == 4
    then some sha1
    else if id == 5
    then some gmac
    else if id == 6
    then some sha256
    else none

unfoldable pub store_referencing : Option Referencing → M Session Bool
store_referencing none = pure false
store_referencing (some r) = set_asso (λ a. record a { ref = r }) >> pure true

unfoldable pub store_auth_level : Option AuthLevel → M Session Bool
store_auth_level none = pure false
store_auth_level (some l) = set_asso (λ a. record a { auth_level = l }) >> pure true

-- `acse_oid_decoder`
unfoldable pub oid : M Session Bool
unfolding store_referencing store_auth_level
oid = do
  r ← on_array (Ber.decode_object_identifier oid_header)
  elim r [
    | none ↦ pure false
    | some p ↦
        if p.0 == 1
        then store_referencing (referencing_of p.1)
        else if p.0 == 2
        then store_auth_level (auth_level_of p.1)
        else pure false
  ]

-- `acse_req_decoder` looks at the first byte before it reads the second.
unfoldable pub sender_requirements : M Session Bool
sender_requirements = do
  s ← get
  if s.ber.length.length == 2
      then (on_array Array.read_u8 &&> λ unused.
          (if unused == 7
            then (on_array Array.read_u8 &&> λ bits. pure (bits == 0x80))
            else pure false))
      else pure false

-- The buffers that a field is copied to.
pub data Target : Type 0 where
  client_challenge server_challenge client_title server_title : Target

-- The bytes go to the front of the buffer, whatever the copy reports.
abbrev pub fill_challenge : List ℕ → Challenge → Challenge
fill_challenge bs c = record c { value = splice 0 bs c.value }

abbrev pub sized : ℕ → Challenge → Challenge
sized n c = record c { size = n }

abbrev pub on_challenge : Target → (Challenge → Challenge) → Handshake → Handshake
on_challenge client_challenge f h = record h { ctos = f h.ctos }
on_challenge server_challenge f h = record h { stoc = f h.stoc }
on_challenge _ f h = h

-- `acse_auth_value_decoder`: 8 to 64 bytes; the size is stored if the copy succeeds.
unfoldable pub auth_value : Target → M Session Bool
unfolding decode_ber
auth_value target = do
  decoded ← decode_ber
  s ← get
  let n = s.ber.length.length
  if decoded && leb 8 n && leb n 64 && s.ber.tag.tag == 0x80
      then (do
        (bs, copied) ← on_array (Array.read_buff n)
        set_handshake (on_challenge target (fill_challenge bs))
        if copied
            then (set_handshake (on_challenge target (sized (n))) >> pure true)
            else pure false)
      else pure false

abbrev pub fill_title : Target → List ℕ → Association → Association
fill_title client_title bs a = record a { client_app_title = splice 0 bs a.client_app_title }
fill_title server_title bs a = record a { server_app_title = splice 0 bs a.server_app_title }
fill_title _ bs a = a

-- `acse_system_title_decoder`
unfoldable pub app_title : Target → M Session Bool
unfolding decode_ber
app_title target = do
  decoded ← decode_ber
  s ← get
  if decoded && s.ber.length.length == 8 && s.ber.tag.id == 4
      then (do
        (bs, copied) ← on_array (Array.read_buff 8)
        set_asso (fill_title target bs)
        pure copied)
      else pure false

abbrev pub or_else : Option ℕ → ℕ → ℕ
or_else none d = d
or_else (some x) d = x

-- `acse_result_decoder`: the result is 0, accepted, where `csm_ber_read_u8` stores no value.
unfoldable pub result : M Session Bool
result = do
  r ← on_array Ber.read_u8
  if r.done
      then (set_handshake (λ h. record h { accepted = or_else r.value 0 == 0 }) >> pure true)
      else pure false

-- `acse_result_src_diag_decoder`: here the variable is not initialised.
unfoldable pub result_src_diag : Hal → M Session Bool
unfolding decode_ber
result_src_diag hal = do
  decoded ← decode_ber
  s ← get
  if decoded && s.ber.length.length == 3 && s.ber.tag.tag == 0xA1
      then (do
        r ← on_array Ber.read_u8
        if r.done
            then (set_handshake (λ h. record h { result = or_else r.value hal.junk }) >> pure true)
            else pure false)
      else pure false

-- `acse_requirements_decoder`
unfoldable pub requirements : M Session Bool
requirements = do
  s ← get
  if s.ber.length.length == 2
      then (on_array Array.read_u8 &&> λ bits.
          on_array Array.read_u8 &&> λ val. pure (bits == 7 && val == 0x80))
      else pure false

-- `acse_skip_decoder`
unfoldable pub skip_field : M Session Bool
skip_field = do
  s ← get
  (if s.ber.tag.is_primitive then on_array (Array.reader_jump s.ber.length.length) else pure true)
  pure true
