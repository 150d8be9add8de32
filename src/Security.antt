-- ===== src/Security.antt =====
-- src/csm_security.c and src/csm_security.h: the protection of a packet with GCM.
pub mod Cipher
pub mod Tag
pub mod Untagged
pub mod Seal
pub mod Tests
use cosemlib.Base.{
  ℕ, ◌+◌, ◌-◌, ◌%◌, ◌/◌, ◌^◌, Bool, true, false, not, ◌&&◌, List, [], ◌∷◌, ◌++◌, Option, none, some,
  if◌then◌else◌, ltb, leb, ◌==◌, length, take, slice, same_bytes, Exec, ret, fault, M, pure, crash,
  get, ◌>>=◌, ◌>>◌,
}
use cosemlib.Base.Words.{put_be32}
use cosemlib.Array
use cosemlib.Array.{Array, Read, unread, peek, poke}
use cosemlib.Services.{Request}

-- `csm_sec_result`
pub data SecResult : Type 0 where
  sec_ok auth_failure crypt_failure sec_error : SecResult

-- `csm_sec_control_byte`, by its bits.
abbrev pub authentication : ℕ → Bool
authentication sc = sc / 16 % 2 == 1

abbrev pub encryption : ℕ → Bool
encryption sc = sc / 32 % 2 == 1

-- The functions of the application: `csm_sys_get_key(sap, CSM_SEC_GAK)`, and `csm_sys_gcm_init`,
-- `csm_sys_gcm_update` and `csm_sys_gcm_finish` on a context; the flag of `gcm_init` is CSM_SEC_DECRYPT.
pub record Gcm (G : Type 0) : Type 0 where
  pub get_key : ℕ → List ℕ
  pub gcm_init : ℕ → ℕ → Bool → List ℕ → List ℕ → G → G
  pub gcm_update : ℕ → List ℕ → G → List ℕ × G
  pub gcm_finish : ℕ → G → List ℕ × G

-- The array, and the context of the application.
pub record Sealed (G : Type 0) : Type 0 where
  pub array : Array
  pub context : G

-- What is to be done with the bytes after the header: how many are ciphered, how many are additional
-- authenticated data, and where a tag stands behind the header.
pub record Layout : Type 0 where
  pub data_size : ℕ
  pub aad_size : ℕ
  pub tag_at : Option ℕ
  pub retcode : SecResult

abbrev layout : ℕ → ℕ → Option ℕ → SecResult → Layout
layout n m t r = record { data_size = n; aad_size = m; tag_at = t; retcode = r }

-- The sizes by the control byte, where `n` bytes are unread.
unfoldable pub decrypt_layout : ℕ → ℕ → Layout
decrypt_layout sc n =
    if encryption sc
    then (if authentication sc
        then (if ltb 12 n then layout (n - 12) 17 none sec_ok else layout n 0 none sec_error)
        else layout n 0 none sec_ok)
    else (if authentication sc
        then (if leb 12 n
            then layout 0 (17 + (n - 12)) (some (n - 12)) sec_ok
            else layout 0 0 none sec_error)
        else layout 0 0 none sec_ok)

unfoldable pub encrypt_layout : ℕ → ℕ → Layout
encrypt_layout sc n =
    if encryption sc
    then (if authentication sc
        then (if ltb 12 n
            then layout (n - 12) 17 (some (n - 12)) sec_ok
            else layout n 0 none sec_error)
        else layout n 0 none sec_ok)
    else (if authentication sc
        then (if ltb 0 n then layout 0 (17 + n) (some n) sec_ok else layout 0 0 none sec_error)
        else layout 0 0 none sec_ok)

module _ {G : Type 0} (gcm : Gcm G) (request : Request) where
  abbrev pub on_array : {A : Type 0} → M Array A → M (Sealed G) A
  on_array m s = elim (m s.array) [ ret r a ↦ ret r (record s { array = a }) | fault ↦ fault ]

  abbrev run_init : Bool → List ℕ → List ℕ → M (Sealed G) (Unit {0})
  run_init decrypts iv aad s = ret tt (record s {
    context = gcm.gcm_init request.channel_id request.llc.dsap decrypts iv aad s.context;
  })

  abbrev run_update : List ℕ → M (Sealed G) (List ℕ)
  run_update bytes s =
      let r = gcm.gcm_update request.channel_id bytes s.context in
      ret (r.0) (record s { context = r.1 })

  abbrev run_finish : M (Sealed G) (List ℕ)
  run_finish s =
      let r = gcm.gcm_finish request.channel_id s.context in ret (r.0) (record s { context = r.1 })

  -- The AAD is put in front of the data, over the header and what is before it, and the data are
  -- ciphered in place; the result is the tag. A place before the buffer is a fault.
  unfoldable pub cipher : Bool → List ℕ → ℕ → Layout → M (Sealed G) (List ℕ)
  cipher decrypts iv sc l = do
    s ← get
    let start = Array.index s.array s.array.rd_index
    if ltb start 17 then crash else (do
      on_array (poke (start - 17) (sc ∷ take 16 (gcm.get_key request.llc.dsap)))
      aad ← on_array (peek (start - 17) l.aad_size)
      run_init decrypts iv aad
      input ← on_array (peek start l.data_size)
      output ← run_update input
      on_array (poke start (take l.data_size output))
      run_finish)

  abbrev pub read_or : ℕ → Option ℕ → ℕ
  read_or junk none = junk
  read_or junk (some b) = b

  -- The tag of the packet, where the layout names its place, is compared with the computed one.
  unfoldable pub check_tag : Layout → List ℕ → M (Sealed G) SecResult
  check_tag l tag s = elim l.tag_at [
    | none ↦ pure l.retcode s
    | some i ↦
        (do
          received ← on_array (peek (Array.index s.array s.array.rd_index + i) 12)
          pure (if same_bytes (take 12 tag) received then l.retcode else auth_failure))
          s
  ]

  unfoldable pub decrypt_by : List ℕ → ℕ → Layout → M (Sealed G) SecResult
  decrypt_by iv sc l = cipher true iv sc l >>= check_tag l

  -- `csm_sec_auth_decrypt`; where the header cannot be read, its variables are not initialised.
  unfoldable pub auth_decrypt : List ℕ → ℕ → ℕ → M (Sealed G) SecResult
  auth_decrypt title sc_junk ic_junk = do
    first ← on_array Array.read_u8
    counter ← on_array Array.read_u32
    let sc = read_or sc_junk first
    let iv = take 8 title ++ put_be32 (read_or ic_junk counter.value)
    s ← get
    decrypt_by iv sc (decrypt_layout sc (unread s.array))

  -- `csm_sec_auth_encrypt`
  unfoldable pub auth_encrypt : List ℕ → ℕ → ℕ → M (Sealed G) SecResult
  auth_encrypt title sc ic = do
    s ← get
    let l = encrypt_layout sc (unread s.array)
    tag ← cipher false (take 8 title ++ put_be32 ic) sc l
    on_array (Array.writer_jump l.data_size)
    elim l.tag_at [
      | none ↦ pure l.retcode
      | some i ↦ on_array (Array.write_buff (take 12 tag)) >> pure l.retcode
    ]
