-- ===== src/Association/Encode.antt =====
-- src/csm_association.c: the encoder chains and `csm_asso_encoder`.
use cosemlib.Base.{
  ret, ℕ, ◌+◌, ◌-◌, Bool, true, false, ◌&&◌, List, [], ◌∷◌, if◌then◌else◌, ◌==◌, M, pure, get,
  ◌>>=◌, ◌>>◌,
}
use cosemlib.Base.Words.{u32_mod, low8}
use cosemlib.Array
use cosemlib.Association.{
  Session, Hal, Codec, Context, AuthLevel, skip, always, sec, on_array, aarq, user_information,
}
use cosemlib.Association.Decode.{codec}
use cosemlib.Association.Encoders.{
  app_context, oid_context, result, result_src_diag, resp_system_title, requirements, oid_mechanism,
  responder_auth_value, aarq_auth_value, user_info,
}

-- `aare_encoder_chain`
abbrev pub aare_encoders : Hal → List Codec
aare_encoders hal =
    codec 0xA1 always app_context
    ∷ codec 6 always oid_context
    ∷ codec 0xA2 always result
    ∷ codec 0xA3 always result_src_diag
    ∷ codec 0xA4 sec (resp_system_title hal)
    ∷ codec 0x88 sec requirements
    ∷ codec 0x89 sec oid_mechanism
    ∷ codec 0xAA sec (responder_auth_value hal)
    ∷ codec user_information always (user_info true)
    ∷ []

-- `aarq_encoder_chain`
abbrev pub aarq_encoders : Hal → List Codec
aarq_encoders hal =
    codec 0xA1 always app_context
    ∷ codec 6 always oid_context
    ∷ codec 0x8A sec requirements
    ∷ codec 0x8B sec oid_mechanism
    ∷ codec 0xAC sec (aarq_auth_value hal)
    ∷ codec user_information always (user_info false)
    ∷ []

abbrev pub is_skip : Context → Bool
is_skip skip = true
is_skip _ = false

abbrev pub is_sec : Context → Bool
is_sec sec = true
is_sec _ = false

abbrev pub is_lowest : AuthLevel → Bool
is_lowest AuthLevel.lowest = true
is_lowest _ = false

-- The loop: where the tag cannot be written the entry is passed over, and where its encoder fails the
-- loop is left. TRUE means that it came to its end.
unfoldable pub encode_chain : List Codec → M Session Bool
encode_chain [] = pure true
encode_chain (c ∷ cs) = do
  s ← get
  if is_skip c.context
      then encode_chain cs
      else if is_lowest s.asso.auth_level && is_sec c.context
      then encode_chain cs
      else (do
        tagged ← on_array (Array.write_u8 c.tag)
        if tagged
            then (do done ← c.run; if done then encode_chain cs else pure false)
            else encode_chain cs)

-- `array->wr_index = 0U`
abbrev pub reset_writer : M Session (Unit {0})
reset_writer s = ret tt (record s { array = record s.array { wr_index = 0 } })

-- `csm_asso_encoder`
unfoldable pub encoder : Hal → ℕ → M Session Bool
encoder hal tag = do
  reset_writer
  tagged ← on_array (Array.write_u8 tag)
  sized ← (if tagged then on_array (Array.write_u8 0) else pure false)
  if sized
      then (do
        done ← encode_chain (if tag == aarq then aarq_encoders hal else aare_encoders hal)
        s' ← get
        if done
            then on_array (Array.set_byte 1 (low8 (s'.array.wr_index + u32_mod - 2)) >> pure true)
            else pure false)
      else pure false
