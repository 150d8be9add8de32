-- ===== src/Association/Decode.antt =====
-- src/csm_association.c: the decoder chains and `csm_asso_decoder`.
use cosemlib.Base.{
  ℕ, Bool, true, false, ◌&&◌, List, [], ◌∷◌, if◌then◌else◌, ◌==◌, M, pure, get, ◌>>=◌,
}
use cosemlib.Array.{unread}
use cosemlib.Association.{
  Session, Hal, Codec, Context, skip, always, opt, sec, decode_ber, aarq, user_information,
}
use cosemlib.Association.Decoders.{
  proto_version, app_context, oid, sender_requirements, auth_value, client_challenge,
  server_challenge, app_title, client_title, server_title, result, result_src_diag, requirements,
  skip_field,
}
use cosemlib.Association.UserInfo.{user_info}

abbrev pub codec : ℕ → Context → M Session Bool → Codec
codec t c m = record { tag = t; context = c; run = m }

-- `aarq_decoder_chain`
abbrev pub aarq_decoders : Hal → List Codec
aarq_decoders hal =
    codec 0x80 opt proto_version
    ∷ codec 0xA1 always app_context
    ∷ codec 6 always oid
    ∷ codec 0xA2 skip skip_field
    ∷ codec 0xA3 skip skip_field
    ∷ codec 0xA4 skip skip_field
    ∷ codec 2 skip skip_field
    ∷ codec 0xA5 skip skip_field
    ∷ codec 2 skip skip_field
    ∷ codec 0xA6 opt (app_title client_title)
    ∷ codec 0xA7 skip skip_field
    ∷ codec 0xA8 skip skip_field
    ∷ codec 2 skip skip_field
    ∷ codec 0xA9 skip skip_field
    ∷ codec 2 skip skip_field
    ∷ codec 0x8A opt sender_requirements
    ∷ codec 0x8B opt oid
    ∷ codec 0xAC opt (auth_value client_challenge)
    ∷ codec 0xBD opt skip_field
    ∷ codec user_information opt (user_info hal 1)
    ∷ []

-- `aare_decoder_chain`
abbrev pub aare_decoders : Hal → List Codec
aare_decoders hal =
    codec 0x80 opt proto_version
    ∷ codec 0xA1 always app_context
    ∷ codec 6 always oid
    ∷ codec 0xA2 always result
    ∷ codec 0xA3 always (result_src_diag hal)
    ∷ codec 0xA4 sec (app_title server_title)
    ∷ codec 0x88 sec requirements
    ∷ codec 0x89 sec oid
    ∷ codec 0xAA sec (auth_value server_challenge)
    ∷ codec user_information always (user_info hal 8)
    ∷ []

-- The main loop over the entries left, while the result is TRUE. An entry whose tag is not the one at hand
-- is passed over, whatever its context: the branch for a mandatory field prints a message only, and no
-- level is below the lowest one. After a field the next header is decoded.
unfoldable pub decode_chain : List Codec → M Session Bool
decode_chain [] = pure true
decode_chain (c ∷ cs) = do
  s ← get
  if s.ber.tag.tag == c.tag
      then (do
        extracted ← c.run
        if extracted
            then (do more ← decode_ber; if more then decode_chain cs else pure false)
            else pure false)
      else decode_chain cs

-- `csm_asso_decoder`; the result of the first decoding is not looked at.
unfoldable pub decoder : Hal → ℕ → M Session Bool
decoder hal tag = do
  _ ← decode_ber
  s ← get
  if s.ber.length.length == unread s.array && s.ber.tag.tag == tag
      then (do
        decoded ← decode_ber
        if decoded
            then decode_chain (if tag == aarq then aarq_decoders hal else aare_decoders hal)
            else pure false)
      else pure false
