-- ===== src/Association/Keeps/Encoders.antt =====
-- The state of the association under the encoders of src/csm_association.c.
use cosemlib.Base.{refl, ◌+◌, ◌-◌, Bool, true, false, List, [], ◌∷◌, arith, pure, ◌>>◌, get, ◌&&◌}
use cosemlib.Association.{Hal, Codec, aare}
use cosemlib.Array
use cosemlib.Array.{Array, unread}
use cosemlib.Association.Encoders
use cosemlib.Association.Encoders.{
  oid_context, oid_mechanism, resp_system_title, responder_auth_value, fill_random,
}
use cosemlib.Association.Encode.{
  is_skip, is_sec, is_lowest, aare_encoders, encode_chain, encoder, reset_writer,
}
use cosemlib.Base.Words.{low8, u32_mod}
use cosemlib.Association.Keeps.{
  Keeps, Keeps->>=, Keeps-if, Keeps-pure, on_array-run, on_array-Keeps, AllKeep,
}

oid_context-Keeps : Keeps oid_context
unfolding oid_context
oid_context-Keeps = record { run = λ s. ground arith }

encode_result-Keeps : Keeps Encoders.result
unfolding Encoders.result
encode_result-Keeps = record { run = λ s. ground arith }

encode_result_src_diag-Keeps : Keeps Encoders.result_src_diag
unfolding Encoders.result_src_diag
encode_result_src_diag-Keeps = record { run = λ s. ground arith }

oid_mechanism-Keeps : Keeps oid_mechanism
unfolding oid_mechanism
oid_mechanism-Keeps = record { run = λ s. ground arith }

responder_auth_value-Keeps : (hal : Hal) → Keeps (responder_auth_value hal)
unfolding responder_auth_value fill_random
responder_auth_value-Keeps hal = record { run = λ s. ground arith }

encode_user_info-Keeps : (response : Bool) → Keeps (Encoders.user_info response)
unfolding Encoders.user_info
encode_user_info-Keeps response = record { run = λ s. on_array-run s _ }

aare_encoders-AllKeep : (hal : Hal) → AllKeep (aare_encoders hal)
unfolding Encoders.app_context resp_system_title Encoders.requirements
aare_encoders-AllKeep hal = (
  on_array-Keeps _,
  (
    oid_context-Keeps,
    (
      encode_result-Keeps,
      (
        encode_result_src_diag-Keeps,
        (
          on_array-Keeps _,
          (
            on_array-Keeps _,
            (
              oid_mechanism-Keeps,
              (responder_auth_value-Keeps hal, (encode_user_info-Keeps true, (tt))),
            ),
          ),
        ),
      ),
    ),
  ),
)

encode_chain-Keeps : (cs : List Codec) → AllKeep cs → Keeps (encode_chain cs)
unfolding encode_chain
encode_chain-Keeps [] h = Keeps-pure true
encode_chain-Keeps (c ∷ cs) h =
    let rest = encode_chain-Keeps cs h.1 in
    Keeps->>= {m = get} (record { run = λ s. refl })
      (λ s. Keeps-if (is_skip c.context) rest (
        Keeps-if (is_lowest s.asso.auth_level && is_sec c.context) rest (
          Keeps->>= (on_array-Keeps (Array.write_u8 c.tag)) (λ tagged.
            Keeps-if tagged (Keeps->>= h.0 (λ done. Keeps-if done rest (Keeps-pure false))) rest))))

pub encoder-Keeps : (hal : Hal) → Keeps (encoder hal aare)
unfolding encoder
encoder-Keeps hal =
    Keeps->>= {m = reset_writer} (record { run = λ s. refl })
      (λ _. Keeps->>= (on_array-Keeps (Array.write_u8 aare)) (λ tagged.
        Keeps->>= (Keeps-if tagged (on_array-Keeps (Array.write_u8 0)) (Keeps-pure false)) (λ sized.
          Keeps-if sized
            (Keeps->>= (encode_chain-Keeps (aare_encoders hal) (aare_encoders-AllKeep hal)) (λ done.
              Keeps->>= {m = get} (record { run = λ s. refl })
                (λ s'.
                  Keeps-if done
                    (on_array-Keeps
                      (Array.set_byte 1 (low8 (s'.array.wr_index + u32_mod - 2)) >> pure true))
                    (Keeps-pure false))))
            (Keeps-pure false))))
