-- ===== src/Association/Keeps/Decoders.antt =====
-- The state of the association under the decoders of src/csm_association.c.
use cosemlib.Base.{ℕ, refl, Bool, true, false, List, [], ◌∷◌, arith, get, ◌==◌, ◌&&◌}
use cosemlib.Association.{Hal, Codec, decode_ber, aarq}
use cosemlib.Association.Decoders.{
  proto_version, app_context, oid, sender_requirements, auth_value, client_challenge, app_title,
  client_title, skip_field, Target,
}
use cosemlib.Association.UserInfo.{
  user_info, conformance_block, vaa_name, initiate_body, initiate_apdu, read_if,
}
use cosemlib.Array
use cosemlib.Array.{Array, unread}
use cosemlib.Axdr
use cosemlib.Association.Decode.{aarq_decoders, decode_chain, decoder}
use cosemlib.Association.Keeps.{
  Keeps, Keeps->>=, Keeps-if, Keeps-pure, Keeps-&&>, on_array-Keeps, AllKeep,
}

decode_ber-Keeps : Keeps decode_ber
unfolding decode_ber
decode_ber-Keeps = record { run = λ s. ground arith }

proto_version-Keeps : Keeps proto_version
unfolding proto_version
proto_version-Keeps = record { run = λ s. ground arith }

app_context-Keeps : Keeps app_context
unfolding app_context
app_context-Keeps = record { run = λ s. ground arith }

oid-Keeps : Keeps oid
unfolding oid
oid-Keeps = record { run = λ s. ground arith }

sender_requirements-Keeps : Keeps sender_requirements
unfolding sender_requirements
sender_requirements-Keeps = record { run = λ s. ground arith }

auth_value-Keeps : (t : Target) → Keeps (auth_value t)
unfolding auth_value decode_ber
auth_value-Keeps t = record { run = λ s. ground arith }

app_title-Keeps : (t : Target) → Keeps (app_title t)
unfolding app_title decode_ber
app_title-Keeps client_title = record { run = λ s. ground arith }
app_title-Keeps t = record { run = λ s. ground arith }

skip_field-Keeps : Keeps skip_field
unfolding skip_field
skip_field-Keeps = record { run = λ s. ground arith }

conformance_block-Keeps : (hal : Hal) (tag : ℕ) → Keeps (conformance_block hal tag)
unfolding conformance_block
conformance_block-Keeps hal tag =
    Keeps->>= decode_ber-Keeps (λ decoded. record { run = λ s. ground arith })

vaa_name-Keeps : (byte : ℕ) (valid : Bool) → Keeps (vaa_name byte valid)
unfolding vaa_name
vaa_name-Keeps byte valid = record { run = λ s. ground arith }

read_if-Keeps : (valid : Bool) (byte : ℕ) → Keeps (read_if valid byte)
read_if-Keeps valid byte = record { run = λ s. ground arith }

initiate_body-Keeps : (hal : Hal) (tag : ℕ) → Keeps (initiate_body hal tag)
unfolding initiate_body
initiate_body-Keeps hal tag = Keeps->>= (read_if-Keeps true 0xFF) (λ a.
    Keeps->>= (Keeps-if (a.0 && a.1 == 1) (read_if-Keeps a.0 a.1) (Keeps-pure (a.0, a.1))) (λ b.
      Keeps->>= (read_if-Keeps b.0 b.1) (λ c.
        Keeps->>= (Keeps-if (c.0 && c.1 == 6) (conformance_block-Keeps hal tag) (Keeps-pure false))
          (λ valid. vaa_name-Keeps c.1 valid))))

initiate_apdu-Keeps : (hal : Hal) (tag : ℕ) → Keeps (initiate_apdu hal tag)
unfolding initiate_apdu
initiate_apdu-Keeps hal tag = Keeps-&&> (on_array-Keeps Array.read_u8) (λ kind.
    Keeps->>=
      (Keeps-if (kind == 1)
        (Keeps-&&> (on_array-Keeps Array.read_u8) (λ _. on_array-Keeps Axdr.rd_null))
        (Keeps-pure (kind == 8)))
      (λ valid. Keeps-if valid (initiate_body-Keeps hal tag) (Keeps-pure false)))

user_info-Keeps : (hal : Hal) (tag : ℕ) → Keeps (user_info hal tag)
unfolding user_info
user_info-Keeps hal tag = Keeps->>= decode_ber-Keeps (λ decoded.
    Keeps->>= {m = get} (record { run = λ s. refl })
      (λ s.
        Keeps-if (decoded && s.ber.tag.id == 4) (initiate_apdu-Keeps hal tag) (Keeps-pure false)))

decode_chain-Keeps : (cs : List Codec) → AllKeep cs → Keeps (decode_chain cs)
unfolding decode_chain
decode_chain-Keeps [] h = Keeps-pure true
decode_chain-Keeps (c ∷ cs) h =
    let rest = decode_chain-Keeps cs h.1 in
    Keeps->>= {m = get} (record { run = λ s. refl })
      (λ s.
        Keeps-if (s.ber.tag.tag == c.tag)
          (Keeps->>= h.0 (λ extracted.
            Keeps-if extracted
              (Keeps->>= decode_ber-Keeps (λ more. Keeps-if more rest (Keeps-pure false)))
              (Keeps-pure false)))
          rest)

aarq_decoders-AllKeep : (hal : Hal) → AllKeep (aarq_decoders hal)
aarq_decoders-AllKeep hal =
    let field = skip_field-Keeps in
    (
      proto_version-Keeps,
      (
        app_context-Keeps,
        (
          oid-Keeps,
          (
            field,
            (
              field,
              (
                field,
                (
                  field,
                  (
                    field,
                    (
                      field,
                      (
                        app_title-Keeps client_title,
                        (
                          field,
                          (
                            field,
                            (
                              field,
                              (
                                field,
                                (
                                  field,
                                  (
                                    sender_requirements-Keeps,
                                    (
                                      oid-Keeps,
                                      (
                                        auth_value-Keeps client_challenge,
                                        (field, (user_info-Keeps hal 1, (tt))),
                                      ),
                                    ),
                                  ),
                                ),
                              ),
                            ),
                          ),
                        ),
                      ),
                    ),
                  ),
                ),
              ),
            ),
          ),
        ),
      ),
    )

pub decoder-Keeps : (hal : Hal) → Keeps (decoder hal aarq)
unfolding decoder
decoder-Keeps hal = Keeps->>= decode_ber-Keeps (λ _.
    Keeps->>= {m = get} (record { run = λ s. refl })
      (λ s.
        Keeps-if (s.ber.length.length == unread s.array && s.ber.tag.tag == aarq)
          (Keeps->>= decode_ber-Keeps (λ decoded.
            Keeps-if decoded (decode_chain-Keeps (aarq_decoders hal) (aarq_decoders-AllKeep hal))
              (Keeps-pure false)))
          (Keeps-pure false)))
