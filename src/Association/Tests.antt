-- ===== src/Association/Tests.antt =====
-- Associations at concrete inputs: sessions with short buffers.
use cosemlib.Base.{
  Exec, fault, ℕ, ◌≡◌, ◌⊎◌, ◌↔◌, refl, true, false, List, [], ◌∷◌, some, arith, replicate, pure,
  ret, Returns,
}
use cosemlib.Base.Lists.{slice, splice, same_bytes}
use cosemlib.Base.Words.{get_be16}
use cosemlib.Array
use cosemlib.Association.Encoders
use cosemlib.Association.Encode.{encoder, encode_chain}
use cosemlib.Array.{Array, unread, get_byte, write_buff}
use cosemlib.Ber
use cosemlib.Ber.{Ber, first_tag}
use cosemlib.Association.{
  decode_ber, Association, Session, Hal, Config, Challenge, StateCf, Referencing, AuthLevel, Codec,
  always, aarq,
}
use cosemlib.Association.Decode.{codec, decode_chain, decoder}
use cosemlib.Association.UserInfo.{conformance_block}
use cosemlib.Association.Server.{is_granted, grant, check_password, init, server_execute}
use cosemlib.Association.States.{Step, serve, server_execute-Step, init-serve-Answered}
use cosemlib.Association.Security.{PasswordMatches, is_granted-associated, is_granted_no_password}
use cosemlib.Association.Faults.{header, decoder-Unknown}
use cosemlib.Association.Conformance.{conformance_block_shifted}

abbrev hal : Hal
hal = record {
  random_u8 = λ _ _ _. 8;
  lls_password = λ _ _. 49 ∷ 50 ∷ 51 ∷ [];
  system_title = replicate 8 1;
  junk = 170;
}

abbrev config : Config
config = record {
  llc = record { ssap = 16; dsap = 1 };
  conformance = 0x181F;
  is_auto_connected = 0;
}

abbrev challenge : ℕ → Challenge
challenge n = record { value = 49 ∷ 50 ∷ 51 ∷ replicate 61 0; size = n }

abbrev association : StateCf → AuthLevel → ℕ → Association
association st level n = record {
  state_cf = st;
  ref = Referencing.ln_ref;
  auth_level = level;
  client_app_title = replicate 8 0;
  server_app_title = replicate 8 0;
  handshake = record {
    ctos = challenge n;
    stoc = challenge 0;
    proposed_conformance = 0;
    client_max_receive_pdu_size = 0;
    server_max_receive_pdu_size = 0;
    accepted = false;
    result = 0;
  };
  config = some config;
}

-- The bytes, all written and none read, with memory behind them.
abbrev holding : List ℕ → ℕ → Array
holding bs n = record { rd_index = 0; wr_index = n; offset = 0; size = 12; buff = bs }

abbrev session : StateCf → AuthLevel → ℕ → Array → Session
session st level n a = record {
  asso = association st level n;
  ber = Ber.blank;
  array = a;
  drawn = 0;
}

abbrev nothing_written : Array
nothing_written = holding (0 ∷ 0 ∷ 0 ∷ 0 ∷ 0 ∷ 0 ∷ 0 ∷ 0 ∷ 0 ∷ 0 ∷ 0 ∷ 0 ∷ []) 0

abbrev low_session : Session
low_session = session StateCf.idle AuthLevel.low 3 nothing_written

abbrev granted : Session
granted = session StateCf.associated AuthLevel.low 3 nothing_written

-- Three bytes of the password match.
granted_run : is_granted hal low_session ≡ ret true granted
unfolding is_granted grant check_password splice same_bytes
granted_run = refl

is_granted-associated_example : (granted.asso.state_cf ≡ StateCf.associated) ↔ (
    (low_session.asso.auth_level ≡ AuthLevel.lowest)
    ⊎ (low_session.asso.auth_level ≡ AuthLevel.low) × PasswordMatches hal low_session)
is_granted-associated_example = is_granted-associated hal low_session refl granted_run

is_granted_no_password_example :
    (s' : Session) × (is_granted hal (session StateCf.idle AuthLevel.low 0 nothing_written)
      ≡ ret true s')
    × (s'.asso.state_cf ≡ StateCf.associated)
is_granted_no_password_example =
    is_granted_no_password hal (session StateCf.idle AuthLevel.low 0 nothing_written) config refl
      refl refl refl

-- A chain of one entry, whose decoder leaves nothing to read.
abbrev one_field : Codec
one_field = codec 0xA1 always (pure true)

abbrev at_field : ℕ → Session
at_field t = record low_session { ber = header t 0 }

abbrev bare : Session
bare =
    session StateCf.idle AuthLevel.lowest 0
      (holding (aarq ∷ 2 ∷ 0x85 ∷ 0 ∷ 0 ∷ 0 ∷ 0 ∷ 0 ∷ 0 ∷ 0 ∷ 0 ∷ 0 ∷ []) 4)

decoder-Unknown_example :
    Returns (decoder hal aarq bare) (λ r s'. (r ≡ true) × (s'.asso ≡ bare.asso))
unfolding unread
decoder-Unknown_example =
    decoder-Unknown hal 0x85 bare (ground arith) (ground arith) (ground arith) (ground arith)
      (ground arith) (ground arith)
      (record {
        rest = 0 ∷ 0 ∷ 0 ∷ 0 ∷ 0 ∷ 0 ∷ 0 ∷ 0 ∷ [];
        next = refl;
        written_up = ground arith;
        inside = ground arith;
      })
      refl

abbrev initiate : Session
initiate =
    session StateCf.idle AuthLevel.lowest 0
      (holding (0x5F ∷ 0x1F ∷ 4 ∷ 0 ∷ 0x10 ∷ 0x18 ∷ 0x1F ∷ 4 ∷ 0 ∷ 0 ∷ 0 ∷ 0 ∷ []) 9)

conformance_block_shifted_example : Returns (conformance_block hal 1 initiate) (λ r s'.
    (r ≡ true)
    × (s'.asso.handshake.proposed_conformance ≡ 0x1018)
    × (s'.asso.handshake.client_max_receive_pdu_size ≡ get_be16 0x1F 4)
    × (s'.array.rd_index ≡ 8))
conformance_block_shifted_example =
    conformance_block_shifted hal initiate 0x10 0x18 0x1F 4 0 (ground arith) (ground arith)
      (ground arith)
      (record {
        rest = 0 ∷ 0 ∷ 0 ∷ [];
        next = refl;
        written_up = ground arith;
        inside = ground arith;
      })

-- A release request on an association.
abbrev rlrq_packet : Array
rlrq_packet = holding (0x62 ∷ 0 ∷ 0 ∷ 0 ∷ 0 ∷ 0 ∷ 0 ∷ 0 ∷ 0 ∷ 0 ∷ 0 ∷ 0 ∷ []) 2

abbrev released : Session
released =
    session StateCf.idle AuthLevel.low 3
      (holding (0x63 ∷ 3 ∷ 0x80 ∷ 1 ∷ 0 ∷ 0 ∷ 0 ∷ 0 ∷ 0 ∷ 0 ∷ 0 ∷ 0 ∷ []) 5)

release_run :
    server_execute hal (session StateCf.associated AuthLevel.low 3 rlrq_packet) ≡ ret 5 released
unfolding server_execute get_byte slice write_buff splice
release_run = refl

server_execute-Step_example : Step StateCf.associated StateCf.idle
server_execute-Step_example =
    server_execute-Step hal (session StateCf.associated AuthLevel.low 3 rlrq_packet) release_run

-- The packet of four bytes, and then the release request.
abbrev packets : List Array
packets = bare.array ∷ rlrq_packet ∷ []

abbrev final_session : Exec Session (Unit {0}) → Session
final_session (ret x s) = s
final_session fault = bare

abbrev first_session : Session
first_session = record bare { asso = init bare.asso }

serve_run :
    serve hal packets first_session ≡ ret tt (final_session (serve hal packets first_session))
unfolding serve init decoder decode_ber Ber.decode Array.read_u8 slice decode_chain grant encoder
    Array.write_u8 splice encode_chain Encoders.app_context Ber.write_len Encoders.oid_context
    write_buff get_byte
serve_run = refl

init-serve-Answered_example :
    ((final_session (serve hal packets first_session)).asso.state_cf ≡ StateCf.idle)
    ⊎ ((final_session (serve hal packets first_session)).asso.state_cf ≡ StateCf.associated)
    ⊎ ((final_session (serve hal packets first_session)).asso.state_cf
        ≡ StateCf.association_pending)
init-serve-Answered_example = init-serve-Answered hal packets bare serve_run

abbrev waiting : Session
waiting = session StateCf.association_pending AuthLevel.gmac 8 nothing_written

pending_run : serve hal packets waiting ≡ ret tt (record waiting { array = rlrq_packet })
unfolding serve
pending_run = refl
