-- ===== src/Channel/Hls/Tests.antt =====
-- Both passes of HLS at concrete inputs: challenges of one byte, on the channel 1.
use mathlib.Core.Path.{subst}
use cosemlib.Base.{
  ℕ, sym, List, drop, length-take, length-append, ◌≡◌, refl, true, [], ◌∷◌, ◌++◌, some, arith, take,
  replicate, Returns, ret,
}
use cosemlib.Base.Words.{put_be32}
use cosemlib.Array.{Array, unread}
use cosemlib.Array.Append.{contents}
use cosemlib.Association.{Association, Challenge, Hal}
use cosemlib.Security.Cipher.{key}
use cosemlib.Security.Tag.{tag_of}
use cosemlib.Security.Tests.{vector_as_tag, request, tag, title}
use cosemlib.Channel.{Stack}
use cosemlib.Channel.Hls.{hls_pass3, hls_pass4, find_state}
use cosemlib.Channel.Hls.Check.{only_authenticates, bytes_of, Outcome, hls_pass3_lem}
use cosemlib.Channel.Hls.Answer.{answer_header, hls_pass4_lem}
use cosemlib.Security.{Gcm}
use cosemlib.Array.Consume.{Ahead}
use cosemlib.Channel.Hls.Mutual.{Side, Shared, IsChallenge, give, check, hls_pass3-hls_pass4}
use cosemlib.Channel.Tests.{association}

abbrev hal : Hal
hal = record {
  random_u8 = λ drawn low high. low;
  lls_password = λ ssap dsap. [];
  system_title = title;
  junk = 0;
}

abbrev challenge : Challenge
challenge = record { value = 5 ∷ replicate 63 0; size = 1 }

abbrev pending : Association
pending = record association {
  client_app_title = title;
  handshake = record association.handshake { ctos = challenge; stoc = challenge };
}

abbrev stack : Stack
stack = record {
  channels = record { request = request; asso = some 0 } ∷ [];
  assos = pending ∷ [];
  configs = [];
  is_set = true;
}

-- The answer behind 81 bytes, and a byte that it leaves free.
abbrev answer : Array
answer = record {
  rd_index = 0;
  wr_index = 17;
  offset = 81;
  size = 99;
  buff = replicate 81 0 ++ (16 ∷ 0 ∷ 0 ∷ 0 ∷ 7 ∷ (tag ++ (0 ∷ [])));
}

hls_pass3_lem_example :
    Returns (hls_pass3 hal vector_as_tag request stack (record { array = answer; context = [] })) (
      Outcome
        (only_authenticates 16)
        (take 12 (
            tag_of vector_as_tag request
              (title ++ put_be32 7)
              (16 ∷ key vector_as_tag request ++ bytes_of challenge)
              [])
          ≡ tag)
        81)
unfolding put_be32 unread find_state
hls_pass3_lem_example =
    hls_pass3_lem hal vector_as_tag request stack pending 16 7 tag answer [] (ground arith)
      (record { rest = 0 ∷ []; next = refl; written_up = omega arith; inside = omega arith }) refl
      refl (omega arith) (omega arith) refl (omega arith) (omega arith) (omega arith) refl

abbrev room : Array
room = record { rd_index = 0; wr_index = 0; offset = 81; size = 102; buff = replicate 102 0 }

hls_pass4_lem_example :
    (b : Array) × (hls_pass4 hal vector_as_tag request stack (record { array = room; context = [] })
      ≡ ret true (record { array = b; context = title ++ put_be32 0x01234567 }))
    × (b.offset ≡ 81)
    × (b.rd_index ≡ 0)
    × (contents b ≡ answer_header ++ (title ++ put_be32 0x01234567))
unfolding put_be32 find_state
hls_pass4_lem_example =
    hls_pass4_lem hal vector_as_tag request stack pending room [] (ground arith) refl refl
      (omega arith) (omega arith) refl (omega arith) (omega arith) (omega arith) refl refl

-- A cipher whose tag is the initialisation vector, filled up to 16 bytes.
abbrev padded : Gcm (List ℕ)
padded = record vector_as_tag {
  gcm_finish = λ channel context. (take 16 (context ++ replicate 16 0), context);
}

abbrev side : Side (List ℕ)
side = record {
  hal = hal;
  gcm = padded;
  request = request;
  stack = stack;
  asso = pending;
  context = [];
}

side-Shared : Shared side side
side-Shared = record {
  same_key = refl;
  same_tag = λ iv aad. refl;
  long_tag = λ iv aad. omega (
    arith,
    length-take 12 (take 16 (iv ++ replicate 16 0)),
    length-take 16 (iv ++ replicate 16 0),
    length-append iv (replicate 16 0),
  );
  same_title = refl;
  same_challenge = refl;
}

challenge-IsChallenge : IsChallenge challenge
challenge-IsChallenge = record { in_value = omega arith; from_1 = omega arith; to_64 = omega arith }

given :
    (b : Array) × (give side room
      ≡ ret true (record { array = b; context = title ++ put_be32 0x01234567 }))
    × (contents b ≡ answer_header ++ (title ++ put_be32 0x01234567))
unfolding put_be32 find_state
given =
    let (b, run, place, start, bytes) =
      hls_pass4_lem hal padded request stack pending room [] (ground arith) refl refl (omega arith)
        (omega arith) refl (omega arith) (omega arith) (omega arith) refl refl in
    (b, run, bytes)

-- The bytes that were given, without the tag and the length of their octet string.
abbrev returned : Array
returned = record answer {
  buff =
      replicate 81 0
      ++ (16 ∷ (put_be32 0x01234567 ++ (title ++ (put_be32 0x01234567 ++ (0 ∷ [])))));
}

returned-Ahead : Ahead (drop 2 (contents (given.0))) returned
unfolding put_be32
returned-Ahead =
    subst (λ xs. Ahead (drop 2 xs) returned) (sym (given.2))
      (record { rest = 0 ∷ []; next = refl; written_up = omega arith; inside = omega arith })

hls_pass3-hls_pass4_example :
    Returns (check side returned) (λ r s. (r ≡ true) × (s.array.offset ≡ 81))
unfolding put_be32 unread find_state
hls_pass3-hls_pass4_example =
    hls_pass3-hls_pass4 side side room (given.0) returned (title ++ put_be32 0x01234567) side-Shared
      refl refl refl challenge-IsChallenge challenge-IsChallenge (ground arith) refl refl
      (omega arith) (omega arith) (given.1) (ground arith) returned-Ahead refl (omega arith)
