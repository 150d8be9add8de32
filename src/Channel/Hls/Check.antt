-- ===== src/Channel/Hls/Check.antt =====
-- The third pass: when `csm_channel_hls_pass3` accepts the answer of a client.
use cosemlib.Base.{
  ℕ, ◌+◌, ◌-◌, ◌%◌, ◌≤◌, ◌<◌, ◌≡◌, ◌↔◌, refl, sym, ap, ◌∙◌, Bool, true, false, not, ◌&&◌, List, [],
  ◌∷◌, ◌++◌, some, arith, length, take, drop, drop-splice, length-splice, length-append,
  length-take, append_assoc, leb, le→leb, ◌⊎◌, inl, inr, Bool-cases, Returns-map, if◌then◌else◌,
  Returns, Returns-bind, Exec, ret, ◌>>=◌,
}
use cosemlib.Base.Words.{u32_mod, put_be32}
use cosemlib.Array.{Array, unread, writer_jump}
use cosemlib.Array.Bounds.{IsValid}
use cosemlib.Array.Append.{
  append, Emits, Emits->>, write_u8-Emits, write_u32-Emits, write_buff-Emits,
}
use cosemlib.Array.Consume.{skip, Ahead, Ahead-left, read_u8_next, read_u32-Reads}
use cosemlib.Association.{Association, Challenge, Hal}
use cosemlib.Services.{Request}
use cosemlib.Security.{
  SecResult, Gcm, Sealed, on_array, sec_ok, authentication, encryption, auth_decrypt,
}
use cosemlib.Security.Cipher.{key, behind_header}
use cosemlib.Security.Tag.{tag_of, auth_decrypt_lem}
use cosemlib.Security.Untagged.{auth_decrypt_untagged}
use cosemlib.Channel.{Stack}
use cosemlib.Channel.Hls.{
  window, write_challenge, fake_packet, check_answer, sized_answer, on_state, find_state, is_sec_ok,
  max_hls_size, hls_pass3,
}

-- The bytes of a challenge.
abbrev pub bytes_of : Challenge → List ℕ
bytes_of c = take c.size c.value

pub length-bytes_of : (c : Challenge) → c.size ≤ length c.value → length (bytes_of c) ≡ c.size
length-bytes_of c h = omega (arith, length-take c.size c.value)

pub write_challenge-Emits :
    (c : Challenge) → c.size ≤ length c.value → Emits (write_challenge c) (bytes_of c)
unfolding write_challenge
write_challenge-Emits c h = record {
  run = λ a v r. ground (arith, (write_buff-Emits (bytes_of c)).run a v r);
}

-- The header, the challenge, and room for the tag.
abbrev header : ℕ → ℕ → Challenge → List ℕ
header sc ic stoc = ((sc ∷ []) ++ put_be32 ic) ++ bytes_of stoc

fake_packet-run :
    (sc ic : ℕ) (stoc : Challenge) (a : Array)
    → IsValid a
    → stoc.size ≤ length stoc.value
    → a.offset + a.wr_index + (17 + stoc.size) < a.size
    → fake_packet sc ic stoc a
      ≡ ret true
          (record (append (header sc ic stoc) a) { wr_index = a.wr_index + (17 + stoc.size) })
unfolding fake_packet put_be32 writer_jump
fake_packet-run sc ic stoc a v h room =
    let size = length-bytes_of stoc h in
    let front =
      Emits->> (Emits->> (write_u8-Emits sc) (write_u32-Emits ic)) (write_challenge-Emits stoc h) in
    rw (front.run a v (omega (arith, size, room))) (ground (arith, size))

-- The array that `csm_sec_auth_decrypt` gets: the whole packet is ahead in it, with the tag that was received.
record Prepared (sc ic : ℕ) (stoc : Challenge) (received : List ℕ) (w : Array) : Type 0 where
  packet : Array
  run : fake_packet sc ic stoc w ≡ ret true packet
  valid : IsValid packet
  ahead : Ahead (sc ∷ (put_be32 ic ++ (bytes_of stoc ++ received))) packet
  size : unread packet ≡ 17 + stoc.size
  place : packet.offset + packet.rd_index ≡ w.offset

fake_packet-Prepared :
    (sc ic : ℕ) (stoc : Challenge) (received rest : List ℕ) (offset : ℕ) (a : Array)
    → IsValid (window offset a)
    → stoc.size ≤ length stoc.value
    → length received ≡ 12
    → offset + (17 + stoc.size) < a.size
    → drop (offset + (5 + stoc.size)) a.buff ≡ received ++ rest
    → Prepared sc ic stoc received (window offset a)
unfolding put_be32 unread
fake_packet-Prepared sc ic stoc received rest offset a v h twelve room next =
    let w = window offset a in
    let bytes = bytes_of stoc in
    let size = length-bytes_of stoc h in
    let front = header sc ic stoc in
    let total = length-append bytes received in
    let packet = record (append front w) { wr_index = 17 + stoc.size } in
    let wr : 0 + (17 + stoc.size) ≡ 17 + stoc.size = omega arith in
    let place : offset + 0 ≡ offset = omega arith in
    let behind : offset + 0 + length front ≡ offset + (5 + stoc.size) = omega (arith, size) in
    record {
      packet = packet;
      run = rw (fake_packet-run sc ic stoc w v h (omega (arith, room))) (ground (arith, wr));
      valid = omega (arith, v.fits, v.small, length-splice (offset + 0) front a.buff, room);
      ahead = record {
        rest = rest;
        next =
            drop-splice (offset + 0) front a.buff (omega (arith, size, v.fits, room))
            ∙ ap (λ t. front ++ t) (ap (λ k. drop k a.buff) behind ∙ next)
            ∙ ap (λ t. sc ∷ (put_be32 ic ++ t)) (sym (append_assoc bytes received rest));
        written_up = omega (arith, size, total, twelve);
        inside = omega (arith, size, total, twelve, room);
      };
      size = ground arith;
      place = place;
    }

-- The run of the pass over that packet: the array is back in its place, and the result is the one of
-- `csm_sec_auth_decrypt`.
abbrev Decided : {G : Type 0} → (SecResult → Type 0) → ℕ → Bool → Sealed G → Type 0
Decided P offset r s = (c : SecResult) × (r ≡ is_sec_ok c) × P c × (s.array.offset ≡ offset)

is_sec_ok_iff : (c : SecResult) → (is_sec_ok c ≡ true) ↔ (c ≡ sec_ok)
is_sec_ok_iff c = ground arith

-- Whether the control byte asks for authentication alone.
abbrev pub only_authenticates : ℕ → Bool
only_authenticates sc = authentication sc && not (encryption sc)

-- The pass accepts where the control byte does not ask for authentication alone, or where `Tag` holds.
abbrev pub Outcome : {G : Type 0} → Bool → Type 0 → ℕ → Bool → Sealed G → Type 0
Outcome only Tag offset r s = ((r ≡ true) ↔ ((only ≡ false) ⊎ Tag)) × (s.array.offset ≡ offset)

module _ {G : Type 0} (only : Bool) (Tag : Type 0) (offset : ℕ) (run : Exec (Sealed G) Bool) where
  accepts_tag :
      only ≡ true
      → Returns run (Decided (λ c. (c ≡ sec_ok) ↔ Tag) offset)
      → Returns run (Outcome only Tag offset)
  accepts_tag h d =
      Returns-map {P = Decided (λ c. (c ≡ sec_ok) ↔ Tag) offset} (Outcome only Tag offset) run d
        (λ r s (c, e, p, o). (
          (
            (λ yes_r. inr (p.0 ((is_sec_ok_iff c).0 (sym e ∙ yes_r)))),
            (λ side. elim side [ inl other ↦ cc | inr tag ↦ e ∙ (is_sec_ok_iff c).1 (p.1 tag) ]),
          ),
          o,
        ))

  accepts_any :
      only ≡ false
      → Returns run (Decided (λ c. c ≡ sec_ok) offset)
      → Returns run (Outcome only Tag offset)
  accepts_any h d =
      Returns-map {P = Decided (λ c. c ≡ sec_ok) offset} (Outcome only Tag offset) run d
        (λ r s (c, e, p, o). (((λ yes_r. inl h), (λ side. e ∙ (is_sec_ok_iff c).1 p)), o))

module _ {G : Type 0} (hal : Hal) (gcm : Gcm G) (request : Request) where
  check_answer-Decided :
      (P : SecResult → Type 0) (asso : Association) (sc ic : ℕ) (received rest : List ℕ) (a : Array)
      (ctx : G)
      → IsValid a
      → length received ≡ 12
      → drop (a.offset + a.rd_index) a.buff ≡ received ++ rest
      → a.offset + a.rd_index + 12 < a.size
      → 5 + asso.handshake.stoc.size ≤ a.offset + a.rd_index
      → asso.handshake.stoc.size ≤ length asso.handshake.stoc.value
      → ((p : Array)
          → IsValid p
          → Ahead (sc ∷ (put_be32 ic ++ (bytes_of asso.handshake.stoc ++ received))) p
          → unread p ≡ 17 + asso.handshake.stoc.size
          → p.offset + p.rd_index ≡ a.offset + a.rd_index - (5 + asso.handshake.stoc.size)
          → Returns
              (auth_decrypt gcm request asso.client_app_title hal.junk hal.junk
                (record { array = p; context = ctx }))
              (λ c s. P c))
      → Returns
          (check_answer hal gcm request asso sc ic (record { array = a; context = ctx }))
          (Decided P a.offset)
  unfolding check_answer
  check_answer-Decided P asso sc ic received rest a ctx v twelve next room before h use_packet =
      let stoc = asso.handshake.stoc in
      let offset = a.offset + a.rd_index - (5 + stoc.size) in
      let place : (a.offset + a.rd_index + u32_mod - (5 + stoc.size)) % u32_mod ≡ offset =
        omega (arith, v.small, before, room) in
      let w : IsValid (window offset a) = omega (arith, v.fits, v.small, room) in
      let here : offset + (5 + stoc.size) ≡ a.offset + a.rd_index = omega (arith, before) in
      let ready =
        fake_packet-Prepared sc ic stoc received rest offset a w h twelve
          (omega (arith, before, room)) (ap (λ k. drop k a.buff) here ∙ next) in
      rw (◌>>=◌, place, on_array, ready.run)
        (Returns-bind (Decided P a.offset)
          (auth_decrypt gcm request asso.client_app_title hal.junk hal.junk
            (record { array = ready.packet; context = ctx }))
          _ (use_packet ready.packet ready.valid ready.ahead ready.size ready.place)
          (λ c s p. (c, refl, p, refl)))

  -- An answer of the right length, behind enough room, in a buffer that it does not fill, on a channel with an
  -- association whose challenge has 1 to 64 bytes, with a key of 16 bytes: `csm_channel_hls_pass3` returns with
  -- the array in its place, and accepts it exactly when its control byte does not ask for authentication alone
  -- or its 12 last bytes are the first 12 of the tag that the cipher gives for the vector of the client's
  -- title and the counter, with the control byte, the key and the server's challenge as its data.
  pub hls_pass3_lem :
      (stack : Stack) (asso : Association) (sc ic : ℕ) (received : List ℕ) (a : Array) (ctx : G)
      → IsValid a
      → Ahead (sc ∷ (put_be32 ic ++ received)) a
      → unread a ≡ 17
      → length received ≡ 12
      → ic < u32_mod
      → max_hls_size ≤ a.offset
      → find_state stack request ≡ some asso
      → asso.handshake.stoc.size ≤ length asso.handshake.stoc.value
      → 1 ≤ asso.handshake.stoc.size
      → asso.handshake.stoc.size ≤ 64
      → length (key gcm request) ≡ 16
      → Returns (hls_pass3 hal gcm request stack (record { array = a; context = ctx })) (
          Outcome
            (only_authenticates sc)
            (take 12 (
                tag_of gcm request
                  (take 8 asso.client_app_title ++ put_be32 ic)
                  (sc ∷ key gcm request ++ bytes_of asso.handshake.stoc)
                  ctx)
              ≡ received)
            a.offset)
  unfolding hls_pass3 sized_answer put_be32 unread
  hls_pass3_lem stack asso sc ic received a ctx v h n twelve small high found long nonempty short
        k =
      let b = skip 4 (skip 1 a) in
      let (vb, behind) = behind_header sc ic received v h in
      let first = read_u8_next sc (put_be32 ic ++ received) v h in
      let ahead = Ahead-left (put_be32 ic) received first.2 in
      let counter = (read_u32-Reads ic small).run _ first.1 ahead in
      let iv = take 8 asso.client_app_title ++ put_be32 ic in
      let challenge = bytes_of asso.handshake.stoc in
      let length_c = length-bytes_of asso.handshake.stoc long in
      let total = length-append challenge received in
      let Tag =
        (take 12 (tag_of gcm request iv (sc ∷ key gcm request ++ challenge) ctx) ≡ received) in
      let run = check_answer hal gcm request asso sc ic (record { array = b; context = ctx }) in
      let size : unread b ≡ 12 = ground (arith, n) in
      let room : leb max_hls_size a.offset ≡ true = le→leb _ _ high in
      rw (◌>>=◌, on_array, first.0, counter, size, room, if◌then◌else◌, on_state, found)
        (elim (Bool-cases (only_authenticates sc)) [
          | inl only ↦ accepts_tag (only_authenticates sc) Tag a.offset run only (
              check_answer-Decided (λ c. (c ≡ sec_ok) ↔ Tag) asso sc ic received behind.rest b ctx
                vb twelve behind.next (omega (arith, behind.inside, twelve))
                (omega (arith, high, short)) long
                (λ p vp hp np place.
                  auth_decrypt_lem gcm request asso.client_app_title sc ic hal.junk hal.junk
                    challenge received p ctx vp hp (omega (arith, np, length_c)) twelve small
                    (ground (arith, only)) (ground (arith, only)) k
                    (omega (arith, place, high, short))))
          | inr other ↦ accepts_any (only_authenticates sc) Tag a.offset run other (
              check_answer-Decided (λ c. c ≡ sec_ok) asso sc ic received behind.rest b ctx vb twelve
                behind.next (omega (arith, behind.inside, twelve)) (omega (arith, high, short)) long
                (λ p vp hp np place.
                  auth_decrypt_untagged gcm request asso.client_app_title sc ic hal.junk hal.junk
                    (challenge ++ received) p ctx vp hp (omega (arith, np, total, length_c, twelve))
                    (λ _. omega (arith, total, length_c, twelve, nonempty)) small other k
                    (omega (arith, place, high, short))))
        ])
