-- ===== src/Channel/Hls/Answer.antt =====
-- The fourth pass: what `csm_channel_hls_pass4` writes.
use cosemlib.Base.{
  ℕ, ◌+◌, ◌-◌, ◌%◌, ◌≤◌, ◌<◌, ◌≡◌, refl, sym, ap, ◌∙◌, true, List, ◌∷◌, ◌++◌, some, arith, length,
  take, drop, slice, splice, slice_add, slice-splice, slice-eq-take, drop-splice, length-splice,
  leb, le→leb, if◌then◌else◌, ret, ◌>>=◌,
}
use cosemlib.Base.Words.{u32_mod, put_be32}
use cosemlib.Array.{Array, unread, writer_jump}
use cosemlib.Array.Bounds.{IsValid}
use cosemlib.Array.Append.{
  append, append-IsValid, contents, Emits-&&&, write_u8-Emits, write_u32-Emits,
}
use cosemlib.Array.Consume.{Ahead}
use cosemlib.Ber.Length.{write_len-short}
use cosemlib.Association.{Association, Hal}
use cosemlib.Services.{Request}
use cosemlib.Security.{Gcm, on_array}
use cosemlib.Security.Cipher.{key, with_aad, drop-splice_behind}
use cosemlib.Security.Seal.{sealed_by, auth_encrypt_lem}
use cosemlib.Channel.{Stack}
use cosemlib.Channel.Hls.{tag_string, give_answer, hls_pass4, find_state, max_hls_size, on_state}
use cosemlib.Channel.Hls.Check.{bytes_of, length-bytes_of, write_challenge-Emits}

-- An octet string of 17 bytes, the header of the packet.
abbrev pub answer_header : List ℕ
answer_header = 9 ∷ 17 ∷ 0x10 ∷ put_be32 0x01234567

tag_string-run :
    (a : Array)
    → IsValid a
    → a.wr_index ≡ 0
    → a.offset + 19 < a.size
    → tag_string 0x10 0x01234567 a ≡ ret true (record (append answer_header a) { wr_index = 19 })
unfolding tag_string put_be32 writer_jump
tag_string-run a v at_start room =
    let front = Emits-&&& (write_u8-Emits 9) (
      Emits-&&& (write_len-short 17 (omega arith))
        (Emits-&&& (write_u8-Emits 0x10) (write_u32-Emits 0x01234567))) in
    rw (front.run a v (omega (arith, room, at_start))) (ground arith)

-- What stands behind a header that is written over the first bytes.
contents-header :
    (front tag bs : List ℕ) (offset : ℕ)
    → length front ≡ 7
    → length tag ≡ 12
    → offset + 19 ≤ length bs
    → slice offset 19 (splice offset front (splice (offset + 7) tag bs)) ≡ front ++ tag
contents-header front tag bs offset seven twelve fits =
    let inner = splice (offset + 7) tag bs in
    let whole = splice offset front inner in
    let same = length-splice (offset + 7) tag bs in
    let first : slice offset 7 whole ≡ front =
      ap (λ n. slice offset n whole) (sym seven)
      ∙ slice-splice offset front inner (omega (arith, same, seven, fits)) in
    let second : slice (offset + 7) 12 whole ≡ tag =
      slice-eq-take (offset + 7) 12 whole
      ∙ ap (take 12) (
          drop-splice_behind offset (offset + 7) front inner (omega (arith, seven))
            (omega (arith, same, fits)))
      ∙ sym (slice-eq-take (offset + 7) 12 inner)
      ∙ ap (λ n. slice (offset + 7) n inner) (sym twelve)
      ∙ slice-splice (offset + 7) tag bs (omega (arith, twelve, fits)) in
    slice_add offset (offset + 7) 7 12 whole refl
    ∙ ap (λ t. t ++ slice (offset + 7) 12 whole) first
    ∙ ap (λ t. front ++ t) second

module _ {G : Type 0} (hal : Hal) (gcm : Gcm G) (request : Request) where
  -- On an empty array behind enough room, with room for 20 bytes, on a channel with an association whose client's challenge
  -- has 1 to 64 bytes, with a key of 16 bytes and a tag of at least 12, `csm_channel_hls_pass4` succeeds; the
  -- array, in its place, then holds an octet string of 17 bytes: the control byte, the counter, and the first
  -- 12 bytes of the tag that the cipher gives for the vector of the system title and the counter, with the
  -- control byte, the key and the client's challenge as its data.
  pub hls_pass4_lem :
      (stack : Stack) (asso : Association) (a : Array) (ctx : G)
      → IsValid a
      → a.rd_index ≡ 0
      → a.wr_index ≡ 0
      → a.offset + 19 < a.size
      → max_hls_size ≤ a.offset
      → find_state stack request ≡ some asso
      → asso.handshake.ctos.size ≤ length asso.handshake.ctos.value
      → 1 ≤ asso.handshake.ctos.size
      → asso.handshake.ctos.size ≤ 64
      → length (key gcm request) ≡ 16
      → let end =
          sealed_by gcm request hal.system_title 0x10 0x01234567
            (bytes_of asso.handshake.ctos)
            ctx in
        length (take 12 (end.0)) ≡ 12
        → (b : Array) × (hls_pass4 hal gcm request stack (record { array = a; context = ctx })
            ≡ ret true (record { array = b; context = end.1 }))
          × (b.offset ≡ a.offset)
          × (b.rd_index ≡ 0)
          × (contents b ≡ answer_header ++ take 12 (end.0))
  unfolding hls_pass4 give_answer unread put_be32
  hls_pass4_lem stack asso a ctx v rd wr room high found long nonempty short k twelve =
      let challenge = bytes_of asso.handshake.ctos in
      let n = asso.handshake.ctos.size in
      let length_c = length-bytes_of asso.handshake.ctos long in
      let offset = a.offset + 7 - n in
      let place : (a.offset + u32_mod - (n + u32_mod - 5 + u32_mod - 2) % u32_mod) % u32_mod
          ≡ offset =
        omega (arith, v.small, room, high, short) in
      let w = record a { offset = offset } in
      let vw : IsValid w = omega (arith, v.fits, v.small, rd, wr, room, high, short) in
      let given =
        (write_challenge-Emits asso.handshake.ctos long).run w vw
          (omega (arith, length_c, wr, room, high, short)) in
      let c = append challenge w in
      let vc = append-IsValid challenge vw (omega (arith, length_c, wr, room, high, short)) in
      let next : drop (offset + a.rd_index) c.buff
          ≡ challenge ++ drop (offset + a.wr_index + n) a.buff =
        ap (λ j. drop (offset + j) (splice (offset + a.wr_index) challenge a.buff)) (rd ∙ sym wr)
        ∙ drop-splice (offset + a.wr_index) challenge a.buff
            (omega (arith, length_c, wr, room, high, short, v.fits))
        ∙ ap (λ m. challenge ++ drop (offset + a.wr_index + m) a.buff) length_c in
      let ahead : Ahead challenge c = record {
        rest = drop (offset + a.wr_index + n) a.buff;
        next = next;
        written_up = omega (arith, rd, wr);
        inside = omega (arith, length_c, rd, room, high, short);
      } in
      let unread_c : unread c ≡ length challenge = ground (arith, rd, wr, nonempty, length_c) in
      let sealed =
        auth_encrypt_lem gcm request hal.system_title 0x10 0x01234567 challenge c ctx vc ahead
          unread_c (omega (arith, length_c, nonempty))
          (omega (arith, length_c, wr, room, high, short)) refl refl k
          (omega (arith, rd, high, short)) twelve in
      let big : leb max_hls_size a.offset ≡ true = le→leb _ _ high in
      let tag =
        take 12 ((sealed_by gcm request hal.system_title 0x10 0x01234567 challenge ctx).0) in
      let inner = with_aad gcm request (offset + a.rd_index) 0x10 c.buff in
      let at_tag = offset + (a.wr_index + length challenge) in
      let same = length-splice (offset + a.rd_index - 17) (0x10 ∷ key gcm request) c.buff in
      let same_c = length-splice (offset + a.wr_index) challenge a.buff in
      let same_tag = length-splice at_tag tag inner in
      let e = record a { wr_index = 0; buff = splice at_tag tag inner } in
      let ve : IsValid e = omega (arith, same, same_c, same_tag, v.fits, v.small, v.read_in) in
      let strung = tag_string-run e ve refl (omega (arith, room)) in
      let here : at_tag ≡ a.offset + 7 = omega (arith, wr, length_c, short, high) in
      let start : a.offset + 0 ≡ a.offset = omega arith in
      (
        record (append answer_header e) { wr_index = 19 },
        rw (big, if◌then◌else◌, on_state, found, ◌>>=◌, place, on_array, given, sealed, strung),
        refl,
        rd,
        rw (start, here)
            (contents-header answer_header tag inner a.offset refl twelve
              (omega (arith, same, same_c, v.fits, room))),
      )
