-- ===== src/Association/Conformance.antt =====
-- The conformance block and the PDU size that `acse_decode_conformance_block` stores.
use cosemlib.Base.{ℕ, ◌+◌, ◌*◌, ◌<◌, ◌≡◌, true, [], ◌∷◌, arith, Returns}
use cosemlib.Base.Words.{get_be16}
use cosemlib.Array.Bounds.{IsValid}
use cosemlib.Array.Consume.{
  skip, skip-IsValid, Ahead, Ahead-left, Ahead-right, read_u8_next, read_u16-bytes,
}
use cosemlib.Ber.{Ber, first_tag, low7}
use cosemlib.Ber.Decode.{decode-extended}
use cosemlib.Association.{Session, Hal}
use cosemlib.Association.UserInfo.{conformance_block}
use cosemlib.Association.Faults.{decode_ber-run}

abbrev block_header : Ber
block_header = record {
  tag = record (first_tag 0x5F) { ext = low7 0x1F };
  length = record { length = 4; nbytes = 1 };
}

-- The conformance block of an InitiateRequest is the bit string 5F 1F 04 00 `c1` `c2` `c3`, and the PDU
-- size the two bytes behind it. The decoder takes the second byte of the bit string, which counts the
-- unused bits, for the high byte: it stores `c1` and `c2` alone as the conformance, and `c3` with the
-- high byte of the size as the size of a PDU, and leaves the low byte unread. The array is valid, and
-- these bytes stand next in it, are written, and do not end at its last byte.
pub conformance_block_shifted :
    (hal : Hal) (s : Session) (c1 c2 c3 size_hi size_lo : ℕ)
    → c1 < 256
    → c2 < 256
    → IsValid s.array
    → Ahead (0x5F ∷ 0x1F ∷ 4 ∷ 0 ∷ c1 ∷ c2 ∷ c3 ∷ size_hi ∷ size_lo ∷ []) s.array
    → Returns (conformance_block hal 1 s) (λ r s'.
      (r ≡ true)
      × (s'.asso.handshake.proposed_conformance ≡ c1 * 256 + c2)
      × (s'.asso.handshake.client_max_receive_pdu_size ≡ get_be16 c3 size_hi)
      × (s'.array.rd_index ≡ s.array.rd_index + 8))
unfolding conformance_block
conformance_block_shifted hal s c1 c2 c3 size_hi size_lo h k v ahead =
    let tail = 0 ∷ c1 ∷ c2 ∷ c3 ∷ size_hi ∷ size_lo ∷ [] in
    let first = Ahead-left (0x5F ∷ 0x1F ∷ 4 ∷ []) tail ahead in
    let headed =
      decode_ber-run s (true, block_header) (skip 3 s.array)
        ((decode-extended 0x5F 0x1F 4 s.ber (omega arith) (omega arith) (omega arith)).run s.array v
          first) in
    let (e0, v0, a0) =
      read_u8_next 0 (c1 ∷ c2 ∷ c3 ∷ size_hi ∷ size_lo ∷ []) (skip-IsValid 3 v first.inside)
        (Ahead-right (0x5F ∷ 0x1F ∷ 4 ∷ []) tail ahead) in
    let (e1, v1, a1) = read_u8_next c1 (c2 ∷ c3 ∷ size_hi ∷ size_lo ∷ []) v0 a0 in
    let (e2, v2, a2) = read_u8_next c2 (c3 ∷ size_hi ∷ size_lo ∷ []) v1 a1 in
    let e3 =
      (read_u16-bytes c3 size_hi).run (skip 1 (skip 1 (skip 1 (skip 3 s.array)))) v2
        (Ahead-left (c3 ∷ size_hi ∷ []) (size_lo ∷ []) a2) in
    ground (arith, headed, e0, e1, e2, e3)
