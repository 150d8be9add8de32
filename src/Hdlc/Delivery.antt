-- ===== src/Hdlc/Delivery.antt =====
-- The frames of `hdlc_encode_data`, `hdlc_encode_rr` and `hdlc_encode_snrm`, read by `hdlc_decode`.
use cosemlib.Base.{
  ℕ, ◌+◌, ◌*◌, ◌≤◌, ◌<◌, ◌≡◌, ◌==◌, ==_iff, refl, sym, ap, append_assoc, ◌∙◌, List, [], ◌∷◌, ◌++◌,
  Option, some, true, leb, le→leb, arith, length, length-append, slice, slice-eq-take, drop, ret,
  Exec,
}
use cosemlib.Base.Bits.{holds_below, holds_below_at}
use cosemlib.Hdlc.{Hdlc, Code, Packet}
use cosemlib.Hdlc.Control.{
  data_control, rr_control, decode_control_field, decode_control_field_lem,
  decode_control_field-data_control,
}
use cosemlib.Hdlc.Encode.{encode, encode_data, encode_rr, encode_snrm, snrm_nego, low_first}
use cosemlib.Hdlc.Decode.{decode}
use cosemlib.Hdlc.Frame.{addresses_of, crc, head, body, frame, frame_size_of}
use cosemlib.Hdlc.Stores.{length-addresses}
use cosemlib.Hdlc.Written.{encode-frame}
use cosemlib.Hdlc.Reading.{IsAddress, IsAddress-IsAddrLen, slice-middle}
use cosemlib.Hdlc.Addressed.{addressed, addressed-frame_size}
use cosemlib.Hdlc.RoundTrip.{with_field, decode-run, shape_hcs, length-header}

-- The state after a frame of the type `kind` of the link `h`.
abbrev found : Hdlc → List ℕ → Hdlc → Hdlc
found h field d =
    addressed h (record d { segmentation = 0; frame_size = frame_size_of h field + 2 })

abbrev typed : Hdlc → Packet → ℕ → ℕ → Hdlc
typed d kind rrr sss = record d { type = kind; poll_final = 1; rrr = rrr; sss = sss }

abbrev field_index : Hdlc → ℕ
field_index h = length (addresses_of h.sender h) + 6

abbrev pub received : Hdlc → Packet → ℕ → ℕ → List ℕ → Hdlc → Hdlc
received h kind rrr sss field d =
    with_field (field_index h) field (typed (found h field d) kind rrr sss)

-- A run of an encoder that succeeds with a frame that `d` decodes.
pub record Delivered (h d : Hdlc) (kind : Packet) (rrr sss : ℕ) (field : List ℕ)
    (run : Exec (List ℕ) (Option ℕ)) : Type 0 where
  pub out : List ℕ
  pub sent : run ≡ ret (some (frame_size_of h field + 2)) out
  pub accepted :
      decode out (frame_size_of h field + 2) d ≡ ret Code.ok (received h kind rrr sss field d)
  pub carried : slice (field_index h) (length field) out ≡ field

field_found :
    (h : Hdlc) (control : ℕ) (field q : List ℕ)
    → slice (field_index h) (length field) (frame h control field ++ q) ≡ field
unfolding low_first
field_found h control [] q = slice-eq-take (field_index h) 0 (frame h control [] ++ q)
field_found h control (x ∷ xs) q =
    let field = x ∷ xs in
    let header = head h (frame_size_of h field) control in
    let inside = body h control field in
    let r = crc inside ++ (0x7E ∷ q) in
    let shape : frame h control field ++ q ≡ ((0x7E ∷ header) ++ crc header) ++ (field ++ r) =
      shape_hcs h control field q
      ∙ ap (λ t. (0x7E ∷ header) ++ t) (append_assoc (crc header) field r)
      ∙ sym (append_assoc (0x7E ∷ header) (crc header) (field ++ r)) in
    ap (slice (field_index h) (length field)) shape
    ∙ slice-middle ((0x7E ∷ header) ++ crc header) field r (field_index h) (length field)
        (omega (arith, length-append header (crc header), length-header h control field q)) refl

delivered :
    (h d : Hdlc) (kind type : Packet) (control rrr sss size : ℕ) (field buf : List ℕ)
    → IsAddress h.addr_len h.logical_device h.phy_address
    → h.client_addr < 128
    → d.sender ≡ h.sender
    → ((e : Hdlc) → decode_control_field e control ≡ (Code.ok, typed e kind rrr sss))
    → frame_size_of h field < 256
    → frame_size_of h field + 2 ≤ size
    → frame_size_of h field + 2 ≤ length buf
    → Delivered h d kind rrr sss field (encode (record h { type = type }) size control field buf)
delivered h d kind type control rrr sss size field buf a c same control_of small room fits =
    let n = frame_size_of h field + 2 in
    let rest = drop n buf in
    let within : leb n size ≡ true = le→leb n size room in
    let after = typed (found h field d) kind rrr sss in
    let sized = addressed-frame_size h (record d { segmentation = 0; frame_size = n }) in
    record {
      out = frame h control field ++ rest;
      sent =
          encode-frame (record h { type = type }) size control field buf
            (IsAddress-IsAddrLen h.addr_len h.logical_device h.phy_address a) fits
            (omega (arith, small))
          ∙ rw within refl;
      accepted =
          decode-run h control field rest n d after a c same small (omega arith)
            (control_of (found h field d)) sized
          ∙ ap (λ i. ret Code.ok (with_field i field after))
              (omega (arith, length-header h control field rest));
      carried = field_found h control field rest;
    }

rr_table : holds_below 8 (λ k. rr_control k == k * 32 + 17) ≡ true
unfolding holds_below rr_control
rr_table = refl

decode_control_field-rr_control :
    (e : Hdlc) (rrr : ℕ)
    → rrr < 8
    → decode_control_field e (rr_control rrr) ≡ (Code.ok, typed e Packet.rr rrr 0)
decode_control_field-rr_control e rrr k =
    let value : rr_control rrr ≡ rrr * 32 + 17 =
      (==_iff _ _).0 (holds_below_at (λ n. rr_control n == n * 32 + 17) 8 rrr k rr_table) in
    rw value (decode_control_field_lem e (rrr * 32 + 17) (omega arith) ∙ ground arith)

decode_control_field-snrm :
    (e : Hdlc) → decode_control_field e 0x93 ≡ (Code.ok, typed e Packet.snrm 4 1)
decode_control_field-snrm e = decode_control_field_lem e 0x93 (omega arith)

-- On a link with counters of three bits, a client's address of seven bits and a server's address that
-- `hdlc_set_addr` keeps, in a buffer of at least 35 bytes that has room for the frame, `hdlc_encode_data` of
-- a frame of fewer than 256 bytes between its flags, `hdlc_encode_rr` and `hdlc_encode_snrm` return the length
-- of the frame, and `hdlc_decode` of the buffer, on the same side, accepts it, with both addresses, the type,
-- the counters, and the place and size of an information field, which stands there as it was given.
pub decode-encode :
    (h d : Hdlc) (field buf : List ℕ) (size : ℕ)
    → IsAddress h.addr_len h.logical_device h.phy_address
    → h.client_addr < 128
    → h.rrr < 8
    → h.sss < 8
    → d.sender ≡ h.sender
    → frame_size_of h field < 256
    → frame_size_of h field + 2 ≤ size
    → frame_size_of h field + 2 ≤ length buf
    → 35 ≤ size
    → 35 ≤ length buf
    → Delivered h d Packet.info h.rrr h.sss field ((encode_data h size field).1 buf)
      × Delivered h d Packet.rr h.rrr 0 [] ((encode_rr h size).1 buf)
      × Delivered h d Packet.snrm 4 1 snrm_nego ((encode_snrm h size).1 buf)
unfolding encode_data encode_rr encode_snrm
decode-encode h d field buf size a c r s same small room fits long large =
    let l = IsAddress-IsAddrLen h.addr_len h.logical_device h.phy_address a in
    let n = length-addresses h.sender h l in
    let short : h.addr_len ≤ 4 = ground (arith, l) in
    (
      delivered h d Packet.info Packet.info (data_control h.rrr h.sss) h.rrr h.sss size field buf a
          c same (λ e. decode_control_field-data_control e h.rrr h.sss r s) small room fits,
      delivered h d Packet.rr Packet.rr (rr_control h.rrr) h.rrr 0 size [] buf a c same
          (λ e. decode_control_field-rr_control e h.rrr r) (omega (arith, n, short))
          (omega (arith, n, short)) (omega (arith, n, short)),
      delivered h d Packet.snrm Packet.snrm 0x93 4 1 size snrm_nego buf a c same
          decode_control_field-snrm (omega (arith, n, short)) (omega (arith, n, short))
          (omega (arith, n, short)),
    )
