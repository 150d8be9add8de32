-- ===== src/Hdlc/RoundTrip.antt =====
-- A frame of any control byte and field, read by `hdlc_decode`.
use cosemlib.Base.{
  ℕ, ◌+◌, ◌-◌, ◌*◌, ◌/◌, ◌%◌, ◌≤◌, ◌<◌, ◌≡◌, refl, sym, ap, ◌∙◌, List, [], ◌∷◌, ◌++◌, some, true,
  if◌then◌else◌, leb, le→leb, arith, length, length-append, append_assoc, get_elem?, ret, ◌>>=◌,
}
use cosemlib.Base.Words.{u16_mod, low8, shr}
use cosemlib.Hdlc.{Hdlc, Code, get_len, load}
use cosemlib.Hdlc.Control.{decode_control_field}
use cosemlib.Hdlc.Encode.{low_first}
use cosemlib.Hdlc.Fcs.{check_fcs}
use cosemlib.Hdlc.Decode.{
  decode_addresses_of, decode_addresses, decode_tail, decode_control, is_format_3, decode,
}
use cosemlib.Hdlc.Frame.{addresses_of, crc, body, frame, frame_size_of}
use cosemlib.Hdlc.Reading.{at_place, load_at, check_fcs-ok, check_hcs-ok, IsAddress}
use cosemlib.Hdlc.Frame.{info_part}
use cosemlib.Hdlc.Written.{length-info_part}
use cosemlib.Hdlc.Addressed.{addressed, decode_addresses_of-run}

-- The place and the size of the information field, where there is one.
abbrev pub with_field : ℕ → List ℕ → Hdlc → Hdlc
with_field i [] d = d
with_field i (x ∷ xs) d = record d { data_index = i; data_size = length (x ∷ xs) }

-- What stands behind the control field: the check sequence of the header and the information field.
decode_tail-run :
    (x m n i : ℕ) (header q : List ℕ) (d : Hdlc)
    → i ≡ length header + 1
    → d.frame_size ≡ length header + m + 6
    → d.frame_size < u16_mod
    → decode_tail ((x ∷ []) ++ (header ++ (crc header ++ q))) i d
      ≡ ret Code.ok (record d { data_index = length header + 3; data_size = m })
unfolding decode_tail
decode_tail-run x m n i header q d e k small =
    let buf = (x ∷ []) ++ (header ++ (crc header ++ q)) in
    let left : (d.frame_size + u16_mod - 3 + u16_mod - i % u16_mod) % u16_mod ≡ m + 2 =
      omega arith in
    let some_left : leb 2 (m + 2) ≡ true = le→leb 2 (m + 2) (omega arith) in
    let at : (i + 2) % u16_mod ≡ length header + 3 = omega arith in
    let size : m + 2 - 2 ≡ m = omega arith in
    rw (
      ◌>>=◌,
      left,
      some_left,
      if◌then◌else◌,
      at,
      check_hcs-ok x header q d (length header + 3) refl,
      left,
      size,
      at,
    )

-- Nothing stands behind the control field of a frame without information.
decode_tail_empty :
    (buf : List ℕ) (i : ℕ) (d : Hdlc)
    → d.frame_size ≡ i + 3
    → d.frame_size < u16_mod
    → decode_tail buf i d ≡ ret Code.ok d
unfolding decode_tail
decode_tail_empty buf i d k small =
    let left : (d.frame_size + u16_mod - 3 + u16_mod - i % u16_mod) % u16_mod ≡ 0 = omega arith in
    rw (◌>>=◌, left, if◌then◌else◌) refl

decode_tail_field :
    (x i : ℕ) (header field q : List ℕ) (d : Hdlc)
    → i ≡ length header + 1
    → d.frame_size ≡ length header + length (info_part header field) + 4
    → d.frame_size < u16_mod
    → decode_tail ((x ∷ []) ++ (header ++ (info_part header field ++ q))) i d
      ≡ ret Code.ok (with_field (length header + 3) field d)
unfolding low_first
decode_tail_field x i header [] q d e k small = decode_tail_empty _ i d (omega (arith, e, k)) small
decode_tail_field x i header (b ∷ bs) q d e k small =
    let n = length-append (crc header) (b ∷ bs) in
    ap (λ t. decode_tail ((x ∷ []) ++ (header ++ t)) i d) (append_assoc (crc header) (b ∷ bs) q)
    ∙ decode_tail-run x (length (b ∷ bs)) 0 i header ((b ∷ bs) ++ q) d e (omega (arith, k)) small

decode_control-run :
    (x control i : ℕ) (front field q : List ℕ) (d d' : Hdlc)
    → let header = front ++ (control ∷ []) in
      i ≡ length header
      → decode_control_field d control ≡ (Code.ok, d')
      → d'.frame_size ≡ length header + length (info_part header field) + 4
      → d'.frame_size < u16_mod
      → decode_control ((x ∷ []) ++ (header ++ (info_part header field ++ q))) i d
        ≡ ret Code.ok (with_field (length header + 3) field d')
unfolding decode_control
decode_control-run x control i front field q d d' e found_type size small =
    let header = front ++ (control ∷ []) in
    let r = info_part header field ++ q in
    let buf = (x ∷ []) ++ (header ++ r) in
    let shape : (x ∷ front) ++ (control ∷ r) ≡ buf =
      ap (λ t. x ∷ t) (sym (append_assoc front (control ∷ []) r)) in
    let n = length-append front (control ∷ []) in
    let found : load buf i d ≡ ret control d =
      ap (λ t. load t i d) (sym shape)
      ∙ load_at ((x ∷ front) ++ (control ∷ r)) i control d
          (at_place (x ∷ front) (control ∷ r) 0 i (omega (arith, e, n))) in
    rw (◌>>=◌, found, found_type)
      (decode_tail_field x (i + 1) header field q d' (omega (arith, e)) size small)

module _ (h : Hdlc) (control : ℕ) (field q : List ℕ) where
  abbrev fs : ℕ
  fs = frame_size_of h field

  abbrev received : List ℕ
  received = frame h control field ++ q

  abbrev front : List ℕ
  front = (0xA0 + shr fs 8 % 8) ∷ low8 fs ∷ addresses_of h.sender h

  abbrev inside : List ℕ
  inside = body h control field

  -- The frame as its check sequences see it.
  shape_fcs : received ≡ (0x7E ∷ []) ++ (inside ++ (crc inside ++ (0x7E ∷ q)))
  shape_fcs =
      ap (λ t. 0x7E ∷ t)
        (append_assoc inside (crc inside ++ (0x7E ∷ [])) q
          ∙ ap (λ t. inside ++ t) (append_assoc (crc inside) (0x7E ∷ []) q))

  abbrev header : List ℕ
  header = front ++ (control ∷ [])

  pub shape_hcs :
      received ≡ (0x7E ∷ []) ++ (header ++ (info_part header field ++ (crc inside ++ (0x7E ∷ q))))
  shape_hcs =
      let r = crc inside ++ (0x7E ∷ q) in
      shape_fcs ∙ ap (λ t. 0x7E ∷ t) (append_assoc header (info_part header field) r)

  shape_addresses :
      received
      ≡ (0x7E ∷ (0xA0 + shr fs 8 % 8) ∷ low8 fs ∷ [])
        ++ (addresses_of h.sender h
            ++ (control ∷ (info_part header field ++ (crc inside ++ (0x7E ∷ q)))))
  shape_addresses =
      let r = info_part header field ++ (crc inside ++ (0x7E ∷ q)) in
      shape_hcs ∙ ap (λ t. 0x7E ∷ t) (append_assoc front (control ∷ []) r)

  length-inside : length inside + 2 ≡ fs
  unfolding low_first
  length-inside =
      let a = addresses_of h.sender h in
      omega (
        arith,
        length-append header (info_part header field),
        length-append a (control ∷ []),
        length-info_part h control field,
      )

  pub length-header : length header ≡ length (addresses_of h.sender h) + 3
  length-header = omega (arith, length-append (addresses_of h.sender h) (control ∷ []))

  last_at : get_elem? received (fs + 2 - 1) ≡ some 0x7E
  unfolding low_first
  last_at =
      ap (λ t. get_elem? t (fs + 2 - 1)) shape_fcs
      ∙ at_place (0x7E ∷ inside) (crc inside ++ (0x7E ∷ q)) 2 (fs + 2 - 1)
          (omega (arith, length-inside))

  pub decode-run :
      (size : ℕ) (d d' : Hdlc)
      → IsAddress h.addr_len h.logical_device h.phy_address
      → h.client_addr < 128
      → d.sender ≡ h.sender
      → fs < 256
      → fs + 2 ≤ size
      → decode_control_field
          (addressed h (record d { segmentation = 0; frame_size = fs + 2 }))
          control
        ≡ (Code.ok, d')
      → d'.frame_size ≡ fs + 2
      → decode received size d ≡ ret Code.ok (with_field (length header + 3) field d')
  unfolding decode get_len decode_addresses
  decode-run size d d' a c same small room found sized =
      let d1 = record d { segmentation = 0; frame_size = fs + 2 } in
      let format : 0xA0 + shr fs 8 % 8 ≡ 0xA0 = omega (arith, small) in
      let segment : (0xA0 + shr fs 8 % 8) / 8 % 2 ≡ 0 = omega (arith, small) in
      let measured : ((0xA0 + shr fs 8 % 8) % 4 * 2048 % u16_mod + low8 fs) % u16_mod ≡ fs =
        omega (arith, small) in
      let total : (fs + 2) % u16_mod ≡ fs + 2 = omega (arith, small) in
      let typed : is_format_3 (0xA0 + shr fs 8 % 8) ≡ true = ap is_format_3 format in
      let enough : leb (fs + 2) size ≡ true = le→leb _ _ room in
      let checked : check_fcs received (fs + 2) d1 ≡ ret Code.ok d1 =
        ap (λ t. check_fcs t (fs + 2) d1) shape_fcs
        ∙ check_fcs-ok 0x7E inside (0x7E ∷ q) d1 (fs + 2) (omega (arith, length-inside)) in
      let last = load_at received (fs + 2 - 1) 0x7E d1 last_at in
      let addresses : decode_addresses_of d.sender received d1
          ≡ decode_control received (3 + length (addresses_of h.sender h)) (addressed h d1) =
        ap (λ s. decode_addresses_of s received d1) same
        ∙ ap (λ t. decode_addresses_of h.sender t d1) shape_addresses
        ∙ decode_addresses_of-run h.sender h d1 (0x7E ∷ (0xA0 + shr fs 8 % 8) ∷ low8 fs ∷ []) _ refl
            a c (omega (arith, length-inside))
        ∙ ap (λ t. decode_control t (3 + length (addresses_of h.sender h)) (addressed h d1))
            (sym shape_addresses) in
      let tail : decode_control received (3 + length (addresses_of h.sender h)) (addressed h d1)
          ≡ ret Code.ok (with_field (length header + 3) field d') =
        ap (λ t. decode_control t (3 + length (addresses_of h.sender h)) (addressed h d1)) shape_hcs
        ∙ decode_control-run 0x7E control (3 + length (addresses_of h.sender h)) front field
            (crc inside ++ (0x7E ∷ q)) (addressed h d1) d' (omega (arith, length-header)) found
            (omega (arith, sized, length-header, length-info_part h control field))
            (omega (arith, sized, small)) in
      rw (◌>>=◌, typed, if◌then◌else◌, measured, total, segment, enough, last, checked, addresses)
        tail
