-- ===== src/Hdlc/Written.antt =====
-- What `hdlc_encode` writes: the frame, and nothing behind it.
use cosemlib.Base.{
  ℕ, ◌+◌, ◌-◌, ◌%◌, ◌≤◌, ◌<◌, ◌≡◌, refl, sym, ap, ◌∙◌, List, [], ◌∷◌, ◌++◌, none, some, true, not,
  ◌==◌, if◌then◌else◌, leb, arith, length, length-append, length-splice, append_assoc, append-nil,
  slice, splice, slice-splice, slice-splice_before, splice-splice, splice_comm, drop,
  splice-eq-append, ret, ◌>>=◌,
}
use cosemlib.Base.Words.{u16_mod, u32_mod, low8, shr}
use cosemlib.Hdlc.{Hdlc}
use cosemlib.Hdlc.Encode.{store, bytes, low_first, open_frame, close_frame, encode}
use cosemlib.Hdlc.Frame.{IsAddrLen, addresses_of, crc, head, info_part, frame_size_of, body, frame}
use cosemlib.Hdlc.Stores.{
  store_fits, bytes_fit, store-behind, length-addresses, store_addresses-run, store_length,
  store_length_before, bytes-front,
}

abbrev pub total_of : Hdlc → List ℕ → ℕ
total_of h field = frame_size_of h field + 2

open_frame-run :
    (h : Hdlc) (control : ℕ) (buf : List ℕ)
    → IsAddrLen h.addr_len
    → length (addresses_of h.sender h) + 4 ≤ length buf
    → open_frame h control buf
      ≡ ret
          (3 + length (addresses_of h.sender h) + 1)
          (splice 3 (addresses_of h.sender h ++ (control ∷ [])) (splice 0 (0x7E ∷ []) buf))
unfolding open_frame
open_frame-run h control buf l fits =
    let a = addresses_of h.sender h in
    let n = length-addresses h.sender h l in
    let b1 = splice 0 (0x7E ∷ []) buf in
    let m1 = length-splice 0 (0x7E ∷ []) buf in
    rw
      (
        ◌>>=◌,
        store_fits 0 (0x7E ∷ []) buf (omega (arith, fits)),
        store_addresses-run h b1 l (omega (arith, m1, n, fits)),
        store_fits (3 + length a) (control ∷ []) (splice 3 a b1)
            (omega (arith, m1, length-splice 3 a b1, fits)),
        splice-splice 3 (3 + length a) a (control ∷ []) b1 refl,
      )
      refl

-- Behind the flag and the bytes that the check sequence is about.
close_frame-run :
    (index frame_size : ℕ) (b buf : List ℕ)
    → index ≡ length b + 1
    → frame_size ≡ length b + 2
    → frame_size + 2 ≤ length buf
    → frame_size + 2 < u16_mod
    → close_frame index frame_size (splice 0 (0x7E ∷ b) buf)
      ≡ ret (frame_size + 2) (splice 0 (0x7E ∷ (b ++ (crc b ++ (0x7E ∷ [])))) buf)
unfolding close_frame low_first
close_frame-run index frame_size b buf e k fits small =
    let size : (frame_size + u32_mod - 2) % u32_mod ≡ length b = omega (arith, k, small) in
    let read = bytes-front (length b) 0x7E b buf refl (omega (arith, k, fits)) in
    let wrote =
      store-behind index (0x7E ∷ b) (crc b) buf (omega (arith, e)) (omega (arith, k, fits)) in
    let flag_at : (index + 2) % u16_mod ≡ frame_size + 1 = omega (arith, e, k, small) in
    let framed = length-append b (crc b) in
    let closed =
      store-behind (frame_size + 1) ((0x7E ∷ b) ++ crc b) (0x7E ∷ []) buf (omega (arith, k, framed))
        (omega (arith, k, framed, fits)) in
    let total : (frame_size + 1 + 1) % u16_mod ≡ frame_size + 2 = omega (arith, small) in
    rw (◌>>=◌, size, read, wrote, flag_at, closed, total)
      (ap (λ t. ret (frame_size + 2) (splice 0 (0x7E ∷ t) buf))
        (append_assoc b (crc b) (0x7E ∷ [])))

encode-no_info :
    (h : Hdlc) (size control : ℕ) (buf : List ℕ)
    → IsAddrLen h.addr_len
    → total_of h [] ≤ length buf
    → encode h size control [] buf
      ≡ ret
          (if leb (total_of h []) size then some (total_of h []) else none)
          (splice 0 (frame h control []) buf)
unfolding encode low_first
encode-no_info h size control buf l fits =
    let a = addresses_of h.sender h in
    let n = length-addresses h.sender h l in
    let fs = frame_size_of h [] in
    let header = head h fs control in
    let len = length-append a (control ∷ []) in
    let at_end : ((3 + length a + 1) + 1) % u16_mod ≡ fs = omega (arith, n, l) in
    let (flag_1, flag_2) =
      store_length (0xA0 + shr fs 8 % 8) (low8 fs) (a ++ (control ∷ [])) buf
        (omega (arith, len, fits)) in
    let closed =
      close_frame-run (3 + length a + 1) fs header buf (omega (arith, len)) (omega (arith, len))
        fits (omega (arith, n, l)) in
    let same : 0x7E ∷ (header ++ (crc header ++ (0x7E ∷ []))) ≡ frame h control [] =
      ap (λ t. 0x7E ∷ (t ++ (crc t ++ (0x7E ∷ [])))) (sym (append-nil header)) in
    rw (◌>>=◌, open_frame-run h control buf l (omega (arith, fits)), at_end, flag_1, flag_2, closed)
      (ap
        (λ t.
          ret (if leb (total_of h []) size then some (total_of h []) else none) (splice 0 t buf))
        same)

-- The check sequence of the header, put between the header and the information field.
store_between :
    (i j : ℕ) (xs ys zs bs : List ℕ)
    → i ≡ length xs
    → j ≡ length xs + length ys
    → j + length zs ≤ length bs
    → store i ys (splice j zs (splice 0 xs bs)) ≡ ret tt (splice 0 (xs ++ (ys ++ zs)) bs)
store_between i j xs ys zs bs e k h =
    let b = splice 0 xs bs in
    store_fits i ys (splice j zs b)
      (omega (arith, e, k, h, length-splice j zs b, length-splice 0 xs bs))
    ∙ ap (ret tt) (
        splice_comm i j ys zs b (omega (arith, e, k))
        ∙ ap (splice j zs) (splice-splice 0 i xs ys bs (omega (arith, e)))
        ∙ splice-splice 0 j (xs ++ ys) zs bs (omega (arith, k, length-append xs ys))
        ∙ ap (λ t. splice 0 t bs) (append_assoc xs ys zs))

bytes-front_before :
    (n x j : ℕ) (xs zs bs : List ℕ)
    → n ≡ length xs
    → 1 + length xs ≤ j
    → j + length zs ≤ length bs
    → bytes 1 n (splice j zs (splice 0 (x ∷ xs) bs)) ≡ ret xs (splice j zs (splice 0 (x ∷ xs) bs))
bytes-front_before n x j xs zs bs e k h =
    let b = splice 0 (x ∷ xs) bs in
    bytes_fit 1 n (splice j zs b)
      (omega (arith, e, k, h, length-splice j zs b, length-splice 0 (x ∷ xs) bs))
    ∙ ap (λ t. ret t (splice j zs b))
        (slice-splice_before j 1 n zs b (omega (arith, e, k))
          ∙ ap (λ t. slice 1 n t) (sym (splice-splice 0 1 (x ∷ []) xs bs refl))
          ∙ ap (λ m. slice 1 m (splice 1 xs (splice 0 (x ∷ []) bs))) e
          ∙ slice-splice 1 xs (splice 0 (x ∷ []) bs)
              (omega (arith, k, h, length-splice 0 (x ∷ []) bs)))

encode-info :
    (h : Hdlc) (size control x : ℕ) (xs buf : List ℕ)
    → let field = x ∷ xs in
      IsAddrLen h.addr_len
      → total_of h field ≤ length buf
      → total_of h field < u16_mod
      → encode h size control field buf
        ≡ ret
            (if leb (total_of h field) size then some (total_of h field) else none)
            (splice 0 (frame h control field) buf)
unfolding encode low_first
encode-info h size control x xs buf l fits small =
    let field = x ∷ xs in
    let a = addresses_of h.sender h in
    let n = length-addresses h.sender h l in
    let front = a ++ (control ∷ []) in
    let fs = frame_size_of h field in
    let header = head h fs control in
    let len = length-append a (control ∷ []) in
    let at = 3 + length a + 1 + 2 in
    let has_info : not (length field == 0) ≡ true = ground arith in
    let b3 = splice 3 front (splice 0 (0x7E ∷ []) buf) in
    let m1 = length-splice 0 (0x7E ∷ []) buf in
    let m3 = length-splice 3 front (splice 0 (0x7E ∷ []) buf) in
    let index : (at + length field) % u16_mod ≡ fs - 1 = omega (arith, n, small) in
    let at_end : (fs - 1 + 1) % u16_mod ≡ fs = omega (arith, n, small) in
    let (flag_1, flag_2) =
      store_length_before (0xA0 + shr fs 8 % 8) (low8 fs) at front field buf (omega (arith, len))
        (omega (arith, fits)) in
    let header_size : length header ≡ length a + 3 = omega (arith, len) in
    let head_at : at - 3 ≡ length header = omega (arith, header_size) in
    let head_read =
      bytes-front_before (length header) 0x7E at header field buf refl (omega (arith, header_size))
        (omega (arith, header_size, fits)) in
    let put_hcs =
      store_between (at - 2) at (0x7E ∷ header) (crc header) field buf (omega (arith, header_size))
        (omega (arith, header_size)) (omega (arith, header_size, fits)) in
    let b = header ++ (crc header ++ field) in
    let b_size : length b + 2 ≡ fs =
      omega (arith, length-append header (crc header ++ field), header_size) in
    let closed =
      close_frame-run (fs - 1) fs b buf (omega (arith, b_size)) (sym b_size) fits small in
    rw
      (
        ◌>>=◌,
        open_frame-run h control buf l (omega (arith, fits)),
        has_info,
        if◌then◌else◌,
        store_fits at field b3 (omega (arith, m3, m1, fits)),
        index,
        at_end,
        flag_1,
        flag_2,
        head_at,
        head_read,
        put_hcs,
        closed,
      )
      refl

pub length-info_part :
    (h : Hdlc) (control : ℕ) (field : List ℕ)
    → length (info_part (head h (frame_size_of h field) control) field)
        + (length (addresses_of h.sender h) + 3)
        + 2
      ≡ frame_size_of h field
unfolding low_first
length-info_part h control [] = omega arith
length-info_part h control (x ∷ xs) = omega arith

pub length-frame :
    (h : Hdlc) (control : ℕ) (field : List ℕ) → length (frame h control field) ≡ total_of h field
unfolding low_first
length-frame h control field =
    let a = addresses_of h.sender h in
    let b = body h control field in
    let header = head h (frame_size_of h field) control in
    let info : length (info_part header field) + (length a + 3) + 2 ≡ frame_size_of h field =
      length-info_part h control field in
    omega (
      arith,
      length-append b (crc b ++ (0x7E ∷ [])),
      length-append header (info_part header field),
      length-append a (control ∷ []),
      info,
    )

-- `hdlc_encode` with an address of one, two or four bytes writes the frame over the first bytes of a buffer that
-- has room for it, and returns its length where that is within `size`, and -1 otherwise; the length
-- must fit in 16 bits.
pub encode-frame :
    (h : Hdlc) (size control : ℕ) (field buf : List ℕ)
    → IsAddrLen h.addr_len
    → total_of h field ≤ length buf
    → total_of h field < u16_mod
    → encode h size control field buf
      ≡ ret
          (if leb (total_of h field) size then some (total_of h field) else none)
          (frame h control field ++ drop (total_of h field) buf)
encode-frame h size control field buf l fits small =
    by_field field fits small
    ∙ ap (ret (if leb (total_of h field) size then some (total_of h field) else none)) (
        splice-eq-append (frame h control field) buf
          (omega (arith, fits, length-frame h control field))
        ∙ ap (λ n. frame h control field ++ drop n buf) (length-frame h control field))
  where
    by_field :
        (field : List ℕ)
        → total_of h field ≤ length buf
        → total_of h field < u16_mod
        → encode h size control field buf
          ≡ ret
              (if leb (total_of h field) size then some (total_of h field) else none)
              (splice 0 (frame h control field) buf)
    by_field [] f k = encode-no_info h size control buf l f
    by_field (x ∷ xs) f k = encode-info h size control x xs buf l f k
