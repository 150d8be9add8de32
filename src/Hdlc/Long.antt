-- ===== src/Hdlc/Long.antt =====
-- Frames of 256 bytes and more, between their flags, written by `hdlc_encode` and read by `hdlc_decode`.
use cosemlib.Base.{
  ℕ, ◌+◌, ◌*◌, ◌/◌, ◌%◌, ◌≤◌, ◌<◌, ◌≡◌, refl, ◌∙◌, List, ◌++◌, some, true, false, if◌then◌else◌,
  ==_iff, leb, le→leb, arith, length, drop, ret, ◌>>=◌,
}
use cosemlib.Base.Words.{u16_mod, low8, shr}
use cosemlib.Hdlc.{Hdlc, Code, get_len}
use cosemlib.Hdlc.Encode.{encode}
use cosemlib.Hdlc.Decode.{decode, is_format_3}
use cosemlib.Hdlc.Frame.{IsAddrLen, frame, frame_size_of}
use cosemlib.Hdlc.Written.{encode-frame, total_of}

-- What `hdlc_get_len` makes of the length bytes of a frame.
abbrev pub read_len_of : ℕ → ℕ
read_len_of fs = fs / 256 % 4 * 2048 + fs % 256

-- A frame of the length `fs` between its flags that is too long.
decode-long :
    (h d : Hdlc) (control size : ℕ) (field q : List ℕ)
    → frame_size_of h field < 2048
    → size < read_len_of (frame_size_of h field) + 2
    → decode (frame h control field ++ q) size d
      ≡ ret Code.err_size
          (record d { segmentation = 0; frame_size = read_len_of (frame_size_of h field) + 2 })
unfolding decode get_len
decode-long h d control size field q small short =
    let fs = frame_size_of h field in
    let format = 0xA0 + shr fs 8 % 8 in
    let typed : is_format_3 format ≡ true = (==_iff _ _).1 (omega (arith, small)) in
    let segment : format / 8 % 2 ≡ 0 = omega (arith, small) in
    let measured : ((format % 4 * 2048 % u16_mod + low8 fs) % u16_mod + 2) % u16_mod
        ≡ read_len_of fs + 2 =
      omega (arith, small) in
    let over : leb (read_len_of fs + 2) size ≡ false = ground (arith, short) in
    rw (◌>>=◌, typed, if◌then◌else◌, measured, segment, over) refl

-- `hdlc_encode` of a frame of 256 to 1023, or of 1280 to 2047, bytes between its flags, with an address of one, two or
-- four bytes and a buffer that has room for it, returns the length of the frame; `hdlc_decode`, given what was
-- written and its length, refuses it with `HDLC_ERR_SIZE`: for the length it has read 2048 times the two lowest bits of the length's high
-- byte, and its low byte.
pub decode-encode_long :
    (h d : Hdlc) (control size : ℕ) (field buf : List ℕ)
    → IsAddrLen h.addr_len
    → 256 ≤ frame_size_of h field % 1024
    → frame_size_of h field < 2048
    → total_of h field ≤ size
    → total_of h field ≤ length buf
    → (out : List ℕ) × (encode h size control field buf ≡ ret (some (total_of h field)) out)
      × (decode out (total_of h field) d
          ≡ ret Code.err_size
              (record d { segmentation = 0; frame_size = read_len_of (frame_size_of h field) + 2 }))
decode-encode_long h d control size field buf l long small room fits =
    let fs = frame_size_of h field in
    let within : leb (total_of h field) size ≡ true = le→leb (total_of h field) size room in
    (
      frame h control field ++ drop (total_of h field) buf,
      encode-frame h size control field buf l fits (omega (arith, small)) ∙ rw within refl,
      decode-long h d control (total_of h field) field (drop (total_of h field) buf) small
          (omega (arith, long, small)),
    )
