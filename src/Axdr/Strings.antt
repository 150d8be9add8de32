-- ===== src/Axdr/Strings.antt =====
-- Octet strings, and the size that `csm_axdr_size` reads in front of data.
use cosemlib.Base.{ℕ, ◌+◌, ◌%◌, ◌≤◌, ◌≡◌, List, [], ◌∷◌, some, arith, length, ret, ◌>>=◌}
use cosemlib.Base.Words.{u16_mod}
use cosemlib.Array.{Array, unread, read_u8}
use cosemlib.Array.Bounds.{IsValid}
use cosemlib.Array.Append.{
  append, append-IsValid, Room, Emits, Emits-&&&, write_u8-Emits, write_buff-Emits,
}
use cosemlib.Array.Consume.{skip, Ahead-left, append-Ahead, read_u8_next}
use cosemlib.Ber.{read_len}
use cosemlib.Ber.Length.{write_len-short, read_len-short}
use cosemlib.Axdr.{size, rd_octetstring, wr_octetstring}

wr_octetstring-Emits :
    (xs : List ℕ) → length xs ≤ 127 → Emits (wr_octetstring xs) (9 ∷ length xs ∷ xs)
unfolding wr_octetstring
wr_octetstring-Emits xs h =
    let cut : length xs % u16_mod ≡ length xs = omega arith in
    rw cut (
      Emits-&&& {xs = 9 ∷ []} {ys = length xs ∷ xs} (write_u8-Emits 9) (
        Emits-&&& {xs = length xs ∷ []} {ys = xs} (write_len-short (length xs) h)
          (write_buff-Emits xs)))

-- In a valid array whose written bytes have all been read, with a byte to spare, an octet string of at
-- most 127 bytes that is written is found again: its size is returned, and its bytes are next.
rd_octetstring-wr_octetstring :
    (xs : List ℕ) {a : Array}
    → IsValid a
    → a.rd_index ≡ a.wr_index
    → length xs ≤ 127
    → Room a (2 + length xs)
    → (wr_octetstring xs >>= λ _. rd_octetstring) a
      ≡ ret (some (length xs)) (skip 2 (append (9 ∷ length xs ∷ xs) a))
unfolding rd_octetstring
rd_octetstring-wr_octetstring xs {a} v e h room =
    let written = append (9 ∷ length xs ∷ xs) a in
    let valid = append-IsValid (9 ∷ length xs ∷ xs) v (omega arith) in
    let (tagged, valid', ahead) =
      read_u8_next 9 (length xs ∷ xs) valid (append-Ahead (9 ∷ length xs ∷ xs) v e (omega arith)) in
    let measured =
      (read_len-short (length xs) (omega arith)).run (skip 1 written) valid'
        (Ahead-left (length xs ∷ []) xs ahead) in
    rw ((wr_octetstring-Emits xs h).run a v (omega arith), tagged) (ground (arith, measured))

-- Where nothing is left to read, `csm_axdr_size` succeeds with the size 0, since it drops the failure of
-- `csm_ber_read_len`.
pub size_exhausted : (a : Array) → unread a ≡ 0 → size a ≡ ret (some 0) a
unfolding size read_len read_u8
size_exhausted a h = ground arith
