-- ===== src/Ber/Length.antt =====
-- BER lengths: what `csm_ber_read_len` makes of each form, and what `csm_ber_write_len` writes.
use cosemlib.Base.{
  ℕ, ◌+◌, ◌*◌, ◌/◌, ◌%◌, ◌<◌, ◌≤◌, ◌≡◌, refl, true, false, List, [], ◌∷◌, arith, if◌then◌else◌, ltb,
  ret, ◌>>=◌, Bool-cases, inl, inr,
}
use mathlib.Core.Path.{subst}
use cosemlib.Base.Words.{shr}
use cosemlib.Array.{Array}
use cosemlib.Array.Bounds.{IsValid}
use cosemlib.Array.Append.{append, Room, Emits, Emits-&&&, write_u8-Emits}
use cosemlib.Array.Consume.{
  skip, Reads, Reads-pure, Reads-pure_eq, Reads->>=, Reads-Emits, read_u8-Reads,
}
use cosemlib.Ber.{low7, write_len, read_len}

-- The bytes that `csm_ber_write_len` writes.
abbrev pub length_bytes : ℕ → List ℕ
length_bytes len =
    if ltb 127 len then 130 ∷ (low7 (shr len 8) + 128) ∷ low7 len ∷ [] else low7 len ∷ []

pub write_len-Emits : (len : ℕ) → Emits (write_len len) (length_bytes len)
unfolding write_len
write_len-Emits len = elim (Bool-cases (ltb 127 len)) [
  | inl long ↦
      rw long (Emits-&&& (write_u8-Emits _) (Emits-&&& (write_u8-Emits _) (write_u8-Emits _)))
  | inr short ↦ rw short (write_u8-Emits (low7 len))
]

pub write_len-short : (len : ℕ) → len ≤ 127 → Emits (write_len len) (len ∷ [])
write_len-short len h =
    let short : ltb 127 len ≡ false = ground arith in
    let same : len % 128 ≡ len = omega arith in
    subst (Emits (write_len len)) (rw (short, same) refl) (write_len-Emits len)

pub read_len-short :
    (b : ℕ) → b < 128 → Reads read_len (b ∷ []) (true, record { length = b; nbytes = 1 })
unfolding read_len
read_len-short b h =
    Reads->>= _ (read_u8-Reads b) (let e : b / 128 % 2 ≡ 0 = omega arith in rw e (Reads-pure _))

pub read_len-octet :
    (b : ℕ) → b < 256 → Reads read_len (129 ∷ b ∷ []) (true, record { length = b; nbytes = 2 })
unfolding read_len
read_len-octet b h =
    Reads->>= _ (read_u8-Reads 129) (Reads->>= _ (read_u8-Reads b) (Reads-pure_eq (ground arith)))

pub read_len-octets :
    (a b : ℕ)
    → a < 256
    → b < 256
    → Reads read_len (130 ∷ a ∷ b ∷ []) (true, record { length = a * 256 + b; nbytes = 3 })
unfolding read_len
read_len-octets a b h k =
    Reads->>= _ (read_u8-Reads 130)
      (Reads->>= _ (read_u8-Reads a) (Reads->>= _ (read_u8-Reads b) (Reads-pure_eq (ground arith))))

-- In a valid array whose written bytes have all been read, with a byte to spare, a length up to 127 that
-- is written is read back, in one byte.
pub read_len-write_len :
    (len : ℕ) {a : Array}
    → IsValid a
    → a.rd_index ≡ a.wr_index
    → len ≤ 127
    → Room a 1
    → (write_len len >>= λ _. read_len) a
      ≡ ret (true, record { length = len; nbytes = 1 }) (skip 1 (append (len ∷ []) a))
read_len-write_len len v e h room =
    Reads-Emits (write_len-short len h) (read_len-short len (omega arith)) v e room

-- A length above 127 is written in three bytes that `csm_ber_read_len` accepts as another length: 32768
-- is always added, for the top bit of the high byte, and bits 7 and 15 of the length are lost. The array
-- is valid, its written bytes have all been read, and there is room for more than three bytes.
pub read_len-write_len_long :
    (len : ℕ) {a : Array}
    → IsValid a
    → a.rd_index ≡ a.wr_index
    → 127 < len
    → Room a 3
    → let high = len / 256 % 128 + 128 in
      (write_len len >>= λ _. read_len) a
      ≡ ret
          (true, record { length = high * 256 + len % 128; nbytes = 3 })
          (skip 3 (append (130 ∷ high ∷ len % 128 ∷ []) a))
read_len-write_len_long len {a} v e h room =
    let long : ltb 127 len ≡ true = ground arith in
    let three : Emits (write_len len) (130 ∷ (low7 (shr len 8) + 128) ∷ low7 len ∷ []) =
      subst (Emits (write_len len)) (rw long refl) (write_len-Emits len) in
    Reads-Emits three
      (read_len-octets (low7 (shr len 8) + 128) (low7 len) (omega arith) (omega arith)) v e room
