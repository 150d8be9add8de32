-- ===== src/Array/Limits.antt =====
-- The array at the end of its buffer, on every branch: the writers when the room just suffices, and
-- the copy of `csm_array_read_buff`, which no index stops.
use cosemlib.Base.{
  ℕ, ◌+◌, ◌<◌, ◌≡◌, true, false, List, [], ◌∷◌, arith, length, slice, ltb, leb, if◌then◌else◌, min,
  ◌-◌, some, ret, fault, ◌>>=◌,
}
use cosemlib.Base.Words.{u16_mod, u32_mod, put_be16, put_be32}
use cosemlib.Array.{
  Array, write_u8, write_u16, write_u32, write_buff, read_buff, read_u16, read_u32,
}
use cosemlib.Array.Bounds.{IsValid}
use cosemlib.Array.Append.{append, Room, write_u16-Emits, write_u32-Emits}
use cosemlib.Array.Consume.{skip, Reads-Emits, read_u16-Reads, read_u32-Reads}

-- In a valid array `csm_array_write_u8` appends the byte and succeeds exactly when a byte is free, and
-- changes nothing otherwise.
pub write_u8_branches :
    (b : ℕ) {a : Array}
    → IsValid a
    → write_u8 b a ≡ (
        if leb (a.offset + a.wr_index + 1) a.size
        then ret true (append (b ∷ []) a)
        else ret false a)
unfolding write_u8
write_u8_branches b v = ground arith

-- In a valid array `csm_array_write_buff` appends the bytes and succeeds exactly when they fit, and
-- changes nothing otherwise, if the end of the bytes does not wrap round 32 bits.
pub write_buff_branches :
    (xs : List ℕ) {a : Array}
    → IsValid a
    → a.offset + a.wr_index + length xs < u32_mod
    → write_buff xs a ≡ (
        if leb (a.offset + a.wr_index + length xs) a.size
        then ret true (append xs a)
        else ret false a)
unfolding write_buff
write_buff_branches xs v h = ground arith

-- In a valid array `csm_array_write_u16` appends two bytes whenever they fit, but reports success only
-- if a byte is still free behind them; where they do not fit it changes nothing.
pub write_u16_branches :
    (w : ℕ) {a : Array}
    → IsValid a
    → write_u16 w a ≡ (
        if leb (a.offset + a.wr_index + 2) a.size
        then ret (ltb (a.offset + a.wr_index + 2) a.size) (append (put_be16 w) a)
        else ret false a)
unfolding write_u16
write_u16_branches w v = ground arith

-- In a valid array `csm_array_write_u32` appends four bytes whenever they fit, but reports success only
-- if a byte is still free behind them; where they do not fit it changes nothing.
pub write_u32_branches :
    (w : ℕ) {a : Array}
    → IsValid a
    → write_u32 w a ≡ (
        if leb (a.offset + a.wr_index + 4) a.size
        then ret (ltb (a.offset + a.wr_index + 4) a.size) (append (put_be32 w) a)
        else ret false a)
unfolding write_u32
write_u32_branches w v = ground arith

-- The writers at the end of the buffer, in a valid array: a byte, and bytes whose end does not wrap round
-- 32 bits, are appended with success exactly when they fit; a 16-bit and a 32-bit number are appended
-- whenever they fit, but with success only if a byte is still free behind them; whatever does not fit
-- changes nothing.
pub write_branches :
    (b w v : ℕ) (xs : List ℕ) {a : Array}
    → IsValid a
    → a.offset + a.wr_index + length xs < u32_mod
    → let end = a.offset + a.wr_index in
      (write_u8 b a ≡ (if leb (end + 1) a.size then ret true (append (b ∷ []) a) else ret false a))
      × (write_buff xs a
          ≡ (if leb (end + length xs) a.size then ret true (append xs a) else ret false a))
      × (write_u16 w a ≡ (
          if leb (end + 2) a.size
          then ret (ltb (end + 2) a.size) (append (put_be16 w) a)
          else ret false a))
      × (write_u32 v a ≡ (
          if leb (end + 4) a.size
          then ret (ltb (end + 4) a.size) (append (put_be32 v) a)
          else ret false a))
write_branches b w v xs valid fits = (
  write_u8_branches b valid,
  write_buff_branches xs valid fits,
  write_u16_branches w valid,
  write_u32_branches v valid,
)

-- In a valid array `csm_array_read_buff` returns the `n` bytes from the read position on, whether they
-- were written or not, as long as they are memory of the buffer's object, and is undefined beyond it.
-- The read position moves by `n`, up to the size at most, and success means that it stays below it.
pub read_buff_branches :
    (n : ℕ) {a : Array}
    → IsValid a
    → a.offset + a.rd_index + n < u32_mod
    → let start = a.offset + a.rd_index in
      read_buff n a ≡ (
        if leb (start + n) (length a.buff)
        then ret
            (slice start n a.buff, ltb (start + n) a.size)
            (record a { rd_index = min (a.rd_index + n) (a.size - a.offset) })
        else fault)
unfolding read_buff
read_buff_branches n v h = ground arith

-- In a valid array whose written bytes have all been read, a 16-bit number that is written with a byte
-- to spare is read back, and every written byte has been read again.
pub read_u16-write_u16 :
    (w : ℕ) {a : Array}
    → IsValid a
    → a.rd_index ≡ a.wr_index
    → w < u16_mod
    → Room a 2
    → (write_u16 w >>= λ _. read_u16) a
      ≡ ret (record { value = some w; done = true }) (skip 2 (append (put_be16 w) a))
unfolding put_be16
read_u16-write_u16 w v e k h = Reads-Emits (write_u16-Emits w) (read_u16-Reads w k) v e h

-- In the same array, with room for four bytes, a 32-bit number that is written is read back.
pub read_u32-write_u32 :
    (w : ℕ) {a : Array}
    → IsValid a
    → a.rd_index ≡ a.wr_index
    → w < u32_mod
    → Room a 4
    → (write_u32 w >>= λ _. read_u32) a
      ≡ ret (record { value = some w; done = true }) (skip 4 (append (put_be32 w) a))
unfolding put_be32
read_u32-write_u32 w v e k h = Reads-Emits (write_u32-Emits w) (read_u32-Reads w k) v e h

-- In a valid array whose written bytes have all been read, with a byte to spare, a 16-bit and a 32-bit
-- number that are written are read back, and every written byte has been read again.
read-write :
    (w v : ℕ) {a : Array}
    → IsValid a
    → a.rd_index ≡ a.wr_index
    → w < u16_mod
    → v < u32_mod
    → Room a 4
    → ((write_u16 w >>= λ _. read_u16) a
        ≡ ret (record { value = some w; done = true }) (skip 2 (append (put_be16 w) a)))
      × ((write_u32 v >>= λ _. read_u32) a
          ≡ ret (record { value = some v; done = true }) (skip 4 (append (put_be32 v) a)))
read-write w v valid e small small' room =
    (read_u16-write_u16 w valid e small (omega arith), read_u32-write_u32 v valid e small' room)
