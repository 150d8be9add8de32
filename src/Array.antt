-- ===== src/Array.antt =====
-- src/csm_array.c and src/csm_array.h: a byte buffer behind a read and a write index.
pub mod Bounds
pub mod Append
pub mod Consume
pub mod Steps
pub mod Limits
mod Tests
use cosemlib.Base.{
  ℕ, ◌+◌, ◌-◌, ◌%◌, ◌≡◌, Bool, true, false, List, [], ◌∷◌, Option, none, some, if◌then◌else◌,
  length, slice, splice, ltb, leb, Exec, ret, fault, M, pure, crash, get, put, ◌>>=◌, ◌>>◌,
}
use cosemlib.Base.Words.{u32_mod, put_be16, put_be32, get_be16, get_be32}

-- `csm_array`. `buff` is the memory of the object that the pointer points to.
pub record Array : Type 0 where
  pub rd_index : ℕ
  pub wr_index : ℕ
  pub offset : ℕ
  pub size : ℕ
  pub buff : List ℕ

-- `INDEX(array, i)`, in 32 bits; `WR_INDEX` and `RD_INDEX` are instances.
abbrev pub index : Array → ℕ → ℕ
index a i = (i + a.offset) % u32_mod

-- The reads and writes of memory that the functions make; outside the object they are a fault.
unfoldable pub peek : ℕ → ℕ → M Array (List ℕ)
peek i n a = if leb (i + n) (length a.buff) then ret (slice i n a.buff) a else fault

unfoldable pub poke : ℕ → List ℕ → M Array (Unit {0})
poke i xs a =
    if leb (i + length xs) (length a.buff)
    then ret tt (record a { buff = splice i xs a.buff })
    else fault

-- `csm_array_init`; the assertion is `used_size <= max_size`.
unfoldable pub init : List ℕ → ℕ → ℕ → ℕ → Option Array
init buffer max_size used_size offset =
    if leb used_size max_size
    then some (record {
      rd_index = 0;
      wr_index =
          if leb max_size ((used_size + offset) % u32_mod)
          then (max_size + u32_mod - offset) % u32_mod
          else used_size;
      offset = offset;
      size = max_size;
      buff = buffer;
    })
    else none

-- The one byte of a window.
abbrev pub first_byte : List ℕ → ℕ
first_byte [] = 0
first_byte (b ∷ bs) = b

-- `csm_array_get`: `none` is the result FALSE, with 0 through the pointer.
unfoldable pub get_byte : ℕ → M Array (Option ℕ)
unfolding peek
get_byte i a =
    if ltb (index a i) a.size
    then (peek (index a i) 1 >>= λ bs. pure (some (first_byte bs))) a
    else ret none a

unfoldable pub set_byte : ℕ → ℕ → M Array Bool
unfolding poke
set_byte i byte a =
    if ltb (index a i) a.size then (poke (index a i) (byte ∷ []) >> pure true) a else ret false a

unfoldable pub free_size : Array → ℕ
free_size a = (a.size + u32_mod - index a a.wr_index) % u32_mod

unfoldable pub written : Array → ℕ
written a = index a a.wr_index

unfoldable pub unread : Array → ℕ
unread a = if ltb a.rd_index a.wr_index then a.wr_index - a.rd_index else 0

-- Both jumps saturate at the end of the buffer.
unfoldable pub writer_jump : ℕ → M Array Bool
writer_jump n a =
    let wr = (a.wr_index + n) % u32_mod in
    if leb a.size (index a wr)
    then ret false (record a { wr_index = (a.size + u32_mod - a.offset) % u32_mod })
    else ret true (record a { wr_index = wr })

unfoldable pub reader_jump : ℕ → M Array Bool
reader_jump n a =
    let rd = (a.rd_index + n) % u32_mod in
    if leb a.size (index a rd)
    then ret false (record a { rd_index = (a.size + u32_mod - a.offset) % u32_mod })
    else ret true (record a { rd_index = rd })

unfoldable pub write_u8 : ℕ → M Array Bool
unfolding free_size poke
write_u8 byte a =
    if leb 1 (free_size a)
    then (do
      poke (index a a.wr_index) (byte ∷ [])
      a' ← get
      put (record a' { wr_index = (a'.wr_index + 1) % u32_mod })
      pure true)
        a
    else ret false a

unfoldable pub write_u16 : ℕ → M Array Bool
unfolding free_size poke writer_jump put_be16
write_u16 value a =
    if leb 2 (free_size a)
    then (poke (index a a.wr_index) (put_be16 value) >> writer_jump 2) a
    else ret false a

unfoldable pub write_u32 : ℕ → M Array Bool
unfolding free_size poke writer_jump put_be32
write_u32 value a =
    if leb 4 (free_size a)
    then (poke (index a a.wr_index) (put_be32 value) >> writer_jump 4) a
    else ret false a

-- `memcpy` of the `size` bytes `xs`; the sum with the size is in 32 bits.
unfoldable pub write_buff : List ℕ → M Array Bool
unfolding poke
write_buff xs a =
    if leb ((index a a.wr_index + length xs) % u32_mod) a.size
    then (do
      poke (index a a.wr_index) xs
      a' ← get
      put (record a' { wr_index = (a'.wr_index + length xs) % u32_mod })
      pure true)
        a
    else ret false a

-- `csm_array_read_buff` copies before it looks at a bound: the bytes and the result of the jump.
unfoldable pub read_buff : ℕ → M Array (List ℕ × Bool)
unfolding peek reader_jump
read_buff n a = (do bs ← peek (index a a.rd_index) n; done ← reader_jump n; pure (bs, done)) a

unfoldable pub read_u8 : M Array (Option ℕ)
unfolding unread peek
read_u8 a =
    if leb 1 (unread a)
    then (do
      bs ← peek (index a a.rd_index) 1
      a' ← get
      put (record a' { rd_index = (a'.rd_index + 1) % u32_mod })
      pure (some (first_byte bs)))
        a
    else ret none a

abbrev pub word16 : List ℕ → ℕ
word16 (a ∷ b ∷ _) = get_be16 a b
word16 _ = 0

abbrev pub word32 : List ℕ → ℕ
word32 (a ∷ b ∷ c ∷ d ∷ _) = get_be32 a b c d
word32 _ = 0

-- What goes through the pointer, when it is written, and the result of the function.
pub record Read : Type 0 where
  pub value : Option ℕ
  pub done : Bool

unfoldable pub read_u16 : M Array Read
unfolding unread peek reader_jump
read_u16 a =
    if leb 2 (unread a)
    then (do
      bs ← peek (index a a.rd_index) 2
      done ← reader_jump 2
      pure (record { value = some (word16 bs); done = done }))
        a
    else ret (record { value = none; done = false }) a

unfoldable pub read_u32 : M Array Read
unfolding unread peek reader_jump
read_u32 a =
    if leb 4 (unread a)
    then (do
      bs ← peek (index a a.rd_index) 4
      done ← reader_jump 4
      pure (record { value = some (word32 bs); done = done }))
        a
    else ret (record { value = none; done = false }) a
