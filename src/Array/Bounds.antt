-- ===== src/Array/Bounds.antt =====
-- The invariant of `csm_array`, an array whose indices lie inside its buffer, under each operation.
use cosemlib.Base.{
  ℕ, ◌+◌, ◌≤◌, ◌<◌, ◌≡◌, List, [], ◌∷◌, some, arith, length, length-splice, Returns,
}
use cosemlib.Base.Words.{u32_mod, put_be16, put_be32}
use cosemlib.Array.{
  Array, index, init, get_byte, set_byte, writer_jump, reader_jump, write_u8, write_u16, write_u32,
  write_buff, read_buff, read_u8, read_u16, read_u32,
}

pub record IsValid (a : Array) : Type 0 where
  pub fits : a.size ≤ length a.buff
  pub small : a.size < u32_mod
  pub written_in : a.offset + a.wr_index ≤ a.size
  pub read_in : a.offset + a.rd_index ≤ a.size

-- The invariant holds after the operation, and the buffer is the same object.
pub record Kept (a a' : Array) : Type 0 where
  pub valid : IsValid a'
  pub offset_eq : a'.offset ≡ a.offset
  pub size_eq : a'.size ≡ a.size
  pub length_eq : length a'.buff ≡ length a.buff

-- What `csm_array_init` makes of a large enough buffer is valid.
pub init-IsValid :
    (buffer : List ℕ) (max_size used_size offset : ℕ) {a : Array}
    → max_size ≤ length buffer
    → max_size < u32_mod
    → offset ≤ max_size
    → used_size + offset < u32_mod
    → init buffer max_size used_size offset ≡ some a
    → IsValid a × (a.rd_index ≡ 0)
unfolding init
init-IsValid buffer max_size used_size offset h k l m e = ground arith

-- Where a size is added to an index, the sum must not wrap round 32 bits.
module _ {a : Array} (v : IsValid a) where
  pub get_byte-Kept : (i : ℕ) → Returns (get_byte i a) (λ _ a'. a' ≡ a)
  unfolding get_byte
  get_byte-Kept i = ground arith

  pub set_byte-Kept : (i b : ℕ) → Returns (set_byte i b a) (λ _ a'. Kept a a')
  unfolding set_byte
  set_byte-Kept i b = ground (arith, length-splice (index a i) (b ∷ []) a.buff)

  pub writer_jump-Kept :
      (n : ℕ) → a.offset + a.wr_index + n < u32_mod → Returns (writer_jump n a) (λ _ a'. Kept a a')
  unfolding writer_jump
  writer_jump-Kept n h = ground arith

  pub reader_jump-Kept :
      (n : ℕ) → a.offset + a.rd_index + n < u32_mod → Returns (reader_jump n a) (λ _ a'. Kept a a')
  unfolding reader_jump
  reader_jump-Kept n h = ground arith

  pub write_u8-Kept : (b : ℕ) → Returns (write_u8 b a) (λ _ a'. Kept a a')
  unfolding write_u8
  write_u8-Kept b = ground (arith, length-splice (index a a.wr_index) (b ∷ []) a.buff)

  pub write_u16-Kept : (w : ℕ) → Returns (write_u16 w a) (λ _ a'. Kept a a')
  unfolding write_u16
  write_u16-Kept w = ground (arith, length-splice (index a a.wr_index) (put_be16 w) a.buff)

  pub write_u32-Kept : (w : ℕ) → Returns (write_u32 w a) (λ _ a'. Kept a a')
  unfolding write_u32
  write_u32-Kept w = ground (arith, length-splice (index a a.wr_index) (put_be32 w) a.buff)

  pub write_buff-Kept :
      (xs : List ℕ)
      → a.offset + a.wr_index + length xs < u32_mod
      → Returns (write_buff xs a) (λ _ a'. Kept a a')
  unfolding write_buff
  write_buff-Kept xs h = ground (arith, length-splice (index a a.wr_index) xs a.buff)

  pub read_u8-Kept : Returns (read_u8 a) (λ _ a'. Kept a a')
  unfolding read_u8
  read_u8-Kept = ground arith

  pub read_u16-Kept : Returns (read_u16 a) (λ _ a'. Kept a a')
  unfolding read_u16
  read_u16-Kept = ground arith

  pub read_u32-Kept : Returns (read_u32 a) (λ _ a'. Kept a a')
  unfolding read_u32
  read_u32-Kept = ground arith

  -- The copy comes first: the call is safe where the bytes are memory of the buffer's object.
  pub read_buff-Kept :
      (n : ℕ)
      → a.offset + a.rd_index + n ≤ length a.buff
      → a.offset + a.rd_index + n < u32_mod
      → Returns (read_buff n a) (λ _ a'. Kept a a')
  unfolding read_buff
  read_buff-Kept n h k = ground arith
