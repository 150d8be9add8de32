-- ===== src/Array/Steps.antt =====
-- Any sequence of calls on one array. `csm_array_read_buff` has a bound of its own to meet and is left
-- to `Array/Limits.antt`.
use cosemlib.Base.{
  ℕ, ◌+◌, ◌≤◌, ◌<◌, ◌≡◌, refl, sym, ◌∙◌, List, [], ◌∷◌, some, arith, length, Exec, Returns,
  Returns-bind, Returns-map, bind_exec, M, pure, ◌>>◌,
}
use mathlib.Core.Path.{subst}
use cosemlib.Base.Words.{u32_mod}
use cosemlib.Array.{
  Array, init, get_byte, set_byte, writer_jump, reader_jump, write_u8, write_u16, write_u32,
  write_buff, read_u8, read_u16, read_u32,
}
use cosemlib.Array.Bounds.{
  IsValid, Kept, init-IsValid, get_byte-Kept, set_byte-Kept, writer_jump-Kept, reader_jump-Kept,
  write_u8-Kept, write_u16-Kept, write_u32-Kept, write_buff-Kept, read_u8-Kept, read_u16-Kept,
  read_u32-Kept,
}

-- A call with its arguments.
pub data Op : Type 0 where
  get_at : ℕ → Op
  set_at : ℕ → ℕ → Op
  jump_writer : ℕ → Op
  jump_reader : ℕ → Op
  put_u8 : ℕ → Op
  put_u16 : ℕ → Op
  put_u32 : ℕ → Op
  put_bytes : List ℕ → Op
  take_u8 : Op
  take_u16 : Op
  take_u32 : Op

abbrev pub nothing : Unit {0}
nothing = tt

pub call : Op → M Array (Unit {0})
call (get_at i) = get_byte i >> pure nothing
call (set_at i b) = set_byte i b >> pure nothing
call (jump_writer n) = writer_jump n >> pure nothing
call (jump_reader n) = reader_jump n >> pure nothing
call (put_u8 b) = write_u8 b >> pure nothing
call (put_u16 w) = write_u16 w >> pure nothing
call (put_u32 w) = write_u32 w >> pure nothing
call (put_bytes xs) = write_buff xs >> pure nothing
call take_u8 = read_u8 >> pure nothing
call take_u16 = read_u16 >> pure nothing
call take_u32 = read_u32 >> pure nothing

pub calls : List Op → M Array (Unit {0})
calls [] = pure nothing
calls (o ∷ os) = call o >> calls os

-- The size that a call adds to an index.
abbrev pub amount : Op → ℕ
amount (jump_writer n) = n
amount (jump_reader n) = n
amount (put_bytes xs) = length xs
amount _ = 0

abbrev pub AllSmall : ℕ → List Op → Type 0
AllSmall size [] = Unit {0}
AllSmall size (o ∷ os) = (size + amount o < u32_mod) × AllSmall size os

done :
    {A : Type 0} (a : Array) (r : Exec Array A)
    → Returns r (λ _ a'. Kept a a')
    → Returns (bind_exec r (λ _. pure nothing)) (λ _ a'. Kept a a')
done a r h = Returns-bind (λ _ a'. Kept a a') r (λ _. pure nothing) h (λ _ _ k. k)

module _ {a : Array} (v : IsValid a) where
  -- One call keeps the invariant and the buffer, and does not fault.
  call-Kept : (o : Op) → a.size + amount o < u32_mod → Returns (call o a) (λ _ a'. Kept a a')
  unfolding call
  call-Kept (get_at i) h =
      Returns-bind (λ _ a'. Kept a a') (get_byte i a) _ (get_byte-Kept v i)
        (λ _ a' e. rw e (record { valid = v; offset_eq = refl; size_eq = refl; length_eq = refl }))
  call-Kept (set_at i b) h = done a (set_byte i b a) (set_byte-Kept v i b)
  call-Kept (jump_writer n) h = done a (writer_jump n a) (writer_jump-Kept v n (omega arith))
  call-Kept (jump_reader n) h = done a (reader_jump n a) (reader_jump-Kept v n (omega arith))
  call-Kept (put_u8 b) h = done a (write_u8 b a) (write_u8-Kept v b)
  call-Kept (put_u16 w) h = done a (write_u16 w a) (write_u16-Kept v w)
  call-Kept (put_u32 w) h = done a (write_u32 w a) (write_u32-Kept v w)
  call-Kept (put_bytes xs) h = done a (write_buff xs a) (write_buff-Kept v xs (omega arith))
  call-Kept take_u8 h = done a (read_u8 a) (read_u8-Kept v)
  call-Kept take_u16 h = done a (read_u16 a) (read_u16-Kept v)
  call-Kept take_u32 h = done a (read_u32 a) (read_u32-Kept v)

-- No sequence of calls on a valid array faults, as long as each size that it adds to an index is small
-- enough for 32 bits; it leaves a valid array over the same buffer, offset and size.
pub calls-Kept :
    (os : List Op) {a : Array}
    → IsValid a
    → AllSmall a.size os
    → Returns (calls os a) (λ _ a'. Kept a a')
unfolding calls
calls-Kept [] v h = record { valid = v; offset_eq = refl; size_eq = refl; length_eq = refl }
calls-Kept (o ∷ os) {a} v h =
    Returns-bind (λ _ a'. Kept a a') (call o a) _ (call-Kept v o h.0)
      (λ _ b k.
        Returns-map (λ _ a'. Kept a a') (calls os b)
          (calls-Kept os k.valid (subst (λ n. AllSmall n os) (sym k.size_eq) h.1))
          (λ _ c m. record {
            valid = m.valid;
            offset_eq = m.offset_eq ∙ k.offset_eq;
            size_eq = m.size_eq ∙ k.size_eq;
            length_eq = m.length_eq ∙ k.length_eq;
          }))

-- Any sequence of calls on an array that `csm_array_init` has set up runs without a fault and leaves
-- both indices inside the buffer: the buffer holds `max_size` bytes, the offset lies in it, and the
-- sizes that calls add stay small enough for 32 bits.
pub init-calls-IsValid :
    (buffer : List ℕ) (max_size used_size offset : ℕ) (os : List Op) {a : Array}
    → max_size ≤ length buffer
    → max_size < u32_mod
    → offset ≤ max_size
    → used_size + offset < u32_mod
    → init buffer max_size used_size offset ≡ some a
    → AllSmall a.size os
    → Returns (calls os a) (λ _ a'. IsValid a')
init-calls-IsValid buffer max_size used_size offset os {a} h k l m e small =
    Returns-map (λ _ a'. IsValid a') (calls os a)
      (calls-Kept os ((init-IsValid buffer max_size used_size offset h k l m e).0) small)
      (λ _ b kept. kept.valid)
