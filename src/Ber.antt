-- ===== src/Ber.antt =====
-- src/csm_ber.c and src/csm_ber.h: tags, lengths, object identifiers and one-byte integers in BER.
-- A mask or a shift is written as the quotient or remainder that it computes, and `|` of operands with
-- no common bit as a sum.
pub mod Length
pub mod Decode
pub mod Integer
mod Tests
use cosemlib.Base.{
  ℕ, zero, suc, ◌+◌, ◌*◌, ◌/◌, ◌%◌, Bool, true, false, not, ◌&&◌, List, [], ◌∷◌, Option, none, some,
  if◌then◌else◌, ltb, leb, ◌==◌, length, same_bytes, Exec, ret, fault, M, pure, crash, ◌>>=◌, ◌>>◌,
  ◌&&&◌,
}
use cosemlib.Base.Words.{u8_mod, u16_mod, shr}
use cosemlib.Array
use cosemlib.Array.{Array, Read, index, peek}

-- `ber_tag`, `ber_length` and `csm_ber`
pub record BerTag : Type 0 where
  pub cls : ℕ
  pub is_primitive : Bool
  pub id : ℕ
  pub tag : ℕ
  pub ext : ℕ
  pub nbytes : ℕ

pub record BerLength : Type 0 where
  pub length : ℕ
  pub nbytes : ℕ

pub record Ber : Type 0 where
  pub tag : BerTag
  pub length : BerLength

abbrev pub no_tag : BerTag
no_tag = record { cls = 0; is_primitive = false; id = 0; tag = 0; ext = 0; nbytes = 0 }

abbrev pub no_length : BerLength
no_length = record { length = 0; nbytes = 0 }

-- A structure after `memset`.
abbrev pub blank : Ber
blank = record { tag = no_tag; length = no_length }

-- `b & CLASS_MASK`, `b & TYPE_MASK`, `b & TAG_MASK`, and `x & LEN_MASK`
abbrev pub class_of : ℕ → ℕ
class_of b = b / 64 % 4 * 64

abbrev pub type_bit : ℕ → ℕ
type_bit b = b / 32 % 2

abbrev pub id_of : ℕ → ℕ
id_of b = b % 32

abbrev pub low7 : ℕ → ℕ
low7 x = x % 128

abbrev pub first_tag : ℕ → BerTag
first_tag b = record {
  cls = class_of b;
  is_primitive = type_bit b == 0;
  id = id_of b;
  tag = b;
  ext = 0;
  nbytes = 1;
}

-- `csm_ber_read_tag`: the result and the structure, which is filled in on failure too.
unfoldable pub read_tag : M Array (Bool × BerTag)
read_tag = do
  r ← Array.read_u8
  elim r [
    | none ↦ pure (false, no_tag)
    | some b ↦
        if id_of b == 31
        then (do
          e ← Array.read_u8
          elim e [
            | none ↦ pure (false, first_tag b)
            | some x ↦ pure (true, record (first_tag b) { ext = low7 x })
          ])
        else pure (true, first_tag b)
  ]

unfoldable pub write_len : ℕ → M Array Bool
write_len len =
    if ltb 127 len
    then Array.write_u8 (128 + 2)
      &&& Array.write_u8 (low7 (shr len 8) + 128)
      &&& Array.write_u8 (low7 len)
    else Array.write_u8 (low7 len)

-- The loop over the octets of a long length; the number is the rounds left.
unfoldable pub read_octets : ℕ → BerLength → Bool → M Array (Bool × BerLength)
read_octets zero l done = pure (done, l)
read_octets (suc n) l done = do
  r ← Array.read_u8
  elim r [
    | none ↦ pure (false, l)
    | some b ↦
        read_octets n
          (record {
            length = (l.length * 256 % u16_mod + b) % u16_mod;
            nbytes = (l.nbytes + 1) % u8_mod;
          })
          true
  ]

unfoldable pub read_len : M Array (Bool × BerLength)
unfolding read_octets
read_len = do
  r ← Array.read_u8
  elim r [
    | none ↦ pure (false, no_length)
    | some b ↦
        if b / 128 % 2 == 1
        then (if leb (low7 b) 2
            then read_octets (low7 b) (record { length = 0; nbytes = 1 }) false
            else pure (false, record { length = 0; nbytes = 1 }))
        else pure (true, record { length = b; nbytes = 1 })
  ]

-- The name and the id, if the header matches and both are read; the structure of the source is a
-- local variable of its callers, which look at it on success only.
unfoldable pub decode_object_identifier : List ℕ → M Array (Option (ℕ × ℕ))
unfolding peek
decode_object_identifier header a =
    if leb 7 a.size
    then (do
      bs ← peek (index a a.rd_index) (length header)
      if same_bytes bs header
          then (do
            jumped ← Array.reader_jump (length header)
            name ← (if jumped then Array.read_u8 else pure none)
            elim name [
              | none ↦ pure none
              | some n ↦ do
                id ← Array.read_u8
                elim id [ none ↦ pure none | some i ↦ pure (some (n, i)) ]
            ])
          else pure none)
        a
    else ret none a

-- The entries of the table `cUniversalTypes`.
abbrev pub universal_types : ℕ
universal_types = 29

-- `csm_ber_dump` looks the name of a universal primitive tag below 31 up in the table.
unfoldable pub dump : Ber → M Array (Unit {0})
dump ber a =
    if ber.tag.is_primitive && ber.tag.cls == 0 && ltb ber.tag.tag 31
    then (if ltb ber.tag.tag universal_types then ret tt a else fault)
    else ret tt a

-- `csm_ber_decode` over a structure that may be uninitialised.
unfoldable pub decode : Ber → M Array (Bool × Ber)
unfolding read_tag read_len dump
decode ber = do
  (tagged, t) ← read_tag
  if tagged
      then (do
        (measured, l) ← read_len
        if measured
            then (dump (record { tag = t; length = l })
                >> pure (true, record { tag = t; length = l }))
            else pure (false, record { tag = t; length = l }))
      else pure (false, record ber { tag = t })

unfoldable pub write_u8 : ℕ → M Array Bool
write_u8 value = Array.write_u8 2 &&& Array.write_u8 1 &&& Array.write_u8 value

-- The local structure is read only after a successful decoding.
unfoldable pub read_u8 : M Array Read
unfolding decode
read_u8 = do
  (valid, ber) ← decode blank
  if valid && ber.length.length == 1 && ber.tag.tag == 2
      then (do
        r ← Array.read_u8
        elim r [
          | none ↦ pure (record { value = none; done = false })
          | some b ↦ pure (record { value = some b; done = true })
        ])
      else pure (record { value = none; done = valid })
