-- ===== src/Axdr.antt =====
-- src/csm_axdr_codec.c and src/csm_axdr_codec.h: data in A-XDR.
pub mod Strings
pub mod Tags
mod Tests
use cosemlib.Base.{
  ℕ, zero, suc, ◌+◌, ◌*◌, ◌/◌, ◌%◌, ◌-◌, Bool, true, false, not, ◌&&◌, List, [], ◌∷◌, ◌++◌, Option,
  none, some, if◌then◌else◌, ltb, leb, ◌==◌, length, Exec, ret, fault, M, pure, get, ◌>>=◌, ◌>>◌,
  ◌&&&◌, ◌&&>◌,
}
use cosemlib.Base.Words.{u16_mod, u32_mod, low8}
use cosemlib.Array
use cosemlib.Array.{Array, unread}
use cosemlib.Ber

unfoldable pub rd_null : M Array Bool
rd_null = Array.read_u8 &&> λ byte. pure (byte == 0)

-- `csm_axdr_size`: the size, where it is stored. The result of `csm_ber_read_len` is dropped.
unfoldable pub size : M Array (Option ℕ)
unfolding unread
size = do
  (measured, len) ← Ber.read_len
  a ← get
  pure (if leb len.length (unread a) then some len.length else none)

unfoldable pub rd_octetstring : M Array (Option ℕ)
unfolding size
rd_octetstring = do
  r ← Array.read_u8
  elim r [ none ↦ pure none | some byte ↦ if byte == 9 then size else pure none ]

-- `csm_axdr_decode_block`
unfoldable pub decode_block : M Array (Option ℕ)
unfolding size
decode_block = do
  r ← Array.read_u8
  elim r [ none ↦ pure none | some byte ↦ if byte == 0 then size else pure none ]

-- `axdr_size_t`; the enumerator AXDR_SIZE_CODED follows 8, so it is 9.
abbrev pub coded : ℕ
coded = 9

-- `tag_t` and `tags`
pub record Kind : Type 0 where
  pub tag : ℕ
  pub is_struct : Bool
  pub size : ℕ

abbrev kind : ℕ → Bool → ℕ → Kind
kind t s n = record { tag = t; is_struct = s; size = n }

unfoldable pub kinds : List Kind
kinds =
    kind 0 false 0
    ∷ kind 1 true coded
    ∷ kind 2 true coded
    ∷ kind 3 false 1
    ∷ kind 4 false coded
    ∷ kind 5 false 4
    ∷ kind 6 false 4
    ∷ kind 9 false coded
    ∷ kind 10 false coded
    ∷ kind 12 false coded
    ∷ kind 13 false 1
    ∷ kind 15 false 1
    ∷ kind 16 false 2
    ∷ kind 17 false 1
    ∷ kind 18 false 2
    ∷ kind 20 false 8
    ∷ kind 21 false 8
    ∷ kind 22 false 1
    ∷ []

unfoldable pub find_kind : List Kind → ℕ → Option Kind
find_kind [] t = none
find_kind (k ∷ ks) t = if k.tag == t then some k else find_kind ks t

-- `BITFIELD_BYTES`, in 32 bits
abbrev pub bitfield_bytes : ℕ → ℕ
bitfield_bytes bits = ((bits + u32_mod - 1) % u32_mod / 8 + 1) % u32_mod

-- A call of `axdr_data_cb`: the tag, the size, and the position in the buffer that the pointer has.
pub record Callback : Type 0 where
  pub tag : ℕ
  pub size : ℕ
  pub place : ℕ

-- The size of a value of a kind, and whether an error was found. On an error the size of the kind stays.
unfoldable pub value_size : Kind → M Array (ℕ × Bool)
unfolding size
value_size k =
    if k.size == coded
    then (do r ← size; elim r [ none ↦ pure (k.size, true) | some n ↦ pure (n, false) ])
    else pure (k.size, false)

abbrev pub jump_size : ℕ → ℕ → ℕ
jump_size tag n = if tag == 4 then bitfield_bytes n else n

-- One value: the callback, whose state is the list of calls, then the jump over the data. The result says
-- whether an error was found; an unknown tag is one.
unfoldable pub decode_value : ℕ → M Array (List Callback × Bool)
decode_value tag = elim (find_kind kinds tag) [
  | none ↦ pure ([], true)
  | some k ↦ do
    (n, error) ← value_size k
    a ← get
    let call : Callback = record { tag = tag; size = n; place = Array.index a a.rd_index }
    (if not k.is_struct && not (n == 0) then Array.reader_jump (jump_size tag n) else pure true)
    pure (call ∷ [], error)
]

-- The loop of `csm_axdr_decode_tags`, on fuel: after an error one more byte is read, if there is one.
-- The result is the list of calls, `none` where the fuel runs out.
unfoldable pub tags_loop : ℕ → Bool → List Callback → M Array (Option (List Callback))
tags_loop zero error calls = pure none
tags_loop (suc fuel) error calls = do
  r ← Array.read_u8
  elim r [
    | none ↦ pure (some calls)
    | some tag ↦
        if error
        then pure (some calls)
        else (do (more, error') ← decode_value tag; tags_loop fuel error' (calls ++ more))
  ]

-- `csm_axdr_decode_tags`: its result with the calls of the callback. `ret` is FALSE from the start.
unfoldable pub decode_tags : ℕ → M Array (Option (Bool × List Callback))
decode_tags fuel = do
  calls ← tags_loop fuel false []
  pure (elim calls [ none ↦ none | some cs ↦ some (false, cs) ])

-- The encoders. The size of an octet string is cut to 16 bits for `csm_ber_write_len`.
unfoldable pub wr_octetstring : List ℕ → M Array Bool
wr_octetstring buffer =
    Array.write_u8 9 &&& Ber.write_len (length buffer % u16_mod) &&& Array.write_buff buffer

unfoldable pub wr_i8 : ℕ → M Array Bool
wr_i8 value = Array.write_u8 15 &&& Array.write_u8 value

unfoldable pub wr_u16 : ℕ → M Array Bool
wr_u16 value = Array.write_u8 18 &&& Array.write_u16 value

unfoldable pub wr_boolean : ℕ → M Array Bool
wr_boolean value = Array.write_u8 9 &&& Array.write_u8 value

-- `csm_object_t`; the obis code is its six bytes in order.
pub record CosemObject : Type 0 where
  pub class_id : ℕ
  pub obis : List ℕ
  pub version : ℕ
  pub id : ℕ
  pub data_index : ℕ

unfoldable pub wr_capture_object : CosemObject → M Array Bool
unfolding wr_u16 wr_octetstring wr_i8
wr_capture_object object =
    Array.write_u8 2
    &&& Ber.write_len 4
    &&& wr_u16 object.class_id
    &&& wr_octetstring object.obis
    &&& wr_i8 object.id
    &&& wr_u16 object.data_index
