-- ===== src/Ber/Integer.antt =====
-- One-byte integers, and object identifiers.
use cosemlib.Base.{
  ℕ, ◌+◌, ◌<◌, ◌≡◌, ◌≢◌, ◌⊎◌, refl, true, List, [], ◌∷◌, ◌++◌, arith, length, ret, ◌>>=◌, some,
  none, same_bytes_iff,
}
use cosemlib.Array.{Array}
use cosemlib.Array.Bounds.{IsValid}
use cosemlib.Array.Append.{append, Room, Emits, Emits-&&&, write_u8-Emits}
use cosemlib.Array.Consume.{
  skip, skip-IsValid, Ahead, Ahead-slice, Ahead-left, Ahead-right, reader_jump-skip, Reads,
  Reads-pure, Reads->>=, Reads-Emits, read_u8-Reads,
}
use cosemlib.Ber.{id_of, blank, write_u8, read_u8, decode_object_identifier}
use cosemlib.Ber.Decode.{decode-Reads}

pub write_u8-Emits-bytes : (x : ℕ) → Emits (write_u8 x) (2 ∷ 1 ∷ x ∷ [])
unfolding write_u8
write_u8-Emits-bytes x =
    Emits-&&& (write_u8-Emits 2) (Emits-&&& (write_u8-Emits 1) (write_u8-Emits x))

pub read_u8-integer :
    (x : ℕ) → Reads read_u8 (2 ∷ 1 ∷ x ∷ []) (record { value = some x; done = true })
unfolding read_u8
read_u8-integer x =
    Reads->>= _
      (decode-Reads 2 1 blank (omega arith) (omega arith) (omega arith) (omega arith) (omega arith))
      (Reads->>= _ (read_u8-Reads x) (Reads-pure _))

-- In a valid array whose written bytes have all been read, with room for more than three bytes, a
-- one-byte integer that `csm_ber_write_u8` writes is read back by `csm_ber_read_u8`.
read_u8-write_u8 :
    (x : ℕ) {a : Array}
    → IsValid a
    → a.rd_index ≡ a.wr_index
    → Room a 3
    → (write_u8 x >>= λ _. read_u8) a
      ≡ ret (record { value = some x; done = true }) (skip 3 (append (2 ∷ 1 ∷ x ∷ []) a))
read_u8-write_u8 x v e room = Reads-Emits (write_u8-Emits-bytes x) (read_u8-integer x) v e room

-- `csm_ber_read_u8` reports success, and stores no value, at a field that is no one-byte integer: the
-- tag, of one byte and not one of the two without a name, is not INTEGER, or the length, a short one, is
-- not 1; only the header is read. The array is valid, and the header stands next, is written, and does not end at the last byte.
pub read_u8-wrong_type :
    (t len : ℕ) {a : Array}
    → t < 256
    → id_of t ≢ 31
    → t ≢ 29
    → t ≢ 30
    → (t ≢ 2) ⊎ (len ≢ 1)
    → len < 128
    → IsValid a
    → Ahead (t ∷ len ∷ []) a
    → read_u8 a ≡ ret (record { value = none; done = true }) (skip 2 a)
unfolding read_u8
read_u8-wrong_type t len {a} h i k m o n v ahead =
    rw ((decode-Reads t len blank h i k m n).run a v ahead) (ground arith)

-- An object identifier whose header is the expected one gives its name and its id, and is read to its
-- end: the array is valid and at least seven bytes long, and the identifier stands next in it, is
-- written, and does not end at the last byte.
pub decode_object_identifier_lem :
    (header : List ℕ) (name id : ℕ) {a : Array}
    → IsValid a
    → 6 < a.size
    → Ahead (header ++ (name ∷ id ∷ [])) a
    → decode_object_identifier header a ≡ ret (some (name, id)) (skip (length header + 2) a)
unfolding decode_object_identifier
decode_object_identifier_lem header name id {a} v h ahead =
    let first = Ahead-left header (name ∷ id ∷ []) ahead in
    let tail = Ahead-right header (name ∷ id ∷ []) ahead in
    let v' = skip-IsValid (length header) v first.inside in
    let name_ahead = Ahead-left (name ∷ []) (id ∷ []) tail in
    ground (
      arith,
      Ahead-slice first,
      (same_bytes_iff header header).1 refl,
      reader_jump-skip (length header) v first.inside,
      (read_u8-Reads name).run (skip (length header) a) v' name_ahead,
      (read_u8-Reads id).run (skip 1 (skip (length header) a)) (skip-IsValid 1 v' name_ahead.inside)
          (Ahead-right (name ∷ []) (id ∷ []) tail),
    )
