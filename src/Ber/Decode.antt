-- ===== src/Ber/Decode.antt =====
-- `csm_ber_decode`: the header of a field, and the tags whose name `csm_ber_dump` looks up out of range.
use cosemlib.Base.{ℕ, ◌<◌, ◌≡◌, ◌≢◌, true, false, [], ◌∷◌, arith, ret, fault, ◌==◌, ◌∙◌, ◌⊎◌}
use cosemlib.Array.{Array}
use cosemlib.Array.Bounds.{IsValid}
use cosemlib.Array.Consume.{
  skip, skip-IsValid, Ahead, Ahead-left, Ahead-right, Reads, Reads-pure, Reads->>=, read_u8-Reads,
}
use cosemlib.Ber.{Ber, BerLength, id_of, first_tag, low7, read_tag, dump, decode}
use cosemlib.Ber.Length.{read_len-short}

-- The tags whose name is looked up beyond the end of the table.
abbrev pub NamelessTag : ℕ → Type 0
NamelessTag t = (t ≡ 29) ⊎ (t ≡ 30)

pub read_tag-Reads : (t : ℕ) → id_of t ≢ 31 → Reads read_tag (t ∷ []) (true, first_tag t)
unfolding read_tag
read_tag-Reads t h =
    let short : (id_of t == 31) ≡ false = ground arith in
    Reads->>= _ (read_u8-Reads t) (rw short (Reads-pure _))

pub read_tag-extended :
    (t x : ℕ)
    → id_of t ≡ 31
    → Reads read_tag (t ∷ x ∷ []) (true, record (first_tag t) { ext = low7 x })
unfolding read_tag
read_tag-extended t x h =
    let long : (id_of t == 31) ≡ true = ground arith in
    Reads->>= _ (read_u8-Reads t) (rw long (Reads->>= _ (read_u8-Reads x) (Reads-pure _)))

-- The name of every other tag is in the table.
pub dump-ret :
    (t : ℕ) (l : BerLength) (x : ℕ) (a : Array)
    → t < 256
    → t ≢ 29
    → t ≢ 30
    → dump (record { tag = record (first_tag t) { ext = x }; length = l }) a ≡ ret tt a
unfolding dump
dump-ret t l x a h k m = ground arith

pub dump-fault :
    (t : ℕ) (l : BerLength) (a : Array)
    → NamelessTag t
    → dump (record { tag = first_tag t; length = l }) a ≡ fault
unfolding dump
dump-fault t l a h = ground arith

dump-Reads :
    (t : ℕ) (l : BerLength) (x : ℕ)
    → t < 256
    → t ≢ 29
    → t ≢ 30
    → Reads (dump (record { tag = record (first_tag t) { ext = x }; length = l })) [] tt
dump-Reads t l x h k m = record { run = λ a v ahead. dump-ret t l x a h k m ∙ ground arith }

-- A one-byte tag and a short length.
pub decode-Reads :
    (t len : ℕ) (ber : Ber)
    → t < 256
    → id_of t ≢ 31
    → t ≢ 29
    → t ≢ 30
    → len < 128
    → Reads
        (decode ber)
        (t ∷ len ∷ [])
        (true, record { tag = first_tag t; length = record { length = len; nbytes = 1 } })
unfolding decode
decode-Reads t len ber h i k m n = Reads->>= _ (read_tag-Reads t i) (
    Reads->>= _ (read_len-short len n)
      (Reads->>= _ (dump-Reads t (record { length = len; nbytes = 1 }) 0 h k m) (Reads-pure _)))

-- A tag with one byte of extension.
pub decode-extended :
    (t x len : ℕ) (ber : Ber)
    → t < 256
    → id_of t ≡ 31
    → len < 128
    → Reads (decode ber) (t ∷ x ∷ len ∷ []) (
      true,
      record {
        tag = record (first_tag t) { ext = low7 x };
        length = record { length = len; nbytes = 1 };
      },
    )
unfolding decode
decode-extended t x len ber h i n = Reads->>= _ (read_tag-extended t x i) (
    Reads->>= _ (read_len-short len n) (
      Reads->>= _
        (dump-Reads t (record { length = len; nbytes = 1 }) (low7 x) h (ground arith)
          (ground arith))
        (Reads-pure _)))

-- `csm_ber_decode` is undefined at each universal primitive tag without an entry in the table of names,
-- 29 and 30, when a short length follows: the array is valid and the two bytes stand next in it, are
-- written, and do not end at the last byte of the buffer.
pub decode-fault :
    (t len : ℕ) (ber : Ber) {a : Array}
    → IsValid a
    → NamelessTag t
    → len < 128
    → Ahead (t ∷ len ∷ []) a
    → decode ber a ≡ fault
unfolding decode
decode-fault t len ber {a} v h n ahead =
    let tag_ahead = Ahead-left (t ∷ []) (len ∷ []) ahead in
    let len_ahead = Ahead-right (t ∷ []) (len ∷ []) ahead in
    rw ((read_tag-Reads t (ground arith)).run a v tag_ahead) (
      rw ((read_len-short len n).run (skip 1 a) (skip-IsValid 1 v tag_ahead.inside) len_ahead)
        (rw (dump-fault t (record { length = len; nbytes = 1 }) (skip 1 (skip 1 a)) h)))
