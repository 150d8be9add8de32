-- ===== src/Axdr/Tags.antt =====
-- The loop of `csm_axdr_decode_tags`, and its result.
use cosemlib.Base.{
  ℕ, zero, suc, ◌+◌, ◌/◌, ◌%◌, ◌≤◌, ◌<◌, ◌≡◌, ◌⊎◌, inl, inr, refl, ◌∙◌, Bool, true, false, not,
  ◌&&◌, List, [], ◌++◌, some, none, arith, Exec, pure, Returns, Returns-bind, Returns-map,
  if◌then◌else◌, Bool-cases, Option-cases, ◌==◌,
}
use cosemlib.Base.Tests.{leb}
use cosemlib.Base.Words.{u32_mod}
use cosemlib.Array.{Array, unread, read_u8, reader_jump}
use cosemlib.Array.Bounds.{IsValid}
use cosemlib.Ber.{BerLength, read_len, read_octets, low7}
use cosemlib.Axdr.{
  Kind, Callback, size, coded, kinds, find_kind, value_size, decode_value, tags_loop, decode_tags,
  jump_size,
}
use mathlib.Core.Logic.{◌≢◌}

-- Reading goes on: the array is valid, has the same bounds, and no more is unread than before.
record Onward (a a' : Array) : Type 0 where
  valid : IsValid a'
  size_eq : a'.size ≡ a.size
  less : unread a' ≤ unread a

Onward-refl : {a : Array} → IsValid a → Onward a a
Onward-refl v = record { valid = v; size_eq = refl; less = omega arith }

Onward-trans : {a b c : Array} → Onward a b → Onward b c → Onward a c
Onward-trans p q = record { valid = q.valid; size_eq = q.size_eq ∙ p.size_eq; less = omega arith }

on_from :
    {A : Type 0} {a b : Array}
    → Onward a b
    → (r : Exec Array A) → Returns r (λ _ c. Onward b c)
    → Returns r (λ _ c. Onward a c)
on_from {a = a} h r k = Returns-map (λ _ c. Onward a c) r k (λ _ c m. Onward-trans h m)

-- A byte that is read makes the rest shorter.
read_u8-Onward :
    {a : Array}
    → IsValid a
    → Returns (read_u8 a) (λ r a'. Onward a a' × ((r ≡ none) ⊎ (unread a' < unread a)))
unfolding read_u8
read_u8-Onward v = ground arith

reader_jump-Onward :
    (n : ℕ) {a : Array}
    → IsValid a
    → a.offset + a.rd_index + n < u32_mod
    → Returns (reader_jump n a) (λ _ a'. Onward a a')
unfolding reader_jump unread
reader_jump-Onward n v h = ground arith

read_octets-Onward :
    (n : ℕ) (l : BerLength) (done : Bool) {a : Array}
    → IsValid a
    → Returns (read_octets n l done a) (λ _ a'. Onward a a')
unfolding read_octets
read_octets-Onward zero l done v = Onward-refl v
read_octets-Onward (suc n) l done {a} v =
    Returns-bind (λ _ b. Onward a b) (read_u8 a) _ (read_u8-Onward v)
      (λ r b h. elim (Option-cases r) [
        | inl e ↦ rw e h.0
        | inr (x, e) ↦ rw e (on_from h.0 _ (read_octets-Onward n _ true h.0.valid))
      ])

read_len-Onward : {a : Array} → IsValid a → Returns (read_len a) (λ _ a'. Onward a a')
unfolding read_len
read_len-Onward {a} v =
    Returns-bind (λ _ b. Onward a b) (read_u8 a) _ (read_u8-Onward v)
      (λ r b h. elim (Option-cases r) [
        | inl e ↦ rw e h.0
        | inr (x, e) ↦ elim (Bool-cases (x / 128 % 2 == 1)) [
          | inl long ↦ elim (Bool-cases (leb (low7 x) 2)) [
            | inl few ↦
                rw (e, long, few)
                  (on_from h.0 (read_octets (low7 x) (record { length = 0; nbytes = 1 }) false b) (
                    read_octets-Onward (low7 x) (record { length = 0; nbytes = 1 }) false
                      h.0.valid))
            | inr many ↦ rw (e, long, many) h.0
          ]
          | inr short ↦ rw (e, short) h.0
        ]
      ])

size-Onward :
    {a : Array}
    → IsValid a
    → Returns (size a) (λ r a'. Onward a a' × ((n : ℕ) → r ≡ some n → n ≤ unread a'))
unfolding size
size-Onward {a} v =
    Returns-bind (λ r c. Onward a c × ((n : ℕ) → r ≡ some n → n ≤ unread c)) (read_len a) _
      (read_len-Onward v) (λ r b h. (h, (λ n e. ground arith)))

value_size-Onward :
    (k : Kind) {a : Array}
    → IsValid a
    → Returns (value_size k a) (λ r a'. Onward a a' × ((r.0 ≤ unread a') ⊎ (r.0 ≡ k.size)))
unfolding value_size
value_size-Onward k {a} v = elim (Bool-cases (k.size == coded)) [
  | inl is_coded ↦ rw is_coded (
      Returns-bind (λ r c. Onward a c × ((r.0 ≤ unread c) ⊎ (r.0 ≡ k.size))) (size a) _
        (size-Onward v)
        (λ r b h. elim (Option-cases r) [
          | inl e ↦ rw e (h.0, inr refl)
          | inr (n, e) ↦ rw e (h.0, inl (h.1 n e))
        ]))
  | inr fixed ↦ rw fixed (Onward-refl v, inr refl)
]

find_kind-small : (t : ℕ) {k : Kind} → find_kind kinds t ≡ some k → k.size ≤ 9
unfolding find_kind kinds
find_kind-small t e = ground arith

-- What a jump over the data adds: at most the bytes unread, or a fixed size.
jump_size-small :
    (tag n k u : ℕ)
    → (n ≤ u) ⊎ (n ≡ k)
    → k ≤ 9
    → n ≢ 0
    → u < u32_mod
    → (jump_size tag n ≤ u) ⊎ (jump_size tag n ≤ 9)
jump_size-small tag n k u h l z m = ground arith

unread-inside : {a : Array} → IsValid a → a.offset + a.rd_index + unread a ≤ a.size
unfolding unread
unread-inside v = ground arith

jump-Onward :
    (tag n k : ℕ) (skips : Bool) {a : Array}
    → IsValid a
    → a.size + 9 < u32_mod
    → (n ≤ unread a) ⊎ (n ≡ k)
    → k ≤ 9
    → Returns
        ((if skips && not (n == 0) then reader_jump (jump_size tag n) else pure true) a)
        (λ _ a'. Onward a a')
jump-Onward tag n k skips {a} v room h l = elim (Bool-cases (skips && not (n == 0))) [
  | inl jumps ↦
      let inside = unread-inside v in
      let some_bytes : n ≢ 0 = ground arith in
      let small =
        jump_size-small tag n k (unread a) h l some_bytes (omega (arith, inside, v.small)) in
      rw jumps (
        reader_jump-Onward (jump_size tag n) v (elim small [
          | inl few ↦ omega (arith, few, inside, v.small)
          | inr few ↦ omega (arith, few, inside, room)
        ]))
  | inr stays ↦ rw stays (Onward-refl v)
]

decode_value-Onward :
    (tag : ℕ) {a : Array}
    → IsValid a
    → a.size + 9 < u32_mod
    → Returns (decode_value tag a) (λ _ a'. Onward a a')
unfolding decode_value
decode_value-Onward tag {a} v room = elim (Option-cases (find_kind kinds tag)) [
  | inl unknown ↦ rw (unknown, decode_value) (Onward-refl v)
  | inr (k, found) ↦
      rw (found, decode_value)
        (Returns-bind (λ _ c. Onward a c) (value_size k a) _ (value_size-Onward k v)
          (λ r b h.
            Returns-bind (λ _ c. Onward a c)
              ((if not k.is_struct && not (r.0 == 0)
                  then reader_jump (jump_size tag r.0)
                  else pure true)
                b)
              _
              (jump-Onward tag r.0 k.size (not k.is_struct) h.0.valid
                (omega (arith, h.0.size_eq, room)) h.1 (find_kind-small tag found))
              (λ _ c m. Onward-trans h.0 m)))
]

tags_loop-ends :
    (fuel : ℕ) (error : Bool) (calls : List Callback) {a : Array}
    → IsValid a
    → a.size + 9 < u32_mod
    → unread a < fuel
    → Returns (tags_loop fuel error calls a) (λ r _. (cs : List Callback) × (r ≡ some cs))
unfolding tags_loop
tags_loop-ends zero error calls v room h = absurd (omega arith)
tags_loop-ends (suc fuel) error calls {a} v room h =
    Returns-bind (λ r _. (cs : List Callback) × (r ≡ some cs)) (read_u8 a) _ (read_u8-Onward v)
      (λ r b m. elim (Option-cases r) [
        | inl e ↦ rw e (calls, refl)
        | inr (tag, e) ↦ elim (Bool-cases error) [
          | inl stop ↦ rw (e, stop) (calls, refl)
          | inr go ↦
              let less : unread b < unread a = elim m.1 [
                | inl gone ↦ absurd (cc (e, gone))
                | inr l ↦ l
              ] in
              rw (e, go)
                (Returns-bind (λ r _. (cs : List Callback) × (r ≡ some cs)) (decode_value tag b) _
                  (decode_value-Onward tag m.0.valid (omega (arith, m.0.size_eq, room)))
                  (λ d c k.
                    tags_loop-ends fuel d.1 (calls ++ d.0) k.valid
                      (omega (arith, m.0.size_eq, k.size_eq, room))
                      (omega (arith, k.less, less, h))))
        ]
      ])

-- `csm_axdr_decode_tags` ends with fuel for more rounds than there are unread bytes, without a fault,
-- and always returns FALSE, whatever the data is: the array is valid and not within nine bytes of 32
-- bits.
pub decode_tags-ends :
    (fuel : ℕ) {a : Array}
    → IsValid a
    → a.size + 9 < u32_mod
    → unread a < fuel
    → Returns (decode_tags fuel a) (λ r _. (cs : List Callback) × (r ≡ some (false, cs)))
unfolding decode_tags
decode_tags-ends fuel {a} v room h =
    Returns-bind (λ r _. (cs : List Callback) × (r ≡ some (false, cs))) (tags_loop fuel false [] a)
      _ (tags_loop-ends fuel false [] v room h) (λ r b k. rw (k.1) (k.0, refl))
