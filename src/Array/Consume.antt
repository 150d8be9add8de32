-- ===== src/Array/Consume.antt =====
-- What a reader takes from the array: `Reads m xs r` says that `m` returns `r` and moves the read
-- index past `xs`, wherever `xs` stands next, is written, and does not end at the buffer's last byte.
use cosemlib.Base.{
  ℕ, ◌+◌, ◌≤◌, ◌<◌, ◌≡◌, sym, ap, ◌∙◌, Bool, true, List, [], ◌∷◌, ◌++◌, append_assoc, Option, some,
  arith, length, length-append, slice, slice-eq-take, take, take-append, drop, drop-append,
  drop-drop, drop-splice, ret, M, pure, ◌>>=◌, ◌&&>◌,
}
use cosemlib.Base.Words.{
  u16_mod, u32_mod, put_be16, put_be32, get_be16, get_be16-put_be16, get_be32-put_be32,
}
use cosemlib.Array.{Array, reader_jump, read_u8, read_u16, read_u32, read_buff}
use cosemlib.Array.Bounds.{IsValid}
use cosemlib.Array.Append.{append, append-IsValid, Room, Emits}

abbrev pub skip : ℕ → Array → Array
skip n a = record a { rd_index = a.rd_index + n }

pub record Ahead (xs : List ℕ) (a : Array) : Type 0 where
  pub rest : List ℕ
  pub next : drop (a.offset + a.rd_index) a.buff ≡ xs ++ rest
  pub written_up : a.rd_index + length xs ≤ a.wr_index
  pub inside : a.offset + a.rd_index + length xs < a.size

pub record Reads {A : Type 0} (m : M Array A) (xs : List ℕ) (r : A) : Type 0 where
  pub run : (a : Array) → IsValid a → Ahead xs a → m a ≡ ret r (skip (length xs) a)

pub skip-IsValid :
    (n : ℕ) {a : Array} → IsValid a → a.offset + a.rd_index + n < a.size → IsValid (skip n a)
skip-IsValid n v h = omega arith

pub Ahead-slice :
    {xs : List ℕ} {a : Array} → Ahead xs a → slice (a.offset + a.rd_index) (length xs) a.buff ≡ xs
Ahead-slice {xs} {a} h =
    slice-eq-take (a.offset + a.rd_index) (length xs) a.buff
    ∙ ap (take (length xs)) h.next
    ∙ take-append xs h.rest

pub Ahead-left : (xs ys : List ℕ) {a : Array} → Ahead (xs ++ ys) a → Ahead xs a
Ahead-left xs ys h = record {
  rest = ys ++ h.rest;
  next = h.next ∙ append_assoc xs ys h.rest;
  written_up = omega (arith, length-append xs ys);
  inside = omega (arith, length-append xs ys);
}

pub Ahead-right : (xs ys : List ℕ) {a : Array} → Ahead (xs ++ ys) a → Ahead ys (skip (length xs) a)
Ahead-right xs ys {a} h = record {
  rest = h.rest;
  next =
      sym (
        drop-drop (a.offset + a.rd_index) (length xs) (a.offset + (a.rd_index + length xs)) a.buff
          (omega arith))
      ∙ ap (drop (length xs)) (h.next ∙ append_assoc xs ys h.rest)
      ∙ drop-append xs (ys ++ h.rest);
  written_up = omega (arith, length-append xs ys);
  inside = omega (arith, length-append xs ys);
}

-- What has just been written is next, if all before it has been read.
pub append-Ahead :
    (xs : List ℕ) {a : Array}
    → IsValid a
    → a.rd_index ≡ a.wr_index
    → Room a (length xs)
    → Ahead xs (append xs a)
append-Ahead xs {a} v e h = record {
  rest = drop (a.offset + a.wr_index + length xs) a.buff;
  next = rw e (drop-splice (a.offset + a.wr_index) xs a.buff (omega arith));
  written_up = omega arith;
  inside = omega arith;
}

pub skip-skip : (m n k : ℕ) (a : Array) → k ≡ m + n → skip n (skip m a) ≡ skip k a
skip-skip m n k a e = ground arith

pub Reads-pure : {A : Type 0} (r : A) → Reads (pure r) [] r
Reads-pure r = record { run = λ a v h. ground arith }

pub Reads-pure_eq : {A : Type 0} {r s : A} → r ≡ s → Reads (pure r) [] s
Reads-pure_eq e = rw e (Reads-pure _)

pub Reads->>= :
    {A B : Type 0} {m : M Array A} (f : A → M Array B) {xs ys : List ℕ} {r : A} {s : B}
    → Reads m xs r
    → Reads (f r) ys s
    → Reads (m >>= f) (xs ++ ys) s
Reads->>= f {xs = xs} {ys = ys} {s = s} p q = record {
  run = λ a v h. rw (p.run a v (Ahead-left xs ys h)) (
      q.run (skip (length xs) a) (skip-IsValid (length xs) v ((Ahead-left xs ys h).inside))
        (Ahead-right xs ys h)
      ∙ ap (ret s) (skip-skip (length xs) (length ys) (length (xs ++ ys)) a (length-append xs ys)));
}

pub Reads-&&> :
    {A : Type 0} {m : M Array (Option A)} (f : A → M Array Bool) {xs ys : List ℕ} {r : A} {s : Bool}
    → Reads m xs (some r)
    → Reads (f r) ys s
    → Reads (m &&> f) (xs ++ ys) s
Reads-&&> f p q = Reads->>= _ p q

pub read_u8-Reads : (b : ℕ) → Reads read_u8 (b ∷ []) (some b)
unfolding read_u8
read_u8-Reads b = record { run = λ a v h. ground (arith, Ahead-slice h) }

pub read_u16-Reads :
    (w : ℕ) → w < u16_mod → Reads read_u16 (put_be16 w) (record { value = some w; done = true })
unfolding read_u16 put_be16
read_u16-Reads w k = record { run = λ a v h. ground (arith, Ahead-slice h, get_be16-put_be16 w) }

pub read_u32-Reads :
    (w : ℕ) → w < u32_mod → Reads read_u32 (put_be32 w) (record { value = some w; done = true })
unfolding read_u32 put_be32
read_u32-Reads w k = record { run = λ a v h. ground (arith, Ahead-slice h, get_be32-put_be32 w) }

pub read_buff-Reads : (xs : List ℕ) → Reads (read_buff (length xs)) xs (xs, true)
unfolding read_buff
read_buff-Reads xs = record { run = λ a v h. ground (arith, Ahead-slice h) }

pub read_u16-bytes :
    (b c : ℕ) → Reads read_u16 (b ∷ c ∷ []) (record { value = some (get_be16 b c); done = true })
unfolding read_u16
read_u16-bytes b c = record { run = λ a v h. ground (arith, Ahead-slice h) }

-- One byte, with what is then ahead.
pub read_u8_next :
    (b : ℕ) (bs : List ℕ) {a : Array}
    → IsValid a
    → Ahead (b ∷ bs) a
    → (read_u8 a ≡ ret (some b) (skip 1 a)) × IsValid (skip 1 a) × Ahead bs (skip 1 a)
read_u8_next b bs {a} v h =
    let first = Ahead-left (b ∷ []) bs h in
    ((read_u8-Reads b).run a v first, skip-IsValid 1 v first.inside, Ahead-right (b ∷ []) bs h)

pub reader_jump-skip :
    (n : ℕ) {a : Array}
    → IsValid a
    → a.offset + a.rd_index + n < a.size
    → reader_jump n a ≡ ret true (skip n a)
unfolding reader_jump
reader_jump-skip n v h = ground arith

-- Reading right after writing: with everything before it read, what `m` appends `k` reads back.
pub Reads-Emits :
    {A : Type 0} {m : M Array Bool} {k : M Array A} {xs : List ℕ} {r : A}
    → Emits m xs
    → Reads k xs r
    → {a : Array} → IsValid a
    → a.rd_index ≡ a.wr_index
    → Room a (length xs)
    → (m >>= λ _. k) a ≡ ret r (skip (length xs) (append xs a))
Reads-Emits {xs = xs} p q {a} v e h =
    rw (p.run a v h) (q.run (append xs a) (append-IsValid xs v h) (append-Ahead xs v e h))
