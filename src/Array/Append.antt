-- ===== src/Array/Append.antt =====
-- What a writer adds to the array: `Emits m xs` says that `m` appends the bytes `xs` and succeeds,
-- wherever more than `length xs` bytes are free.
use cosemlib.Base.{
  ℕ, ◌+◌, ◌<◌, ◌≡◌, sym, ap, ◌∙◌, Bool, true, List, [], ◌∷◌, ◌++◌, arith, length, length-append,
  length-splice, splice, splice-splice, splice-nil, slice, slice-splice, slice-splice_before,
  slice_add, ret, M, pure, ◌&&&◌, ◌>>=◌, ◌>>◌,
}
use cosemlib.Base.Words.{put_be16, put_be32}
use cosemlib.Array.{Array, write_u8, write_u16, write_u32, write_buff}
use cosemlib.Array.Bounds.{IsValid}

-- The bytes written so far, and those not yet read.
abbrev pub contents : Array → List ℕ
contents a = slice a.offset a.wr_index a.buff

abbrev pub append : List ℕ → Array → Array
append xs a = record a {
  wr_index = a.wr_index + length xs;
  buff = splice (a.offset + a.wr_index) xs a.buff;
}

abbrev pub Room : Array → ℕ → Type 0
Room a n = a.offset + a.wr_index + n < a.size

pub record Emits (m : M Array Bool) (xs : List ℕ) : Type 0 where
  pub run : (a : Array) → IsValid a → Room a (length xs) → m a ≡ ret true (append xs a)

pub append-IsValid :
    (xs : List ℕ) {a : Array} → IsValid a → Room a (length xs) → IsValid (append xs a)
append-IsValid xs {a} v h = omega (arith, length-splice (a.offset + a.wr_index) xs a.buff)

pub append-nil : (a : Array) → append [] a ≡ a
append-nil a = ground (arith, splice-nil (a.offset + a.wr_index) a.buff)

pub append-append : (xs ys : List ℕ) (a : Array) → append ys (append xs a) ≡ append (xs ++ ys) a
append-append xs ys a = ground (
  arith,
  length-append xs ys,
  splice-splice (a.offset + a.wr_index) (a.offset + (a.wr_index + length xs)) xs ys a.buff,
)

-- Appending extends what was written, and leaves it.
pub contents-append :
    (xs : List ℕ) {a : Array}
    → IsValid a
    → Room a (length xs)
    → contents (append xs a) ≡ contents a ++ xs
contents-append xs {a} v h = ground (
  arith,
  slice_add a.offset (a.offset + a.wr_index) a.wr_index (length xs)
      (splice (a.offset + a.wr_index) xs a.buff),
  slice-splice_before (a.offset + a.wr_index) a.offset a.wr_index xs a.buff,
  slice-splice (a.offset + a.wr_index) xs a.buff,
)

pub Emits-nil : Emits (pure true) []
Emits-nil = record { run = λ a v h. ap (ret true) (sym (append-nil a)) }

-- Two writers after one another, the second of which may look at the result of the first.
Emits->>= :
    {m : M Array Bool} (f : Bool → M Array Bool) {xs ys : List ℕ}
    → Emits m xs
    → Emits (f true) ys
    → Emits (m >>= f) (xs ++ ys)
Emits->>= f {xs} {ys} p q = record {
  run = λ a v h.
      let room : Room a (length xs + length ys) = omega (arith, length-append xs ys) in
      rw (p.run a v (omega arith)) (
        q.run (append xs a) (append-IsValid xs v (omega arith)) (omega arith)
        ∙ ap (ret true) (append-append xs ys a));
}

-- `valid = valid && next()`
pub Emits-&&& :
    {m k : M Array Bool} {xs ys : List ℕ} → Emits m xs → Emits k ys → Emits (m &&& k) (xs ++ ys)
Emits-&&& p q = Emits->>= _ p q

pub Emits->> :
    {m k : M Array Bool} {xs ys : List ℕ} → Emits m xs → Emits k ys → Emits (m >> k) (xs ++ ys)
Emits->> p q = Emits->>= _ p q

pub write_u8-Emits : (b : ℕ) → Emits (write_u8 b) (b ∷ [])
unfolding write_u8
write_u8-Emits b = record { run = λ a v h. ground arith }

pub write_u16-Emits : (w : ℕ) → Emits (write_u16 w) (put_be16 w)
unfolding write_u16
write_u16-Emits w = record { run = λ a v h. ground arith }

pub write_u32-Emits : (w : ℕ) → Emits (write_u32 w) (put_be32 w)
unfolding write_u32
write_u32-Emits w = record { run = λ a v h. ground arith }

pub write_buff-Emits : (xs : List ℕ) → Emits (write_buff xs) xs
unfolding write_buff
write_buff-Emits xs = record { run = λ a v h. ground arith }
