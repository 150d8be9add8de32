-- ===== src/Services/Takes.antt =====
-- What a decoder takes from the array into the message: `Takes m xs r r'` says that `m` succeeds,
-- changes the message from `r` to `r'`, and moves the read index past `xs`, wherever `xs` is ahead.
use cosemlib.Base.{
  ℕ, ◌<◌, ◌≡◌, refl, ap, ◌∙◌, Bool, true, List, [], ◌∷◌, ◌++◌, Option, some, arith, length,
  length-append, ret, M, pure, ◌>>=◌, ◌&&&◌, ◌&&>◌,
}
use cosemlib.Base.Words.{u16_mod, u32_mod, put_be16, put_be32}
use cosemlib.Array
use cosemlib.Array.{Array, Read}
use cosemlib.Array.Bounds.{IsValid}
use cosemlib.Array.Consume.{
  skip, skip-skip, skip-IsValid, Ahead, Ahead-left, Ahead-right, Reads, read_u8-Reads,
  read_u16-Reads, read_u32-Reads, read_buff-Reads,
}
use cosemlib.Services.{Exchange, on_array, update, take_u8, take_read, take_buff}

pub record Takes {R : Type 0} (m : M (Exchange R) Bool) (xs : List ℕ) (r r' : R) : Type 0 where
  pub run :
      (a : Array)
      → IsValid a
      → Ahead xs a
      → m (record { message = r; array = a })
        ≡ ret true (record { message = r'; array = skip (length xs) a })

module _ {R : Type 0} where
  pub Takes-pure : (r : R) → Takes (pure true) [] r r
  Takes-pure r = record { run = λ a v h. ground arith }

  -- A decoder whose result decides what follows.
  pub Takes-then :
      {m : M (Exchange R) Bool} (f : Bool → M (Exchange R) Bool) {xs ys : List ℕ} {r s t : R}
      → Takes m xs r s
      → Takes (f true) ys s t
      → Takes (m >>= f) (xs ++ ys) r t
  Takes-then {m} f {xs} {ys} {r} {s} {t} p q = record {
    run = λ a v h. rw (p.run a v (Ahead-left xs ys h)) (
        q.run (skip (length xs) a) (skip-IsValid (length xs) v ((Ahead-left xs ys h).inside))
          (Ahead-right xs ys h)
        ∙ ap (λ a'. ret true (record { message = t; array = a' }))
            (skip-skip (length xs) (length ys) (length (xs ++ ys)) a (length-append xs ys)));
  }

  pub Takes-&&& :
      {m k : M (Exchange R) Bool} {xs ys : List ℕ} {r s t : R}
      → Takes m xs r s
      → Takes k ys s t
      → Takes (m &&& k) (xs ++ ys) r t
  Takes-&&& p q = Takes-then _ p q

  -- A value that is read for what follows.
  pub Takes-read :
      {A : Type 0} {m : M Array A} (f : A → M (Exchange R) Bool) {xs ys : List ℕ} {x : A} {r t : R}
      → Reads m xs x
      → Takes (f x) ys r t
      → Takes (on_array m >>= f) (xs ++ ys) r t
  Takes-read {m = m} f {xs} {ys} {x} {r} {t} p q = record {
    run = λ a v h.
        rw (p.run a v (Ahead-left xs ys h), on_array)
          (q.run (skip (length xs) a) (skip-IsValid (length xs) v ((Ahead-left xs ys h).inside))
              (Ahead-right xs ys h)
            ∙ ap (λ a'. ret true (record { message = t; array = a' }))
                (skip-skip (length xs) (length ys) (length (xs ++ ys)) a (length-append xs ys)));
  }

  pub Takes-&&> :
      {A : Type 0} {m : M Array (Option A)} (f : A → M (Exchange R) Bool) {xs ys : List ℕ} {x : A}
      {r t : R}
      → Reads m xs (some x)
      → Takes (f x) ys r t
      → Takes (on_array m &&> f) (xs ++ ys) r t
  Takes-&&> f p q = Takes-read _ p q

  pub take_u8-Takes : (f : ℕ → R → R) (b : ℕ) {r : R} → Takes (take_u8 f) (b ∷ []) r (f b r)
  take_u8-Takes f b = record { run = λ a v h. rw ((read_u8-Reads b).run a v h, take_u8) refl }

  pub take_u16-Takes :
      (f : ℕ → R → R) (w : ℕ) {r : R}
      → w < u16_mod
      → Takes (take_read Array.read_u16 f) (put_be16 w) r (f w r)
  take_u16-Takes f w k = record {
    run = λ a v h. rw ((read_u16-Reads w k).run a v h, take_read) refl;
  }

  pub take_u32-Takes :
      (f : ℕ → R → R) (w : ℕ) {r : R}
      → w < u32_mod
      → Takes (take_read Array.read_u32 f) (put_be32 w) r (f w r)
  take_u32-Takes f w k = record {
    run = λ a v h. rw ((read_u32-Reads w k).run a v h, take_read) refl;
  }

  pub take_buff-Takes :
      (f : List ℕ → R → R) (xs : List ℕ) {r : R} → Takes (take_buff (length xs) f) xs r (f xs r)
  take_buff-Takes f xs = record {
    run = λ a v h. rw ((read_buff-Reads xs).run a v h, take_buff) refl;
  }

  -- A step that changes the message only.
  pub Takes-update :
      (f : R → R) (k : M (Exchange R) Bool) {xs : List ℕ} {r t : R}
      → Takes k xs (f r) t
      → Takes (update f >>= λ _. k) xs r t
  Takes-update f k q = record { run = λ a v h. q.run a v h }
