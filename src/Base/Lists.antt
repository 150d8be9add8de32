-- ===== src/Base/Lists.antt =====
-- Lists measured by native numbers, and a block of memory as a list: a window of it is read by
-- `slice` and overwritten by `splice`.
use Prim.Native.Nat.{ℕ, zero, suc, ◌+◌, ◌-◌, ◌≤◌, ◌<◌, min}
use mathlib.Core.Path.{◌≡◌, refl, ap, ◌∙◌}
use mathlib.Core.List.{List, [], ◌∷◌, ◌++◌}
use mathlib.Core.Logic.{◌↔◌}
use mathlib.Core.Bool.{Bool, true, false, ◌&&◌}
use cosemlib.Base.Tests.{◌==◌}
use mathlib.Core.Option.{Option, none, some}
use native.Mathlib.Nat.{zero-add}
use native.Mathlib.Omega.{arith}

module _ {ℓ} {A : Type ℓ} where
  abbrev pub length : List A → ℕ
  length [] = 0
  length (x ∷ xs) = suc (length xs)

  abbrev pub take : ℕ → List A → List A
  take zero xs = []
  take (suc n) [] = []
  take (suc n) (x ∷ xs) = x ∷ take n xs

  abbrev pub drop : ℕ → List A → List A
  drop zero xs = xs
  drop (suc n) [] = []
  drop (suc n) (x ∷ xs) = drop n xs

  abbrev pub replicate : ℕ → A → List A
  replicate zero a = []
  replicate (suc n) a = a ∷ replicate n a

  abbrev pub get_elem? : List A → ℕ → Option A
  get_elem? [] i = none
  get_elem? (x ∷ xs) zero = some x
  get_elem? (x ∷ xs) (suc i) = get_elem? xs i

  abbrev pub get_or : List A → ℕ → A → A
  get_or [] i d = d
  get_or (x ∷ xs) zero d = x
  get_or (x ∷ xs) (suc i) d = get_or xs i d

  abbrev pub set : List A → ℕ → A → List A
  set [] i v = []
  set (x ∷ xs) zero v = v ∷ xs
  set (x ∷ xs) (suc i) v = x ∷ set xs i v

  -- `n` elements from index `i` on, fewer where the list ends.
  unfoldable pub slice : ℕ → ℕ → List A → List A
  slice zero n bs = take n bs
  slice (suc i) n [] = []
  slice (suc i) n (b ∷ bs) = slice i n bs

  -- `xs` written over the list from index `i` on; what falls beyond its end is lost.
  unfoldable pub splice : ℕ → List A → List A → List A
  splice zero [] bs = bs
  splice zero (x ∷ xs) [] = []
  splice zero (x ∷ xs) (b ∷ bs) = x ∷ splice zero xs bs
  splice (suc i) xs [] = []
  splice (suc i) xs (b ∷ bs) = b ∷ splice i xs bs

module _ {ℓ} {A : Type ℓ} where
  pub length-append : (xs ys : List A) → length (xs ++ ys) ≡ length xs + length ys
  length-append [] ys = omega arith
  length-append (x ∷ xs) ys = omega (arith, length-append xs ys)

  pub length-take : (n : ℕ) (xs : List A) → length (take n xs) ≡ min n (length xs)
  length-take zero xs = omega arith
  length-take (suc n) [] = omega arith
  length-take (suc n) (x ∷ xs) = omega (arith, length-take n xs)

  pub length-drop : (n : ℕ) (xs : List A) → length (drop n xs) ≡ length xs - n
  length-drop zero xs = omega arith
  length-drop (suc n) [] = omega arith
  length-drop (suc n) (x ∷ xs) = omega (arith, length-drop n xs)

  pub length-splice : (i : ℕ) (xs bs : List A) → length (splice i xs bs) ≡ length bs
  unfolding splice
  length-splice zero [] bs = refl
  length-splice zero (x ∷ xs) [] = refl
  length-splice zero (x ∷ xs) (b ∷ bs) = ap suc (length-splice zero xs bs)
  length-splice (suc i) xs [] = refl
  length-splice (suc i) xs (b ∷ bs) = ap suc (length-splice i xs bs)

  pub splice-splice-zero :
      (xs ys bs : List A) → splice (length xs) ys (splice zero xs bs) ≡ splice zero (xs ++ ys) bs
  unfolding splice
  splice-splice-zero [] ys bs = refl
  splice-splice-zero (x ∷ xs) ys [] = refl
  splice-splice-zero (x ∷ xs) ys (b ∷ bs) = ap (λ t. x ∷ t) (splice-splice-zero xs ys bs)

  -- Two adjacent writes are one.
  pub splice-splice :
      (i j : ℕ) (xs ys bs : List A)
      → j ≡ i + length xs
      → splice j ys (splice i xs bs) ≡ splice i (xs ++ ys) bs
  unfolding splice
  splice-splice zero j xs ys bs e =
      ap (λ k. splice k ys (splice zero xs bs)) (e ∙ zero-add (length xs))
      ∙ splice-splice-zero xs ys bs
  splice-splice (suc i) zero xs ys bs e = absurd (omega arith)
  splice-splice (suc i) (suc j) xs ys [] e = refl
  splice-splice (suc i) (suc j) xs ys (b ∷ bs) e =
      ap (λ t. b ∷ t) (splice-splice i j xs ys bs (omega arith))

  -- Two writes to different places can change their order.
  pub splice_comm :
      (i j : ℕ) (xs ys bs : List A)
      → i + length xs ≤ j
      → splice i xs (splice j ys bs) ≡ splice j ys (splice i xs bs)
  unfolding splice
  splice_comm zero j [] ys bs h = refl
  splice_comm zero zero (x ∷ xs) ys bs h = absurd (omega arith)
  splice_comm zero (suc j) (x ∷ xs) ys [] h = refl
  splice_comm zero (suc j) (x ∷ xs) ys (b ∷ bs) h =
      ap (λ t. x ∷ t) (splice_comm zero j xs ys bs (omega arith))
  splice_comm (suc i) zero xs ys bs h = absurd (omega arith)
  splice_comm (suc i) (suc j) xs ys [] h = refl
  splice_comm (suc i) (suc j) xs ys (b ∷ bs) h =
      ap (λ t. b ∷ t) (splice_comm i j xs ys bs (omega arith))

  pub splice-eq-append :
      (xs bs : List A) → length xs ≤ length bs → splice zero xs bs ≡ xs ++ drop (length xs) bs
  unfolding splice
  splice-eq-append [] bs h = refl
  splice-eq-append (x ∷ xs) [] h = absurd (omega arith)
  splice-eq-append (x ∷ xs) (b ∷ bs) h = ap (λ t. x ∷ t) (splice-eq-append xs bs (omega arith))

  pub splice-nil : (i : ℕ) (bs : List A) → splice i [] bs ≡ bs
  unfolding splice
  splice-nil zero bs = refl
  splice-nil (suc i) [] = refl
  splice-nil (suc i) (b ∷ bs) = ap (λ t. b ∷ t) (splice-nil i bs)

  -- What was written is read back.
  pub slice-splice :
      (i : ℕ) (xs bs : List A)
      → i + length xs ≤ length bs
      → slice i (length xs) (splice i xs bs) ≡ xs
  unfolding slice splice
  slice-splice zero [] bs h = refl
  slice-splice zero (x ∷ xs) [] h = absurd (omega arith)
  slice-splice zero (x ∷ xs) (b ∷ bs) h = ap (λ t. x ∷ t) (slice-splice zero xs bs (omega arith))
  slice-splice (suc i) xs [] h = absurd (omega arith)
  slice-splice (suc i) xs (b ∷ bs) h = slice-splice i xs bs (omega arith)

  -- A write leaves what stands before it.
  pub slice-splice_before :
      (i j n : ℕ) (xs bs : List A) → j + n ≤ i → slice j n (splice i xs bs) ≡ slice j n bs
  unfolding slice splice
  slice-splice_before zero zero zero xs bs h = refl
  slice-splice_before zero zero (suc n) xs bs h = absurd (omega arith)
  slice-splice_before zero (suc j) n xs bs h = absurd (omega arith)
  slice-splice_before (suc i) zero zero xs [] h = refl
  slice-splice_before (suc i) zero zero xs (b ∷ bs) h = refl
  slice-splice_before (suc i) zero (suc n) xs [] h = refl
  slice-splice_before (suc i) zero (suc n) xs (b ∷ bs) h =
      ap (λ t. b ∷ t) (slice-splice_before i zero n xs bs (omega arith))
  slice-splice_before (suc i) (suc j) n xs [] h = refl
  slice-splice_before (suc i) (suc j) n xs (b ∷ bs) h =
      slice-splice_before i j n xs bs (omega arith)

  -- A window is the sum of two adjacent ones.
  pub slice_add :
      (i j m n : ℕ) (bs : List A) → j ≡ i + m → slice i (m + n) bs ≡ slice i m bs ++ slice j n bs
  unfolding slice
  slice_add zero zero zero n bs e = ap (λ k. take k bs) (zero-add n)
  slice_add zero zero (suc m) n bs e = absurd (omega arith)
  slice_add zero (suc j) zero n bs e = absurd (omega arith)
  slice_add zero (suc j) (suc m) n [] e = let h : suc m + n ≡ suc (m + n) = omega arith in rw h
  slice_add zero (suc j) (suc m) n (b ∷ bs) e =
      let h : suc m + n ≡ suc (m + n) = omega arith in
      rw h (ap (λ t. b ∷ t) (slice_add zero j m n bs (omega arith)))
  slice_add (suc i) zero m n bs e = absurd (omega arith)
  slice_add (suc i) (suc j) m n [] e = refl
  slice_add (suc i) (suc j) m n (b ∷ bs) e = slice_add i j m n bs (omega arith)

  pub length-slice : (i n : ℕ) (bs : List A) → i + n ≤ length bs → length (slice i n bs) ≡ n
  unfolding slice
  length-slice zero n bs h = omega (arith, length-take n bs)
  length-slice (suc i) n [] h = absurd (omega arith)
  length-slice (suc i) n (b ∷ bs) h = length-slice i n bs (omega arith)

  pub slice-eq-take : (i n : ℕ) (bs : List A) → slice i n bs ≡ take n (drop i bs)
  unfolding slice
  slice-eq-take zero n bs = refl
  slice-eq-take (suc i) zero [] = refl
  slice-eq-take (suc i) (suc n) [] = refl
  slice-eq-take (suc i) n (b ∷ bs) = slice-eq-take i n bs

  pub take-append : (xs ys : List A) → take (length xs) (xs ++ ys) ≡ xs
  take-append [] ys = refl
  take-append (x ∷ xs) ys = ap (λ t. x ∷ t) (take-append xs ys)

  pub drop-append : (xs ys : List A) → drop (length xs) (xs ++ ys) ≡ ys
  drop-append [] ys = refl
  drop-append (x ∷ xs) ys = drop-append xs ys

  pub drop-drop : (i j k : ℕ) (bs : List A) → k ≡ i + j → drop j (drop i bs) ≡ drop k bs
  drop-drop zero j k bs e = ap (λ t. drop t bs) (omega arith)
  drop-drop (suc i) j zero bs e = absurd (omega arith)
  drop-drop (suc i) zero (suc k) [] e = refl
  drop-drop (suc i) (suc j) (suc k) [] e = refl
  drop-drop (suc i) j (suc k) (b ∷ bs) e = drop-drop i j k bs (omega arith)

  -- What stands from the place of a write on.
  pub drop-splice :
      (i : ℕ) (xs bs : List A)
      → i + length xs ≤ length bs
      → drop i (splice i xs bs) ≡ xs ++ drop (i + length xs) bs
  unfolding splice
  drop-splice zero [] bs h = refl
  drop-splice zero (x ∷ xs) [] h = absurd (omega arith)
  drop-splice zero (x ∷ xs) (b ∷ bs) h =
      let e : 0 + suc (length xs) ≡ suc (0 + length xs) = omega arith in
      rw e (ap (λ t. x ∷ t) (drop-splice zero xs bs (omega arith)))
  drop-splice (suc i) xs [] h = absurd (omega arith)
  drop-splice (suc i) xs (b ∷ bs) h =
      let e : suc i + length xs ≡ suc (i + length xs) = omega arith in
      rw e (drop-splice i xs bs (omega arith))

-- `memcmp(xs, ys, n) == 0` for the `n` bytes of both.
unfoldable pub same_bytes : List ℕ → List ℕ → Bool
same_bytes [] [] = true
same_bytes [] (y ∷ ys) = false
same_bytes (x ∷ xs) [] = false
same_bytes (x ∷ xs) (y ∷ ys) = x == y && same_bytes xs ys

pub same_bytes_iff : (xs ys : List ℕ) → (same_bytes xs ys ≡ true) ↔ (xs ≡ ys)
unfolding same_bytes
same_bytes_iff (x ∷ xs) (y ∷ ys) = ground (arith, same_bytes_iff xs ys)
same_bytes_iff _ _ = ground arith

pub get_elem?-some {ℓ} :
    {A : Type ℓ} (xs : List A) (i : ℕ) → i < length xs → (x : A) × (get_elem? xs i ≡ some x)
get_elem?-some [] i h = elim h [ ]
get_elem?-some (x ∷ xs) zero h = (x, refl)
get_elem?-some (x ∷ xs) (suc i) h = get_elem?-some xs i (omega arith)
