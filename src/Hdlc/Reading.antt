-- ===== src/Hdlc/Reading.antt =====
-- What the decoders find in a frame: its check sequences and its addresses.
use cosemlib.Base.{
  ℕ, zero, suc, ◌+◌, ◌-◌, ◌*◌, ◌/◌, ◌%◌, ◌≤◌, ◌<◌, ◌≡◌, ◌⊎◌, inl, inr, refl, sym, ap, ◌∙◌, List, [],
  ◌∷◌, ◌++◌, none, some, true, false, append_assoc, if◌then◌else◌, ◌==◌, ==_iff, ltb, leb, le→leb,
  arith, length, length-append, get_elem?, slice, slice-eq-take, drop, drop-append, take,
  take-append, ret, ◌>>=◌,
}
use cosemlib.Base.Words.{u16_mod, low8, shr}
use cosemlib.Hdlc.{Hdlc, Code, load}
use cosemlib.Hdlc.Address.{
  Parts, mask_7e, getuint16_addr, set_addr, get_addr, addr_loop, decode_addr_size,
}
use cosemlib.Hdlc.Encode.{low_first}
use cosemlib.Hdlc.Fcs.{window, check_fcs, check_hcs}
use cosemlib.Hdlc.Frame.{IsAddrLen, bytes_of, crc, crc_value, crc_bytes}
use cosemlib.Hdlc.Stores.{set_addr-some}

pub get_elem?-skip {ℓ} :
    {A : Type ℓ} (p r : List A) (k : ℕ) → get_elem? (p ++ r) (length p + k) ≡ get_elem? r k
get_elem?-skip [] r k = ap (get_elem? r) (omega arith)
get_elem?-skip (x ∷ p) r k =
    let e : suc (length p) + k ≡ suc (length p + k) = omega arith in rw e (get_elem?-skip p r k)

pub at_place {ℓ} :
    {A : Type ℓ} (p r : List A) (k i : ℕ) → i ≡ length p + k → get_elem? (p ++ r) i ≡ get_elem? r k
at_place p r k i e = ap (get_elem? (p ++ r)) e ∙ get_elem?-skip p r k

pub load_at :
    {S : Type 0} (buf : List ℕ) (i b : ℕ) (s : S)
    → get_elem? buf i ≡ some b
    → load buf i s ≡ ret b s
load_at buf i b s e = rw (load, e)

pub slice-middle :
    (p xs q : List ℕ) (i n : ℕ) → i ≡ length p → n ≡ length xs → slice i n (p ++ (xs ++ q)) ≡ xs
slice-middle p xs q i n e k =
    slice-eq-take i n (p ++ (xs ++ q))
    ∙ ap (λ j. take n (drop j (p ++ (xs ++ q)))) e
    ∙ ap (take n) (drop-append p (xs ++ q))
    ∙ ap (λ m. take m (xs ++ q)) k
    ∙ take-append xs q

-- The tests of both check sequences, on bytes with their own sequence behind them.
module _ (x : ℕ) (bs q : List ℕ) (h : Hdlc) where
  abbrev checked : List ℕ
  checked = (x ∷ []) ++ (bs ++ (crc bs ++ q))

  lo_at : get_elem? checked (length bs + 1) ≡ some (low8 (crc_value bs))
  unfolding low_first
  lo_at = at_place (x ∷ bs) (crc bs ++ q) 0 (length bs + 1) (omega arith)

  hi_at : get_elem? checked (length bs + 2) ≡ some (low8 (shr (crc_value bs) 8))
  unfolding low_first
  hi_at = at_place (x ∷ bs) (crc bs ++ q) 1 (length bs + 2) (omega arith)

  window-checked : window checked 1 (length bs) h ≡ ret bs h
  unfolding window
  window-checked =
      let fits : leb (1 + length bs) (length checked) ≡ true =
        le→leb _ _ (omega (arith, length-append bs (crc bs ++ q))) in
      rw fits (ap (λ t. ret t h) (slice-middle (x ∷ []) bs (crc bs ++ q) 1 (length bs) refl refl))

  sum_fits :
      ((low8 (shr (crc_value bs) 8) * 256 % u16_mod + low8 (crc_value bs)) % u16_mod
        == crc_value bs)
      ≡ true
  sum_fits = (==_iff _ _).1 (crc_bytes bs)

  pub check_fcs-ok : (n : ℕ) → n ≡ length bs + 4 → check_fcs checked n h ≡ ret Code.ok h
  unfolding check_fcs
  check_fcs-ok n e =
      let long : ltb n 4 ≡ false = ground arith in
      let size : n - 4 ≡ length bs = omega arith in
      let hi : n - 2 ≡ length bs + 2 = omega arith in
      let lo : n - 3 ≡ length bs + 1 = omega arith in
      rw (
        long,
        if◌then◌else◌,
        ◌>>=◌,
        size,
        window-checked,
        hi,
        load_at checked (length bs + 2) _ h hi_at,
        lo,
        load_at checked (length bs + 1) _ h lo_at,
        sum_fits,
      )

  pub check_hcs-ok : (n : ℕ) → n ≡ length bs + 3 → check_hcs checked n h ≡ ret Code.ok h
  unfolding check_hcs
  check_hcs-ok n e =
      let long : ltb n 3 ≡ false = ground arith in
      let size : n - 3 ≡ length bs = omega arith in
      let hi : n - 1 ≡ length bs + 2 = omega arith in
      let lo : n - 2 ≡ length bs + 1 = omega arith in
      rw (
        long,
        if◌then◌else◌,
        ◌>>=◌,
        size,
        window-checked,
        hi,
        load_at checked (length bs + 2) _ h hi_at,
        lo,
        load_at checked (length bs + 1) _ h lo_at,
        sum_fits,
      )

-- The bytes of an address: the lowest bit is set in the last one only.
abbrev IsEnded : List ℕ → Type 0
IsEnded [] = ⊥
IsEnded (b ∷ []) = b % 2 ≡ 1
IsEnded (b ∷ c ∷ bs) = (b % 2 ≡ 0) × IsEnded (c ∷ bs)

addr_loop-run :
    {S : Type 0} (k : ℕ) (bs p q : List ℕ) (i n : ℕ) (s : S)
    → IsEnded bs
    → length bs ≤ k
    → i ≡ length p
    → addr_loop k (p ++ (bs ++ q)) i n s ≡ ret (n + length bs) s
unfolding addr_loop
addr_loop-run k [] p q i n s h room e = absurd h
addr_loop-run zero (b ∷ bs) p q i n s h room e = absurd (omega arith)
addr_loop-run (suc k) (b ∷ []) p q i n s h room e =
    let odd : (b % 2 == 1) ≡ true = ground arith in
    rw (◌>>=◌, load_at (p ++ (b ∷ q)) i b s (at_place p (b ∷ q) 0 i (omega (arith, e))), odd)
addr_loop-run (suc k) (b ∷ c ∷ bs) p q i n s h room e =
    let even : (b % 2 == 1) ≡ false = ground arith in
    let rest =
      addr_loop-run k (c ∷ bs) (p ++ (b ∷ [])) q (i + 1) (n + 1) s (h.1) (omega (arith, room))
        (omega (arith, e, length-append p (b ∷ []))) in
    let joined : (p ++ (b ∷ [])) ++ ((c ∷ bs) ++ q) ≡ p ++ (b ∷ ((c ∷ bs) ++ q)) =
      append_assoc p (b ∷ []) ((c ∷ bs) ++ q) in
    rw
      (
        ◌>>=◌,
        load_at (p ++ (b ∷ ((c ∷ bs) ++ q))) i b s
            (at_place p (b ∷ ((c ∷ bs) ++ q)) 0 i (omega (arith, e))),
        even,
        if◌then◌else◌,
        sym joined,
        rest,
      )
      (ap (λ m. ret m s) (omega arith))

set_addr-IsEnded : (n u l : ℕ) → IsAddrLen n → IsEnded (bytes_of (set_addr n u l))
unfolding set_addr
set_addr-IsEnded n u l (inl e) = rw e (omega arith)
set_addr-IsEnded n u l (inr (inl e)) = rw e (omega arith)
set_addr-IsEnded n u l (inr (inr e)) = rw e (omega arith)

IsAddrLen-le : (n : ℕ) → IsAddrLen n → n ≤ 4
IsAddrLen-le n h = ground arith

pub decode_addr_size-run :
    {S : Type 0} (n u l : ℕ) (p q : List ℕ) (i size : ℕ) (s : S)
    → IsAddrLen n
    → i ≡ length p
    → 4 ≤ size
    → decode_addr_size (p ++ (bytes_of (set_addr n u l) ++ q)) i size s ≡ ret n s
unfolding decode_addr_size
decode_addr_size-run n u l p q i size s h e k =
    let rounds : (if ltb size 4 then size else 4) ≡ 4 = ground arith in
    let size_n = (set_addr-some n u l h).1 in
    rw rounds (
      addr_loop-run 4 (bytes_of (set_addr n u l)) p q i 0 s (set_addr-IsEnded n u l h)
        (omega (arith, size_n, IsAddrLen-le n h)) e
      ∙ ap (λ m. ret m s) (omega (arith, size_n)))

-- The addresses that come back, and what they come back as.
abbrev pub IsAddress : ℕ → ℕ → ℕ → Type 0
IsAddress n u l =
    ((n ≡ 1) × (u < 128))
    ⊎ (((n ≡ 2) × (u < 64) × (l < 128))
        ⊎ ((n ≡ 4) × (u < 16384) × (u % 256 < 64) × (l < 16384) × (l % 256 < 128)))

abbrev pub parts : ℕ → ℕ → ℕ → Parts
parts n u l = (u, if n == 1 then none else some l)

pub IsAddress-IsAddrLen : (n u l : ℕ) → IsAddress n u l → IsAddrLen n
IsAddress-IsAddrLen n u l h = ground arith

load_byte :
    {S : Type 0} (p r : List ℕ) (k i b : ℕ) (s : S)
    → i ≡ length p + k
    → get_elem? r k ≡ some b
    → load (p ++ r) i s ≡ ret b s
load_byte p r k i b s e f = load_at (p ++ r) i b s (at_place p r k i e ∙ f)

pub get_addr-run :
    {S : Type 0} (n u l : ℕ) (p q : List ℕ) (i : ℕ) (s : S)
    → IsAddress n u l
    → i ≡ length p
    → get_addr (p ++ (bytes_of (set_addr n u l) ++ q)) i n s ≡ ret (some (parts n u l)) s
unfolding get_addr set_addr getuint16_addr
get_addr-run n u l p q i s (inl (e, h)) at =
    let a = low8 (u * 2) + 1 in
    rw e (
      rw (◌>>=◌, load_byte p (a ∷ q) 0 i a s (omega (arith, at)) refl)
        (ap (λ x. ret (some (x, none)) s) (omega arith)))
get_addr-run n u l p q i s (inr (inl (e, h, k))) at =
    let a = mask_7e (low8 (u * 2)) in
    let b = low8 (l * 2) + 1 in
    let bs = a ∷ b ∷ q in
    let upper : a / 2 ≡ u = omega arith in
    let lower : b / 2 ≡ l = omega arith in
    rw e (
      rw (
        ◌>>=◌,
        load_byte p bs 0 i a s (omega (arith, at)) refl,
        load_byte p bs 1 (i + 1) b s (omega (arith, at)) refl,
        upper,
        lower,
      ))
get_addr-run n u l p q i s (inr (inr (e, h, h', k, k'))) at =
    let a = mask_7e (low8 (shr u 7)) in
    let b = mask_7e (low8 (u * 2)) in
    let c = mask_7e (low8 (shr l 7)) in
    let d = low8 (l * 2) + 1 in
    let bs = a ∷ b ∷ c ∷ d ∷ q in
    let upper : (a / 2 * 256 % u16_mod + b / 2) % u16_mod ≡ u = omega arith in
    let lower : (c / 2 * 256 % u16_mod + d / 2) % u16_mod ≡ l = omega arith in
    rw e (
      rw (
        ◌>>=◌,
        load_byte p bs 0 i a s (omega (arith, at)) refl,
        load_byte p bs 1 (i + 1) b s (omega (arith, at)) refl,
        load_byte p bs 2 (i + 2) c s (omega (arith, at)) refl,
        load_byte p bs 3 (i + 3) d s (omega (arith, at)) refl,
        upper,
        lower,
      ))
