-- ===== src/Hdlc/Stores.antt =====
-- The stores of `hdlc_encode`, one behind the other.
use cosemlib.Base.{
  ℕ, ◌+◌, ◌≤◌, ◌≡◌, inl, inr, refl, sym, ap, ◌∙◌, List, [], ◌∷◌, ◌++◌, some, le→leb, arith, length,
  length-append, length-splice, slice, splice, slice-splice, splice-splice, splice_comm, ret, pure,
  ◌>>=◌, ◌>>◌,
}
use cosemlib.Hdlc.{Hdlc, Sender}
use cosemlib.Hdlc.Address.{set_addr}
use cosemlib.Hdlc.Encode.{store, bytes, store_addr, store_by, store_addresses}
use cosemlib.Hdlc.Frame.{IsAddrLen, bytes_of, server_bytes, client_bytes, addresses_of}

pub store_fits :
    (i : ℕ) (xs bs : List ℕ) → i + length xs ≤ length bs → store i xs bs ≡ ret tt (splice i xs bs)
unfolding store
store_fits i xs bs h = rw (le→leb (i + length xs) (length bs) h)

pub bytes_fit : (i n : ℕ) (bs : List ℕ) → i + n ≤ length bs → bytes i n bs ≡ ret (slice i n bs) bs
unfolding bytes
bytes_fit i n bs h = rw (le→leb (i + n) (length bs) h)

-- A write right behind the first bytes.
pub store-behind :
    (i : ℕ) (xs ys buf : List ℕ)
    → i ≡ length xs
    → length xs + length ys ≤ length buf
    → store i ys (splice 0 xs buf) ≡ ret tt (splice 0 (xs ++ ys) buf)
store-behind i xs ys buf e h =
    store_fits i ys (splice 0 xs buf) (omega (arith, e, h, length-splice 0 xs buf))
    ∙ ap (ret tt) (splice-splice 0 i xs ys buf (omega (arith, e)))

pub set_addr-some :
    (n upper lower : ℕ)
    → IsAddrLen n
    → (set_addr n upper lower ≡ some (bytes_of (set_addr n upper lower)))
      × (length (bytes_of (set_addr n upper lower)) ≡ n)
unfolding set_addr
set_addr-some n upper lower (inl e) = (rw e refl, rw e refl)
set_addr-some n upper lower (inr (inl e)) = (rw e refl, rw e refl)
set_addr-some n upper lower (inr (inr e)) = (rw e refl, rw e refl)

pub length-addresses :
    (s : Sender) (h : Hdlc) → IsAddrLen h.addr_len → length (addresses_of s h) ≡ h.addr_len + 1
length-addresses Sender.server h l = omega (
  arith,
  length-append (client_bytes h) (server_bytes h),
  (set_addr-some h.addr_len h.logical_device h.phy_address l).1,
  (set_addr-some 1 h.client_addr 0 (inl refl)).1,
)
length-addresses Sender.client h l = omega (
  arith,
  length-append (server_bytes h) (client_bytes h),
  (set_addr-some h.addr_len h.logical_device h.phy_address l).1,
  (set_addr-some 1 h.client_addr 0 (inl refl)).1,
)

-- Both addresses are stored, one behind the other.
two_addresses :
    (n m u l v w : ℕ) (bs : List ℕ)
    → IsAddrLen n
    → IsAddrLen m
    → 3 + n + m ≤ length bs
    → let xs = bytes_of (set_addr n u l) in
      let ys = bytes_of (set_addr m v w) in
      (store_addr 3 (set_addr n u l) >> (store_addr (3 + n) (set_addr m v w) >> pure (3 + n + m)))
        bs
      ≡ ret (3 + length (xs ++ ys)) (splice 3 (xs ++ ys) bs)
unfolding store_addr
two_addresses n m u l v w bs p q fits =
    let xs = bytes_of (set_addr n u l) in
    let ys = bytes_of (set_addr m v w) in
    let (some_x, length_x) = set_addr-some n u l p in
    let (some_y, length_y) = set_addr-some m v w q in
    let first : store_addr 3 (set_addr n u l) bs ≡ ret tt (splice 3 xs bs) =
      ap (λ o. store_addr 3 o bs) some_x ∙ store_fits 3 xs bs (omega (arith, length_x, fits)) in
    let b = splice 3 xs bs in
    let second : store_addr (3 + n) (set_addr m v w) b ≡ ret tt (splice 3 (xs ++ ys) bs) =
      ap (λ o. store_addr (3 + n) o b) some_y
      ∙ store_fits (3 + n) ys b (omega (arith, length_y, fits, length-splice 3 xs bs))
      ∙ ap (ret tt) (splice-splice 3 (3 + n) xs ys bs (omega (arith, length_x))) in
    rw (◌>>=◌, first, second)
      (ap (λ k. ret k (splice 3 (xs ++ ys) bs))
        (omega (arith, length-append xs ys, length_x, length_y)))

store_by-run :
    (s : Sender) (h : Hdlc) (bs : List ℕ)
    → IsAddrLen h.addr_len
    → 4 + h.addr_len ≤ length bs
    → store_by s h 3 bs ≡ ret (3 + length (addresses_of s h)) (splice 3 (addresses_of s h) bs)
unfolding store_by
store_by-run Sender.server h bs l fits =
    two_addresses 1 h.addr_len h.client_addr 0 h.logical_device h.phy_address bs (inl refl) l
      (omega (arith, fits))
store_by-run Sender.client h bs l fits =
    two_addresses h.addr_len 1 h.logical_device h.phy_address h.client_addr 0 bs l (inl refl)
      (omega (arith, fits))

pub store_addresses-run :
    (h : Hdlc) (bs : List ℕ)
    → IsAddrLen h.addr_len
    → 4 + h.addr_len ≤ length bs
    → store_addresses h 3 bs
      ≡ ret (3 + length (addresses_of h.sender h)) (splice 3 (addresses_of h.sender h) bs)
unfolding store_addresses
store_addresses-run h bs l fits = store_by-run h.sender h bs l fits

-- The stores at the places 1 and 2, which come last, put the first bytes together.
put_format :
    (f : ℕ) (xs bs : List ℕ)
    → splice 1 (f ∷ []) (splice 3 xs (splice 0 (0x7E ∷ []) bs))
      ≡ splice 3 xs (splice 0 (0x7E ∷ f ∷ []) bs)
put_format f xs bs =
    splice_comm 1 3 (f ∷ []) xs (splice 0 (0x7E ∷ []) bs) (omega arith)
    ∙ ap (splice 3 xs) (splice-splice 0 1 (0x7E ∷ []) (f ∷ []) bs refl)

put_length :
    (f l : ℕ) (xs bs : List ℕ)
    → splice 2 (l ∷ []) (splice 3 xs (splice 0 (0x7E ∷ f ∷ []) bs))
      ≡ splice 0 (0x7E ∷ f ∷ l ∷ xs) bs
put_length f l xs bs =
    splice_comm 2 3 (l ∷ []) xs (splice 0 (0x7E ∷ f ∷ []) bs) (omega arith)
    ∙ ap (splice 3 xs) (splice-splice 0 2 (0x7E ∷ f ∷ []) (l ∷ []) bs refl)
    ∙ splice-splice 0 3 (0x7E ∷ f ∷ l ∷ []) xs bs refl

pub store_length :
    (f l : ℕ) (xs bs : List ℕ)
    → 3 + length xs ≤ length bs
    → (store 1 (f ∷ []) (splice 3 xs (splice 0 (0x7E ∷ []) bs))
        ≡ ret tt (splice 3 xs (splice 0 (0x7E ∷ f ∷ []) bs)))
      × (store 2 (l ∷ []) (splice 3 xs (splice 0 (0x7E ∷ f ∷ []) bs))
          ≡ ret tt (splice 0 (0x7E ∷ f ∷ l ∷ xs) bs))
store_length f l xs bs h =
    let b1 = splice 0 (0x7E ∷ []) bs in
    let b2 = splice 0 (0x7E ∷ f ∷ []) bs in
    let n1 = length-splice 3 xs b1 in
    let n2 = length-splice 3 xs b2 in
    let m1 = length-splice 0 (0x7E ∷ []) bs in
    let m2 = length-splice 0 (0x7E ∷ f ∷ []) bs in
    (
      store_fits 1 (f ∷ []) (splice 3 xs b1) (omega (arith, n1, m1, h))
          ∙ ap (ret tt) (put_format f xs bs),
      store_fits 2 (l ∷ []) (splice 3 xs b2) (omega (arith, n2, m2, h))
          ∙ ap (ret tt) (put_length f l xs bs),
    )

-- The same stores where the information field stands behind already.
pub store_length_before :
    (f l i : ℕ) (xs ys bs : List ℕ)
    → 3 + length xs ≤ i
    → i + length ys ≤ length bs
    → (store 1 (f ∷ []) (splice i ys (splice 3 xs (splice 0 (0x7E ∷ []) bs)))
        ≡ ret tt (splice i ys (splice 3 xs (splice 0 (0x7E ∷ f ∷ []) bs))))
      × (store 2 (l ∷ []) (splice i ys (splice 3 xs (splice 0 (0x7E ∷ f ∷ []) bs)))
          ≡ ret tt (splice i ys (splice 0 (0x7E ∷ f ∷ l ∷ xs) bs)))
store_length_before f l i xs ys bs h k =
    let b1 = splice 3 xs (splice 0 (0x7E ∷ []) bs) in
    let b2 = splice 3 xs (splice 0 (0x7E ∷ f ∷ []) bs) in
    let n1 = length-splice i ys b1 in
    let n2 = length-splice i ys b2 in
    let m1 = length-splice 3 xs (splice 0 (0x7E ∷ []) bs) in
    let m2 = length-splice 3 xs (splice 0 (0x7E ∷ f ∷ []) bs) in
    let k1 = length-splice 0 (0x7E ∷ []) bs in
    let k2 = length-splice 0 (0x7E ∷ f ∷ []) bs in
    (
      store_fits 1 (f ∷ []) (splice i ys b1) (omega (arith, n1, m1, k1, h, k))
          ∙ ap (ret tt) (
              splice_comm 1 i (f ∷ []) ys b1 (omega (arith, h))
              ∙ ap (splice i ys) (put_format f xs bs)),
      store_fits 2 (l ∷ []) (splice i ys b2) (omega (arith, n2, m2, k2, h, k))
          ∙ ap (ret tt) (
              splice_comm 2 i (l ∷ []) ys b2 (omega (arith, h))
              ∙ ap (splice i ys) (put_length f l xs bs)),
    )

-- What stands between the first flag and the end of the first bytes.
pub bytes-front :
    (n x : ℕ) (xs bs : List ℕ)
    → n ≡ length xs
    → 1 + length xs ≤ length bs
    → bytes 1 n (splice 0 (x ∷ xs) bs) ≡ ret xs (splice 0 (x ∷ xs) bs)
bytes-front n x xs bs e h =
    bytes_fit 1 n (splice 0 (x ∷ xs) bs) (omega (arith, e, h, length-splice 0 (x ∷ xs) bs))
    ∙ ap (λ t. ret t (splice 0 (x ∷ xs) bs))
        (ap (λ t. slice 1 n t) (sym (splice-splice 0 1 (x ∷ []) xs bs refl))
          ∙ ap (λ m. slice 1 m (splice 1 xs (splice 0 (x ∷ []) bs))) e
          ∙ slice-splice 1 xs (splice 0 (x ∷ []) bs)
              (omega (arith, h, length-splice 0 (x ∷ []) bs)))
