-- ===== src/Hdlc/Addressed.antt =====
-- The addresses of a frame, read by `hdlc_decode`.
use cosemlib.Base.{
  ℕ, ◌+◌, ◌≤◌, ◌<◌, ◌≡◌, inl, refl, sym, ap, ◌∙◌, List, ◌++◌, Option, none, some, if◌then◌else◌,
  ◌==◌, arith, length, length-append, append_assoc, ret, ◌>>=◌,
}
use cosemlib.Hdlc.{Hdlc, Code, Sender}
use cosemlib.Hdlc.Address.{decode_addr_size}
use cosemlib.Hdlc.Decode.{
  set_server, server_address, client_address, first_address, second_address, decode_addresses_of,
  decode_control,
}
use cosemlib.Hdlc.Frame.{server_bytes, client_bytes, addresses_of}
use cosemlib.Hdlc.Stores.{set_addr-some}
use cosemlib.Hdlc.Reading.{
  decode_addr_size-run, IsAddress, IsAddress-IsAddrLen, parts, get_addr-run,
}

-- The state with the addresses of `h`.
abbrev server_of : Hdlc → Hdlc → Hdlc
server_of h d = record (set_server (parts h.addr_len h.logical_device h.phy_address) d) {
  addr_len = h.addr_len;
}

abbrev pub addressed : Hdlc → Hdlc → Hdlc
addressed h d = record (server_of h d) { client_addr = h.client_addr }

server_address-run :
    (h d : Hdlc) (p q : List ℕ) (i : ℕ)
    → IsAddress h.addr_len h.logical_device h.phy_address
    → i ≡ length p
    → server_address (p ++ (server_bytes h ++ q)) i h.addr_len d ≡ ret Code.ok (server_of h d)
unfolding server_address
server_address-run h d p q i a e =
    rw (◌>>=◌, get_addr-run h.addr_len h.logical_device h.phy_address p q i d a e)

client_address-run :
    (h d : Hdlc) (p q : List ℕ) (i : ℕ)
    → h.client_addr < 128
    → i ≡ length p
    → client_address (p ++ (client_bytes h ++ q)) i 1 d
      ≡ ret Code.ok (record d { client_addr = h.client_addr })
unfolding client_address
client_address-run h d p q i a e =
    rw (◌>>=◌, get_addr-run 1 h.client_addr 0 p q i d (inl (refl, a)) e)

either_order : (h d : Hdlc) → server_of h (record d { client_addr = h.client_addr }) ≡ addressed h d
either_order h d = by_parts h.logical_device (if h.addr_len == 1 then none else some h.phy_address)
  where
    by_parts :
        (u : ℕ) (o : Option ℕ)
        → record (set_server (u, o) (record d { client_addr = h.client_addr })) {
          addr_len = h.addr_len;
        }
          ≡ record (set_server (u, o) d) { addr_len = h.addr_len; client_addr = h.client_addr }
    by_parts u none = refl
    by_parts u (some l) = refl

pub addressed-frame_size : (h d : Hdlc) → (addressed h d).frame_size ≡ d.frame_size
addressed-frame_size h d =
    by_parts h.logical_device (if h.addr_len == 1 then none else some h.phy_address)
  where
    by_parts : (u : ℕ) (o : Option ℕ) → (set_server (u, o) d).frame_size ≡ d.frame_size
    by_parts u none = refl
    by_parts u (some l) = refl

pub decode_addresses_of-run :
    (s : Sender) (h d : Hdlc) (p r : List ℕ)
    → length p ≡ 3
    → IsAddress h.addr_len h.logical_device h.phy_address
    → h.client_addr < 128
    → 4 ≤ d.frame_size
    → decode_addresses_of s (p ++ (addresses_of s h ++ r)) d
      ≡ decode_control
          (p ++ (addresses_of s h ++ r))
          (3 + length (addresses_of s h))
          (addressed h d)
unfolding decode_addresses_of first_address second_address
decode_addresses_of-run Sender.client h d p r three a c long =
    let xs = server_bytes h in
    let ys = client_bytes h in
    let l = IsAddress-IsAddrLen h.addr_len h.logical_device h.phy_address a in
    let n = (set_addr-some h.addr_len h.logical_device h.phy_address l).1 in
    let one_byte = (set_addr-some 1 h.client_addr 0 (inl refl)).1 in
    let buf = p ++ (xs ++ (ys ++ r)) in
    let shape : p ++ ((xs ++ ys) ++ r) ≡ buf = ap (λ t. p ++ t) (append_assoc xs ys r) in
    let shape' : (p ++ xs) ++ (ys ++ r) ≡ buf = append_assoc p xs (ys ++ r) in
    let d1 = server_of h d in
    let first =
      decode_addr_size-run h.addr_len h.logical_device h.phy_address p (ys ++ r) 3 d.frame_size d l
        (sym three) long in
    let served = server_address-run h d p (ys ++ r) 3 a (sym three) in
    let place : 3 + h.addr_len ≡ length (p ++ xs) = omega (arith, length-append p xs, n, three) in
    let second : decode_addr_size buf (3 + h.addr_len) d.frame_size d1 ≡ ret 1 d1 =
      ap (λ t. decode_addr_size t (3 + h.addr_len) d.frame_size d1) (sym shape')
      ∙ decode_addr_size-run 1 h.client_addr 0 (p ++ xs) r (3 + h.addr_len) d.frame_size d1
          (inl refl) place long in
    let called : client_address buf (3 + h.addr_len) 1 d1 ≡ ret Code.ok (addressed h d) =
      ap (λ t. client_address t (3 + h.addr_len) 1 d1) (sym shape')
      ∙ client_address-run h d1 (p ++ xs) r (3 + h.addr_len) c place in
    let there : 3 + h.addr_len + 1 ≡ 3 + length (xs ++ ys) =
      omega (arith, length-append xs ys, n, one_byte) in
    rw (shape, ◌>>=◌, first, served, shape, second, called, shape, there)
decode_addresses_of-run Sender.server h d p r three a c long =
    let xs = client_bytes h in
    let ys = server_bytes h in
    let l = IsAddress-IsAddrLen h.addr_len h.logical_device h.phy_address a in
    let n = (set_addr-some h.addr_len h.logical_device h.phy_address l).1 in
    let one_byte = (set_addr-some 1 h.client_addr 0 (inl refl)).1 in
    let buf = p ++ (xs ++ (ys ++ r)) in
    let shape : p ++ ((xs ++ ys) ++ r) ≡ buf = ap (λ t. p ++ t) (append_assoc xs ys r) in
    let shape' : (p ++ xs) ++ (ys ++ r) ≡ buf = append_assoc p xs (ys ++ r) in
    let d1 = record d { client_addr = h.client_addr } in
    let first =
      decode_addr_size-run 1 h.client_addr 0 p (ys ++ r) 3 d.frame_size d (inl refl) (sym three)
        long in
    let called = client_address-run h d p (ys ++ r) 3 c (sym three) in
    let place : 3 + 1 ≡ length (p ++ xs) = omega (arith, length-append p xs, three, one_byte) in
    let second : decode_addr_size buf (3 + 1) d.frame_size d1 ≡ ret h.addr_len d1 =
      ap (λ t. decode_addr_size t (3 + 1) d.frame_size d1) (sym shape')
      ∙ decode_addr_size-run h.addr_len h.logical_device h.phy_address (p ++ xs) r (3 + 1)
          d.frame_size d1 l place long in
    let served : server_address buf (3 + 1) h.addr_len d1 ≡ ret Code.ok (addressed h d) =
      ap (λ t. server_address t (3 + 1) h.addr_len d1) (sym shape')
      ∙ server_address-run h d1 (p ++ xs) r (3 + 1) a place
      ∙ ap (ret Code.ok) (either_order h d) in
    let there : 3 + 1 + h.addr_len ≡ 3 + length (xs ++ ys) =
      omega (arith, length-append xs ys, n, one_byte) in
    rw (shape, ◌>>=◌, first, called, shape, second, served, shape, there)
