-- ===== src/Hdlc/Framing.antt =====
-- The frames that `hdlc_decode` accepts.
use cosemlib.Base.{
  ℕ, ◌+◌, ◌*◌, ◌/◌, ◌%◌, ◌-◌, ◌≤◌, ◌≡◌, refl, ap, true, List, some, arith, length, get_elem?, Exec,
  ret, fault, M, pure, slice, bit_xor, bind_exec, Option-cases, inl, inr,
}
use cosemlib.Base.Words.{u16_mod}
use cosemlib.Hdlc.{Hdlc, Code, get_len}
use cosemlib.Hdlc.Fcs.{pppfcs16, check_fcs}
use cosemlib.Hdlc.Decode.{decode, decode_addresses, is_format_3}

-- What a frame shows of its own form: the flags, the format, the length within what was received, and
-- the check sequence over all between the flags but itself, low byte first.
pub record WellFramed (buf : List ℕ) (size : ℕ) : Type 0 where
  pub format : ℕ
  pub low : ℕ
  pub lo : ℕ
  pub hi : ℕ
  pub frame_size : ℕ
  pub opened : get_elem? buf 0 ≡ some 0x7E
  pub format_at : get_elem? buf 1 ≡ some format
  pub low_at : get_elem? buf 2 ≡ some low
  pub is_type_3 : is_format_3 format ≡ true
  pub measured : frame_size ≡ (get_len format low + 2) % u16_mod
  pub received : frame_size ≤ size
  pub long_enough : 4 ≤ frame_size
  pub inside : 1 + (frame_size - 4) ≤ length buf
  pub closed : get_elem? buf (frame_size - 1) ≡ some 0x7E
  pub lo_at : get_elem? buf (frame_size - 3) ≡ some lo
  pub hi_at : get_elem? buf (frame_size - 2) ≡ some hi
  pub checked :
      (hi * 256 % u16_mod + lo) % u16_mod
      ≡ bit_xor (pppfcs16 0xffff (slice 1 (frame_size - 4) buf)) 0xffff

check_fcs-ok :
    (buf : List ℕ) (n : ℕ) (h : Hdlc) {h' : Hdlc}
    → check_fcs buf n h ≡ ret Code.ok h'
    → (hi : ℕ) × (lo : ℕ) × (4 ≤ n)
      × (1 + (n - 4) ≤ length buf)
      × (get_elem? buf (n - 3) ≡ some lo)
      × (get_elem? buf (n - 2) ≡ some hi)
      × ((hi * 256 % u16_mod + lo) % u16_mod
          ≡ bit_xor (pppfcs16 0xffff (slice 1 (n - 4) buf)) 0xffff)
unfolding check_fcs
check_fcs-ok buf n h e = elim (Option-cases (get_elem? buf (n - 2))) [
  | inl gone ↦ absurd (ground arith)
  | inr (hi, hi_at) ↦ elim (Option-cases (get_elem? buf (n - 3))) [
    | inl gone ↦ absurd (ground arith)
    | inr (lo, lo_at) ↦ (hi, lo, ground arith, ground arith, lo_at, hi_at, ground arith)
  ]
]

continues :
    (code : Code) (k : M Hdlc Code) (s : Hdlc) {h' : Hdlc}
    → (elim code as (λ x. M Hdlc Code) [ Code.ok ↦ k | other ↦ pure other ]) s ≡ ret Code.ok h'
    → code ≡ Code.ok
continues Code.ok k s e = refl
continues _ k s e = cc

check-continues :
    (r : Exec Hdlc Code) (k : M Hdlc Code) {h' : Hdlc}
    → bind_exec r (λ code. elim code [ Code.ok ↦ k | other ↦ pure other ]) ≡ ret Code.ok h'
    → (s : Hdlc) × (r ≡ ret Code.ok s)
check-continues (ret code s) k e = (s, ap (λ c. ret c s) (continues code k s e))
check-continues fault k e = cc

decode-format :
    (buf : List ℕ) (size : ℕ) (h : Hdlc) {h' : Hdlc}
    → decode buf size h ≡ ret Code.ok h'
    → (b : ℕ) × (get_elem? buf 1 ≡ some b)
unfolding decode
decode-format buf size h e = elim (Option-cases (get_elem? buf 1)) [
  | inl gone ↦ absurd (ground arith)
  | inr there ↦ there
]

decode-low :
    (buf : List ℕ) (size : ℕ) (h : Hdlc) {h' : Hdlc}
    → decode buf size h ≡ ret Code.ok h'
    → (b : ℕ) × (get_elem? buf 2 ≡ some b)
unfolding decode
decode-low buf size h e = elim (Option-cases (get_elem? buf 2)) [
  | inl gone ↦ absurd (ground arith)
  | inr there ↦ there
]

-- The run of a frame that is accepted, up to the test of its check sequence.
decode-checks :
    (buf : List ℕ) (size format low : ℕ) (h : Hdlc) {h' : Hdlc}
    → get_elem? buf 1 ≡ some format
    → get_elem? buf 2 ≡ some low
    → decode buf size h ≡ ret Code.ok h'
    → let n = (get_len format low + 2) % u16_mod in
      (get_elem? buf 0 ≡ some 0x7E)
      × (is_format_3 format ≡ true)
      × (n ≤ size)
      × (get_elem? buf (n - 1) ≡ some 0x7E)
      × (bind_exec
            (check_fcs buf n (record h { segmentation = format / 8 % 2; frame_size = n }))
            (λ code. elim code [ Code.ok ↦ decode_addresses buf | other ↦ pure other ])
          ≡ ret Code.ok h')
unfolding decode
decode-checks buf size format low h p q e =
    (ground arith, ground arith, ground arith, ground arith, ground arith)

-- A frame that `hdlc_decode` accepts is well framed: flags at both ends, format 3, a length within what
-- was received, and a check sequence that fits.
pub decode-WellFramed :
    (buf : List ℕ) (size : ℕ) (h : Hdlc) {h' : Hdlc}
    → decode buf size h ≡ ret Code.ok h'
    → WellFramed buf size
decode-WellFramed buf size h e =
    let (format, format_at) = decode-format buf size h e in
    let (low, low_at) = decode-low buf size h e in
    let (opened, is_type_3, received, closed, run) =
      decode-checks buf size format low h format_at low_at e in
    let (s, checked) = check-continues _ _ run in
    let (hi, lo, long_enough, inside, lo_at, hi_at, sums) = check_fcs-ok buf _ _ checked in
    record {
      format = format;
      low = low;
      lo = lo;
      hi = hi;
      frame_size = (get_len format low + 2) % u16_mod;
      opened = opened;
      format_at = format_at;
      low_at = low_at;
      is_type_3 = is_type_3;
      measured = refl;
      received = received;
      long_enough = long_enough;
      inside = inside;
      closed = closed;
      lo_at = lo_at;
      hi_at = hi_at;
      checked = sums;
    }
