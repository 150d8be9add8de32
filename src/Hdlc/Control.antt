-- ===== src/Hdlc/Control.antt =====
-- hdlc/hdlc.c: the control field of a frame.
use cosemlib.Base.{
  ℕ, ◌+◌, ◌*◌, ◌/◌, ◌%◌, ◌<◌, ◌≡◌, refl, sym, ap, ◌∙◌, bit_and, bit_or, true, List, [], ◌∷◌, Option,
  none, some, if◌then◌else◌, ◌==◌, ==_iff, arith,
}
use cosemlib.Base.Words.{low8}
use cosemlib.Base.Bits.{holds_below, holds_below_at}
use cosemlib.Hdlc.{Hdlc, Code, Packet, info, rr, rnr, snrm, disc, ua, dm, frmr, ui, bad}

-- `hdlc_packet_t` and `cPACKET_TYPES`
pub record Pattern : Type 0 where
  pub type : Packet
  pub mask : ℕ
  pub value : ℕ

abbrev pattern_of : Packet → ℕ → ℕ → Pattern
pattern_of t m v = record { type = t; mask = m; value = v }

unfoldable pub packet_types : List Pattern
packet_types =
    pattern_of info 0x01 0x00
    ∷ pattern_of rr 0x0F 0x01
    ∷ pattern_of rnr 0x0F 0x05
    ∷ pattern_of snrm 0xEF 0x83
    ∷ pattern_of disc 0xEF 0x43
    ∷ pattern_of ua 0xEF 0x63
    ∷ pattern_of dm 0xEF 0x0F
    ∷ pattern_of frmr 0xEF 0x87
    ∷ pattern_of ui 0xEF 0x03
    ∷ []

-- The loop over the table, up to the first pattern that fits.
unfoldable pub find_type : List Pattern → ℕ → Option Packet
find_type [] cf = none
find_type (p ∷ ps) cf = if bit_and cf p.mask == p.value then some p.type else find_type ps cf

unfoldable pub decode_control_field : Hdlc → ℕ → Code × Hdlc
unfolding packet_types find_type
decode_control_field h cf =
    let found = find_type packet_types cf in
    let code : Code = elim found [ none ↦ Code.err | some t ↦ Code.ok ] in
    let type : Packet = elim found [ none ↦ h.type | some t ↦ t ] in
    (code, record h { type = type; poll_final = cf / 16 % 2; rrr = cf / 32 % 8; sss = cf / 2 % 8 })

-- The control byte that `hdlc_encode_data` and `hdlc_encode_rr` send.
unfoldable pub data_control : ℕ → ℕ → ℕ
data_control rrr sss = low8 (bit_and (bit_or (rrr * 32 + sss * 2) 0x10) 0xFE)

unfoldable pub rr_control : ℕ → ℕ
rr_control rrr = low8 (bit_or (bit_and (rrr * 32) 0xF0) 0x11)

-- The table of the comment above `cPACKET_TYPES`, by the fields of the byte: the bit P/F, bit 4, is free.
abbrev pub type_of : ℕ → Option Packet
type_of cf =
    let fixed = cf / 32 * 32 + cf % 16 in
    if cf % 2 == 0
    then some info
    else if cf % 16 == 1
    then some rr
    else if cf % 16 == 5
    then some rnr
    else if fixed == 0b1000_0011
    then some snrm
    else if fixed == 0b0100_0011
    then some disc
    else if fixed == 0b0110_0011
    then some ua
    else if fixed == 0b0000_1111
    then some dm
    else if fixed == 0b1000_0111
    then some frmr
    else if fixed == 0b0000_0011
    then some ui
    else none

abbrev number : Option Packet → ℕ
number none = 0
number (some bad) = 1
number (some info) = 2
number (some rr) = 3
number (some rnr) = 4
number (some snrm) = 5
number (some disc) = 6
number (some ua) = 7
number (some dm) = 8
number (some frmr) = 9
number (some ui) = 10

abbrev packet_at : ℕ → Option Packet
packet_at n =
    if n == 1
    then some bad
    else if n == 2
    then some info
    else if n == 3
    then some rr
    else if n == 4
    then some rnr
    else if n == 5
    then some snrm
    else if n == 6
    then some disc
    else if n == 7
    then some ua
    else if n == 8
    then some dm
    else if n == 9
    then some frmr
    else if n == 10
    then some ui
    else none

packet_at-number : (p : Option Packet) → packet_at (number p) ≡ p
packet_at-number none = refl
packet_at-number (some p) = go p
  where
    go : (p : Packet) → packet_at (number (some p)) ≡ some p
    go bad = refl
    go _ = refl

types_table :
    holds_below 256 (λ cf. number (find_type packet_types cf) == number (type_of cf)) ≡ true
unfolding holds_below find_type packet_types
types_table = refl

find_type-eq-type_of : (cf : ℕ) → cf < 256 → find_type packet_types cf ≡ type_of cf
find_type-eq-type_of cf h =
    sym (packet_at-number (find_type packet_types cf))
    ∙ ap packet_at (
        (==_iff _ _).0 (
          holds_below_at (λ k. number (find_type packet_types k) == number (type_of k)) 256 cf h
            types_table))
    ∙ packet_at-number (type_of cf)

-- `hdlc_decode_control_field` finds the packet type that the table of the standard gives for a byte, or
-- fails and leaves the type where there is none; it stores the poll bit and both counters in any case,
-- and nothing else.
pub decode_control_field_lem :
    (h : Hdlc) (cf : ℕ)
    → cf < 256
    → decode_control_field h cf ≡ (
      elim (type_of cf) [ none ↦ Code.err | some t ↦ Code.ok ],
      record h {
        type = elim (type_of cf) [ none ↦ h.type | some t ↦ t ];
        poll_final = cf / 16 % 2;
        rrr = cf / 32;
        sss = cf / 2 % 8;
      },
    )
unfolding decode_control_field
decode_control_field_lem h cf k =
    let e : cf / 32 % 8 ≡ cf / 32 = omega arith in rw (find_type-eq-type_of cf k, e)

data_table :
    holds_below 64 (λ k. data_control (k / 8) (k % 8) == k / 8 * 32 + 16 + k % 8 * 2) ≡ true
unfolding holds_below data_control
data_table = refl

data_control_value :
    (rrr sss : ℕ) → rrr < 8 → sss < 8 → data_control rrr sss ≡ rrr * 32 + 16 + sss * 2
data_control_value rrr sss k l =
    let hi : (rrr * 8 + sss) / 8 ≡ rrr = omega arith in
    let lo : (rrr * 8 + sss) % 8 ≡ sss = omega arith in
    let row = (==_iff _ _).0 (
      holds_below_at (λ n. data_control (n / 8) (n % 8) == n / 8 * 32 + 16 + n % 8 * 2) 64
        (rrr * 8 + sss) (omega arith) data_table) in
    simp (hi, lo) at row

-- The control byte of an information frame decodes as such, with the counters that were encoded and the
-- final bit set, for counters of three bits.
pub decode_control_field-data_control :
    (h : Hdlc) (rrr sss : ℕ)
    → rrr < 8
    → sss < 8
    → decode_control_field h (data_control rrr sss)
      ≡ (Code.ok, record h { type = info; poll_final = 1; rrr = rrr; sss = sss })
decode_control_field-data_control h rrr sss k l =
    rw (data_control_value rrr sss k l)
      (decode_control_field_lem h (rrr * 32 + 16 + sss * 2) (omega arith) ∙ ground arith)
