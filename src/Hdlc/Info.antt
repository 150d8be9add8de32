-- ===== src/Hdlc/Info.antt =====
-- hdlc/hdlc.c: the negotiation in the information field of an SNRM or UA frame. The loop of the source
-- has no bound, so the model runs it on fuel: `running` is the loop after that many rounds.
use cosemlib.Base.{
  ℕ, zero, suc, ◌+◌, ◌%◌, ◌<◌, ◌≤◌, ◌≡◌, ◌≢◌, refl, Bool, true, false, ◌&&◌, List, [], ◌∷◌, ◌++◌,
  Option, none, some, if◌then◌else◌, ltb, leb, ◌==◌, arith, get_elem?, length, ret, M, pure, get,
  put, ◌>>=◌, ◌>>◌, get_elem?-some,
}
use cosemlib.Base.Words.{u8_mod, u16_mod, get_be16, get_be32}
use cosemlib.Hdlc.{Hdlc, Code, Packet, load}

pub data Loop : Type 0 where
  running : Loop
  stopped : Code → Loop

-- `hdlc_read_option` at index `i`
unfoldable pub read_option : List ℕ → ℕ → ℕ → M Hdlc ℕ
unfolding get_be16 get_be32
read_option buf i size =
    if size == 1
    then load buf i
    else if size == 2
    then (do a ← load buf i; b ← load buf (i + 1); pure (get_be16 a b))
    else if size == 4
    then (do
      a ← load buf i
      b ← load buf (i + 1)
      c ← load buf (i + 2)
      d ← load buf (i + 3)
      pure (get_be32 a b c d))
    else pure 0

-- The field that an option of each tag sets, in the width of the field; any other tag sets none.
unfoldable pub store_option : ℕ → ℕ → Hdlc → Option Hdlc
store_option tag opt h =
    if tag == 5
    then some (record h { max_info_field_tx = opt % u16_mod })
    else if tag == 6
    then some (record h { max_info_field_rx = opt % u16_mod })
    else if tag == 7
    then some (record h { window_tx = opt % u8_mod })
    else if tag == 8
    then some (record h { window_rx = opt % u8_mod })
    else none

abbrev pub is_option : ℕ → Bool
is_option tag = leb 5 tag && leb tag 8

-- The `while` loop: `index` is a `uint8_t`, and four options end it.
unfoldable pub options_loop : ℕ → List ℕ → ℕ → ℕ → M Hdlc Loop
unfolding read_option store_option
options_loop zero buf index tags = pure running
options_loop (suc fuel) buf index tags = do
  tag ← load buf index
  size ← load buf ((index + 1) % u8_mod)
  let start = (index + 2) % u8_mod
  if is_option tag
      then (do
        opt ← read_option buf start size
        if opt == 0 then pure (stopped Code.err_nego) else (do
          h ← get
          elim (store_option tag opt h) [
            | none ↦ pure (stopped Code.err_nego)
            | some h' ↦ do
              put h'
              if leb 4 (tags + 1)
                  then pure (stopped Code.ok)
                  else options_loop fuel buf ((start + size) % u8_mod) (tags + 1)
          ]))
      else (if leb 4 tags then pure (stopped Code.ok) else options_loop fuel buf start tags)

abbrev pub negotiates : Packet → Bool
negotiates Packet.snrm = true
negotiates Packet.ua = true
negotiates _ = false

-- `hdlc_decode_info_field`
unfoldable pub decode_info_field : ℕ → List ℕ → ℕ → M Hdlc Loop
unfolding options_loop
decode_info_field fuel buf info_field_size = do
  h ← get
  if ltb 0 info_field_size && negotiates h.type
      then (do
        a ← load buf 0
        if a == 0x81
            then (do
              b ← load buf 1
              if b == 0x80
                  then (do
                    c ← load buf 2
                    if c + 3 == info_field_size
                        then options_loop fuel buf 3 0
                        else pure (stopped Code.err_nego))
                  else pure (stopped Code.err_nego))
            else pure (stopped Code.err_nego))
      else pure (stopped Code.ok)

-- The four options in the order and the sizes of `snrm_nego`.
abbrev pub nego : ℕ → ℕ → List ℕ → List ℕ → List ℕ
nego tx rx wtx wrx = 0x81 ∷ 0x80 ∷ 0x12 ∷ 5 ∷ 1 ∷ tx ∷ 6 ∷ 1 ∷ rx ∷ 7 ∷ 4 ∷ wtx ++ (8 ∷ 4 ∷ wrx)

-- An SNRM or UA frame whose information field holds the four options, in the order and the sizes that
-- `hdlc_encode_snrm` sends, with no option equal to 0, is accepted after four rounds of the loop, and
-- each option sets its field, in the width of the field, and no other.
pub decode_info_field-nego :
    (fuel tx rx a b c d e f g i : ℕ) (h : Hdlc)
    → negotiates h.type ≡ true
    → tx ≢ 0
    → tx < 256
    → rx ≢ 0
    → rx < 256
    → get_be32 a b c d ≢ 0
    → get_be32 e f g i ≢ 0
    → decode_info_field
        (suc (suc (suc (suc fuel))))
        (nego tx rx (a ∷ b ∷ c ∷ d ∷ []) (e ∷ f ∷ g ∷ i ∷ []))
        21
        h
      ≡ ret (stopped Code.ok) (record h {
        max_info_field_tx = tx;
        max_info_field_rx = rx;
        window_tx = get_be32 a b c d % u8_mod;
        window_rx = get_be32 e f g i % u8_mod;
      })
unfolding decode_info_field
decode_info_field-nego fuel tx rx a b c d e f g i h n p q r s t u = ground arith

-- No byte at an odd index is the tag of an option.
abbrev pub NoOption : List ℕ → Type 0
NoOption buf = (i b : ℕ) → i % 2 ≡ 1 → get_elem? buf i ≡ some b → is_option b ≡ false

options_loop-running :
    (fuel : ℕ) (buf : List ℕ) (index : ℕ) (h : Hdlc)
    → 256 ≤ length buf
    → NoOption buf
    → index < 256
    → index % 2 ≡ 1
    → options_loop fuel buf index 0 h ≡ ret running h
unfolding options_loop
options_loop-running zero buf index h long none_found k odd = refl
options_loop-running (suc fuel) buf index h long none_found k odd =
    let (tag, at) = get_elem?-some buf index (omega arith) in
    let (size, next) = get_elem?-some buf ((index + 1) % u8_mod) (omega arith) in
    let again =
      options_loop-running fuel buf ((index + 2) % u8_mod) h long none_found (omega arith)
        (omega arith) in
    ground (arith, at, next, none_found index tag odd at, again)

-- `hdlc_decode_info_field` never returns on a negotiation whose header is right and which has no
-- option's tag at any odd index: its loop, whose index wraps round at 256, is running after any number
-- of rounds, if 256 bytes of memory can be read at all.
pub decode_info_field_diverges :
    (fuel : ℕ) (buf : List ℕ) (length_byte : ℕ) (h : Hdlc)
    → negotiates h.type ≡ true
    → 256 ≤ length buf
    → get_elem? buf 0 ≡ some 0x81
    → get_elem? buf 1 ≡ some 0x80
    → get_elem? buf 2 ≡ some length_byte
    → NoOption buf
    → decode_info_field fuel buf (length_byte + 3) h ≡ ret running h
unfolding decode_info_field
decode_info_field_diverges fuel buf length_byte h n long first second third none_found =
    ground (arith, options_loop-running fuel buf 3 h long none_found (omega arith) (omega arith))
