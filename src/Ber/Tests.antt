-- ===== src/Ber/Tests.antt =====
-- BER at concrete inputs: headers in a buffer of eight bytes.
use cosemlib.Base.{ℕ, List, [], ◌∷◌}
use cosemlib.Array.{Array}

abbrev empty : Array
empty = record {
  rd_index = 0;
  wr_index = 0;
  offset = 0;
  size = 8;
  buff = 0 ∷ 0 ∷ 0 ∷ 0 ∷ 0 ∷ 0 ∷ 0 ∷ 0 ∷ [];
}

abbrev holding : List ℕ → Array
holding bs = record { rd_index = 0; wr_index = 7; offset = 0; size = 8; buff = bs }

-- A header with the tag 29, and one of an octet string.
abbrev nameless : List ℕ
nameless = 29 ∷ 1 ∷ 5 ∷ 0 ∷ 0 ∷ 0 ∷ 0 ∷ 0 ∷ []

abbrev octets : List ℕ
octets = 4 ∷ 1 ∷ 5 ∷ 0 ∷ 0 ∷ 0 ∷ 0 ∷ 0 ∷ []

abbrev oid_header : List ℕ
oid_header = 0x60 ∷ 0x85 ∷ 0x74 ∷ 5 ∷ 8 ∷ []

abbrev identifier : List ℕ
identifier = 0x60 ∷ 0x85 ∷ 0x74 ∷ 5 ∷ 8 ∷ 2 ∷ 5 ∷ 0 ∷ []
