-- ===== src/Axdr/Tests.antt =====
-- A-XDR at concrete inputs.
use cosemlib.Base.{List, Returns, false, ◌≡◌, [], ◌∷◌, some, arith}
use cosemlib.Array.{Array, unread}
use cosemlib.Axdr.{Callback, decode_tags}
use cosemlib.Axdr.Tags.{decode_tags-ends}

abbrev empty : Array
empty = record {
  rd_index = 0;
  wr_index = 0;
  offset = 0;
  size = 8;
  buff = 0 ∷ 0 ∷ 0 ∷ 0 ∷ 0 ∷ 0 ∷ 0 ∷ 0 ∷ [];
}

-- A Boolean.
abbrev boolean : Array
boolean = record {
  rd_index = 0;
  wr_index = 2;
  offset = 0;
  size = 8;
  buff = 3 ∷ 1 ∷ 0 ∷ 0 ∷ 0 ∷ 0 ∷ 0 ∷ 0 ∷ [];
}

decode_tags-ends_example :
    Returns (decode_tags 3 boolean) (λ r _. (cs : List Callback) × (r ≡ some (false, cs)))
unfolding unread
decode_tags-ends_example =
    decode_tags-ends 3 {a = boolean} (ground arith) (ground arith) (ground arith)
