-- ===== src/Array/Tests.antt =====
-- The array at concrete inputs: a buffer of eight bytes, and runs on it.
use cosemlib.Base.{ℕ, ◌≡◌, refl, true, false, List, [], ◌∷◌, arith, ret, Returns}
use cosemlib.Base.Words.{put_be16, put_be32}
use cosemlib.Array.{Array, init, write_u8, write_u16, write_u32, write_buff}
use cosemlib.Array.Bounds.{IsValid}
use cosemlib.Array.Append.{append}
use cosemlib.Array.Steps.{Op, calls, put_u8, put_u16, take_u8, jump_reader, init-calls-IsValid}
use cosemlib.Array.Limits.{write_branches}

abbrev zeros : List ℕ
zeros = 0 ∷ 0 ∷ 0 ∷ 0 ∷ 0 ∷ 0 ∷ 0 ∷ 0 ∷ []

abbrev empty : Array
empty = record { rd_index = 0; wr_index = 0; offset = 1; size = 8; buff = zeros }

-- Four bytes are free, and three.
abbrev half : Array
half = record {
  rd_index = 2;
  wr_index = 3;
  offset = 1;
  size = 8;
  buff = 0 ∷ 1 ∷ 2 ∷ 3 ∷ 0 ∷ 0 ∷ 0 ∷ 0 ∷ [];
}

abbrev some_calls : List Op
some_calls = put_u8 7 ∷ put_u16 258 ∷ take_u8 ∷ jump_reader 9 ∷ put_u16 3 ∷ []

init-calls-IsValid_example : Returns (calls some_calls empty) (λ _ a'. IsValid a')
unfolding init
init-calls-IsValid_example =
    init-calls-IsValid zeros 8 0 1 some_calls (ground arith) (ground arith) (ground arith)
      (ground arith) refl (ground arith)

-- Four bytes just fit.
write_branches_example :
    (write_u8 9 half ≡ ret true (append (9 ∷ []) half))
    × (write_buff (7 ∷ 8 ∷ 9 ∷ []) half ≡ ret true (append (7 ∷ 8 ∷ 9 ∷ []) half))
    × (write_u16 515 half ≡ ret true (append (put_be16 515) half))
    × (write_u32 515 half ≡ ret false (append (put_be32 515) half))
write_branches_example = write_branches 9 515 515 (7 ∷ 8 ∷ 9 ∷ []) (ground arith) (ground arith)
