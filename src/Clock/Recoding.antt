-- ===== src/Clock/Recoding.antt =====
-- A date-time in bytes, and back.
use cosemlib.Base.{
  ℕ, ◌+◌, ◌*◌, ◌%◌, ◌<◌, ◌≡◌, true, List, [], ◌∷◌, ◌++◌, append_assoc, arith, ret, ◌>>=◌,
}
use mathlib.Core.Path.{subst}
use cosemlib.Base.Words.{u16_mod, low8, shr, put_be16}
use cosemlib.Array.{Array}
use cosemlib.Array.Bounds.{IsValid}
use cosemlib.Array.Append.{
  append, append-IsValid, Room, Emits, Emits-&&&, write_u8-Emits, write_u16-Emits,
}
use cosemlib.Array.Consume.{skip, append-Ahead, read_u8-Reads}
use cosemlib.Services.{on_array}
use cosemlib.Services.Takes.{
  Takes, Takes-&&&, Takes-then, Takes-read, Takes-update, take_u8-Takes, take_u16-Takes,
}
use cosemlib.Clock.Cosem.{DateTime, datetime_to_cosem, datetime_from_cosem}

-- The twelve bytes.
abbrev date_bytes : DateTime → List ℕ
date_bytes clk = put_be16 clk.date.year ++ (clk.date.month ∷ clk.date.day ∷ clk.date.dow ∷ [])

abbrev time_bytes : DateTime → List ℕ
time_bytes clk = clk.time.hour ∷ clk.time.minute ∷ clk.time.second ∷ clk.time.hundredths ∷ []

abbrev last_bytes : DateTime → List ℕ
last_bytes clk = low8 (shr clk.deviation 8) ∷ low8 clk.deviation ∷ clk.status ∷ []

abbrev pub datetime_bytes : DateTime → List ℕ
datetime_bytes clk = date_bytes clk ++ (time_bytes clk ++ last_bytes clk)

datetime_to_cosem-Emits : (clk : DateTime) → Emits (datetime_to_cosem clk) (datetime_bytes clk)
unfolding datetime_to_cosem
datetime_to_cosem-Emits clk =
    Emits-&&&
      (Emits-&&& (write_u16-Emits clk.date.year) (
        Emits-&&& (write_u8-Emits clk.date.month)
          (Emits-&&& (write_u8-Emits clk.date.day) (write_u8-Emits clk.date.dow))))
      (Emits-&&&
        (Emits-&&& (write_u8-Emits clk.time.hour) (
          Emits-&&& (write_u8-Emits clk.time.minute)
            (Emits-&&& (write_u8-Emits clk.time.second) (write_u8-Emits clk.time.hundredths))))
        (Emits-&&& (write_u8-Emits (low8 (shr clk.deviation 8)))
          (Emits-&&& (write_u8-Emits (low8 clk.deviation)) (write_u8-Emits clk.status))))

join_deviation : (d : ℕ) → d < u16_mod → (low8 (shr d 8) * 256 + low8 d) % u16_mod ≡ d
join_deviation d h = omega arith

datetime_from_cosem-Takes :
    (junk : ℕ) (clk old : DateTime)
    → clk.date.year < u16_mod
    → clk.deviation < u16_mod
    → Takes (datetime_from_cosem junk) (datetime_bytes clk) old clk
unfolding datetime_from_cosem
datetime_from_cosem-Takes junk clk old y d =
    let date_part = Takes-&&& (take_u16-Takes _ clk.date.year y) (
      Takes-&&& (take_u8-Takes _ clk.date.month)
        (Takes-&&& (take_u8-Takes _ clk.date.day) (take_u8-Takes _ clk.date.dow))) in
    let time_part = Takes-&&& (take_u8-Takes _ clk.time.hour) (
      Takes-&&& (take_u8-Takes _ clk.time.minute)
        (Takes-&&& (take_u8-Takes _ clk.time.second) (take_u8-Takes _ clk.time.hundredths))) in
    let joined = (low8 (shr clk.deviation 8) * 256 + low8 clk.deviation) % u16_mod in
    subst
      (λ n.
        Takes (datetime_from_cosem junk) (datetime_bytes clk) old (record clk { deviation = n }))
      (join_deviation clk.deviation d)
      (subst (λ l. Takes (datetime_from_cosem junk) l old (record clk { deviation = joined }))
        (append_assoc (date_bytes clk) (time_bytes clk) (last_bytes clk))
        (Takes-then _ (Takes-&&& date_part time_part) (
          Takes-read _ (read_u8-Reads (low8 (shr clk.deviation 8))) (
            Takes-read _ (read_u8-Reads (low8 clk.deviation))
              (Takes-update _ _ (take_u8-Takes _ clk.status))))))

-- A date-time whose year and deviation have 16 bits, written to a valid array with nothing unread and
-- with more than twelve bytes free, is read back whole from its twelve bytes, over any old value.
pub datetime_from_cosem-datetime_to_cosem :
    (junk : ℕ) (clk old : DateTime) {a : Array}
    → clk.date.year < u16_mod
    → clk.deviation < u16_mod
    → IsValid a
    → a.rd_index ≡ a.wr_index
    → Room a 12
    → (on_array (datetime_to_cosem clk) >>= λ _. datetime_from_cosem junk)
        (record { message = old; array = a })
      ≡ ret true (record { message = clk; array = skip 12 (append (datetime_bytes clk) a) })
unfolding put_be16
datetime_from_cosem-datetime_to_cosem junk clk old {a} y d v e room =
    let bytes = datetime_bytes clk in
    rw ((datetime_to_cosem-Emits clk).run a v room, on_array)
      ((datetime_from_cosem-Takes junk clk old y d).run (append bytes a)
        (append-IsValid bytes v room) (append-Ahead bytes v e room))
