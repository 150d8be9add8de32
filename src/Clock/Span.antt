-- ===== src/Clock/Span.antt =====
-- share/util/clock.c: `add_time`, which adds a span to a time of day.
use cosemlib.Base.{
  ℕ, suc, ◌+◌, ◌-◌, ◌*◌, ◌/◌, ◌%◌, ◌^◌, ◌≤◌, ◌<◌, ◌≡◌, ◌↔◌, refl, sym, ap, ◌∙◌, false, ◌||◌, Option,
  none, some, if◌then◌else◌, ltb, ◌==◌, arith, M, pure, ◌>>=◌, ret,
}
use cosemlib.Base.Int.{
  ℤ, pos, negsuc, pos_part, neg_part, ◌+ℤ◌, +ℤ_parts, +ℤ_pos, +ℤ_neg, add_int, to_u32, div_int,
}

-- The four numbers that `add_time` stores.
pub record Moment : Type 0 where
  pub hrs : ℕ
  pub mins : ℕ
  pub secs : ℕ
  pub days : ℕ

-- `div` and the correction of a negative number: what is carried, and what stays.
unfoldable pub carry : ℤ → ℕ → ℤ × ℤ
unfolding div_int ◌+ℤ◌
carry (pos n) k = div_int (pos n) k
carry (negsuc n) k = let r = div_int (negsuc n) k in ((r.0) +ℤ negsuc 0, (r.1) +ℤ pos k)

-- `add_time`; `none` is -1, where nothing is stored.
unfoldable pub add_time : ℕ → ℕ → ℕ → ℤ → ℤ → ℤ → M (Unit {0}) (Option Moment)
unfolding carry add_int to_u32
add_time basehrs basemins basesecs spanhrs spanmins spansecs =
    if ltb 24 basehrs || (ltb 59 basemins || ltb 59 basesecs) then pure none else (do
      h ← add_int (pos (if basehrs == 24 then 0 else basehrs)) spanhrs
      m ← add_int (pos basemins) spanmins
      s ← add_int (pos basesecs) spansecs
      let by_secs = carry s 60
      m' ← add_int m (by_secs.0)
      let by_mins = carry m' 60
      h' ← add_int h (by_mins.0)
      let by_hrs = carry h' 24
      pure (
          some (record {
            hrs = to_u32 (by_hrs.1);
            mins = to_u32 (by_mins.1);
            secs = to_u32 (by_secs.1);
            days = to_u32 (by_hrs.0);
          })))

-- Dividing keeps the sum, and what stays is at most `k`: it is `k` for the negative multiples alone.
pub record Carried (s : ℤ) (k : ℕ) : Type 0 where
  pub kept : ℕ
  pub over : ℤ
  pub run : carry s k ≡ (over, pos kept)
  pub small : kept ≤ k
  pub sum : k * pos_part over + kept + neg_part s ≡ k * neg_part over + pos_part s
  pub near : pos_part over + neg_part over ≤ pos_part s + neg_part s + 1

carry_60 : (s : ℤ) → Carried s 60
unfolding carry div_int ◌+ℤ◌
carry_60 (pos n) = record {
  kept = n % 60;
  over = pos (n / 60);
  run = refl;
  small = omega arith;
  sum = omega arith;
  near = omega arith;
}
carry_60 (negsuc n) = record {
  kept = 60 - suc n % 60;
  over = negsuc (suc n / 60);
  run = ground arith;
  small = omega arith;
  sum = omega arith;
  near = omega arith;
}

carry_24 : (s : ℤ) → Carried s 24
unfolding carry div_int ◌+ℤ◌
carry_24 (pos n) = record {
  kept = n % 24;
  over = pos (n / 24);
  run = refl;
  small = omega arith;
  sum = omega arith;
  near = omega arith;
}
carry_24 (negsuc n) = record {
  kept = 24 - suc n % 24;
  over = negsuc (suc n / 24);
  run = ground arith;
  small = omega arith;
  sum = omega arith;
  near = omega arith;
}

-- What stays is all of `k` exactly for a negative multiple.
carry_full : (s : ℤ) → (pos_part ((carry s 60).1) ≡ 60) ↔ ((0 < neg_part s) × (neg_part s % 60 ≡ 0))
unfolding carry div_int ◌+ℤ◌
carry_full (pos n) = ((λ e. absurd (omega arith)), (λ h. absurd (omega arith)))
carry_full (negsuc n) = ((λ e. ground arith), (λ h. ground arith))

add_int-ret :
    {S : Type 0} (a b : ℤ) (s : S)
    → pos_part a + pos_part b < 2 ^ 31
    → neg_part a + neg_part b ≤ 2 ^ 31
    → add_int a b s ≡ ret (a +ℤ b) s
unfolding add_int ◌+ℤ◌
add_int-ret a b s h k = ground arith

abbrev pub IsSpan : ℤ → Type 0
IsSpan z = pos_part z + neg_part z ≤ 2 ^ 29

abbrev pub seconds : ℕ → ℕ → ℕ → ℕ
seconds h m s = 3600 * h + 60 * m + s

add_right :
    (n : ℕ) (z : ℤ) → pos_part (pos n +ℤ z) + neg_part z ≡ neg_part (pos n +ℤ z) + n + pos_part z
add_right n z = omega (arith, +ℤ_parts (pos n) z)

-- The sums of the three steps add up.
all_seconds :
    (h m s : ℕ) (sh sm ss h1 m1 s1 m2 h2 by_s by_m by_h : ℤ) (ks km kh : ℕ)
    → pos_part h1 + neg_part sh ≡ neg_part h1 + h + pos_part sh
    → pos_part m1 + neg_part sm ≡ neg_part m1 + m + pos_part sm
    → pos_part s1 + neg_part ss ≡ neg_part s1 + s + pos_part ss
    → 60 * pos_part by_s + ks + neg_part s1 ≡ 60 * neg_part by_s + pos_part s1
    → pos_part m2 + neg_part m1 + neg_part by_s ≡ neg_part m2 + pos_part m1 + pos_part by_s
    → 60 * pos_part by_m + km + neg_part m2 ≡ 60 * neg_part by_m + pos_part m2
    → pos_part h2 + neg_part h1 + neg_part by_m ≡ neg_part h2 + pos_part h1 + pos_part by_m
    → 24 * pos_part by_h + kh + neg_part h2 ≡ 24 * neg_part by_h + pos_part h2
    → 86400 * pos_part by_h + seconds kh km ks + seconds (neg_part sh) (neg_part sm) (neg_part ss)
      ≡ 86400 * neg_part by_h + seconds (h + pos_part sh) (m + pos_part sm) (s + pos_part ss)
all_seconds h m s sh sm ss h1 m1 s1 m2 h2 by_s by_m by_h ks km kh a b c d e f g i = omega arith

-- On a time of day, 24:mm:ss being 0:mm:ss, with a span of at most 2^29 hours, minutes and seconds of either sign,
-- `add_time` stores a time and a number of days `d`, in 32 bits, that together are as many seconds as the
-- time of day and the span. The stored seconds and minutes are at most 60 and the hours at most 24; the
-- seconds are 60 exactly where the sum of the seconds is a negative multiple of 60.
pub add_time_lem :
    (h m s : ℕ) (sh sm ss : ℤ)
    → h ≤ 24
    → m < 60
    → s < 60
    → IsSpan sh
    → IsSpan sm
    → IsSpan ss
    → (t : Moment) × (d : ℤ) × (add_time h m s sh sm ss tt ≡ ret (some t) tt)
      × (t.days ≡ to_u32 d)
      × (86400 * pos_part d
            + seconds t.hrs t.mins t.secs
            + seconds (neg_part sh) (neg_part sm) (neg_part ss)
          ≡ 86400 * neg_part d + seconds (h % 24 + pos_part sh) (m + pos_part sm) (s + pos_part ss))
      × (t.hrs ≤ 24)
      × (t.mins ≤ 60)
      × (t.secs ≤ 60)
      × ((t.secs ≡ 60)
          ↔ ((s + pos_part ss < neg_part ss) × ((neg_part ss - (s + pos_part ss)) % 60 ≡ 0)))
unfolding add_time to_u32
add_time_lem h m s sh sm ss hh mm sss ish ism iss =
    let base : (if h == 24 then 0 else h) ≡ h % 24 = ground arith in
    let h1 = pos (h % 24) +ℤ sh in
    let m1 = pos m +ℤ sm in
    let s1 = pos s +ℤ ss in
    let (hp, hn) : (pos_part h1 ≡ h % 24 + pos_part sh - neg_part sh)
        × (neg_part h1 ≡ neg_part sh - (h % 24 + pos_part sh)) =
      (omega (arith, +ℤ_pos (pos (h % 24)) sh), omega (arith, +ℤ_neg (pos (h % 24)) sh)) in
    let (mp, mn) : (pos_part m1 ≡ m + pos_part sm - neg_part sm)
        × (neg_part m1 ≡ neg_part sm - (m + pos_part sm)) =
      (omega (arith, +ℤ_pos (pos m) sm), omega (arith, +ℤ_neg (pos m) sm)) in
    let (sp, sn) : (pos_part s1 ≡ s + pos_part ss - neg_part ss)
        × (neg_part s1 ≡ neg_part ss - (s + pos_part ss)) =
      (omega (arith, +ℤ_pos (pos s) ss), omega (arith, +ℤ_neg (pos s) ss)) in
    let parts_h = add_right (h % 24) sh in
    let parts_m = add_right m sm in
    let parts_s = add_right s ss in
    let a = carry_60 s1 in
    let m2 = m1 +ℤ a.over in
    let m2p = +ℤ_pos m1 a.over in
    let m2n = +ℤ_neg m1 a.over in
    let b = carry_60 m2 in
    let h2 = h1 +ℤ b.over in
    let h2p = +ℤ_pos h1 b.over in
    let h2n = +ℤ_neg h1 b.over in
    let c = carry_24 h2 in
    let add_h = add_int-ret (pos (h % 24)) sh tt (omega (arith, ish)) (omega (arith, ish)) in
    let add_m = add_int-ret (pos m) sm tt (omega (arith, ism)) (omega (arith, ism)) in
    let add_s = add_int-ret (pos s) ss tt (omega (arith, iss)) (omega (arith, iss)) in
    let near_s : pos_part s1 + neg_part s1 ≤ 2 ^ 29 + 60 = omega (arith, sp, sn, iss) in
    let near_m : pos_part m1 + neg_part m1 ≤ 2 ^ 29 + 60 = omega (arith, mp, mn, ism) in
    let add_m2 =
      add_int-ret m1 a.over tt (omega (arith, near_m, near_s, a.near))
        (omega (arith, near_m, near_s, a.near)) in
    let near_m2 : pos_part m2 + neg_part m2 ≤ 2 ^ 30 + 200 =
      omega (arith, m2p, m2n, near_m, near_s, a.near) in
    let near_h : pos_part h1 + neg_part h1 ≤ 2 ^ 29 + 60 = omega (arith, hp, hn, ish) in
    let add_h2 =
      add_int-ret h1 b.over tt (omega (arith, near_m2, near_h, b.near))
        (omega (arith, near_m2, near_h, b.near)) in
    let t : Moment = record { hrs = c.kept; mins = b.kept; secs = a.kept; days = to_u32 c.over } in
    let kept_a : a.kept % 2 ^ 32 ≡ a.kept = omega (arith, a.small) in
    let kept_b : b.kept % 2 ^ 32 ≡ b.kept = omega (arith, b.small) in
    let kept_c : c.kept % 2 ^ 32 ≡ c.kept = omega (arith, c.small) in
    let full = carry_full s1 in
    let fine : (ltb 24 h || (ltb 59 m || ltb 59 s)) ≡ false = ground arith in
    let kept_s : pos_part ((carry s1 60).1) ≡ a.kept = ap (λ r. pos_part (r.1)) a.run in
    (
      t,
      c.over,
      rw
          (
            fine, base, if◌then◌else◌, ◌>>=◌, add_h, add_m, add_s, a.run, add_m2, b.run, add_h2,
            c.run, kept_a, kept_b, kept_c,
          )
          refl,
      refl,
      all_seconds (h % 24) m s sh sm ss h1 m1 s1 m2 h2 a.over b.over c.over a.kept b.kept c.kept
          parts_h parts_m parts_s a.sum (+ℤ_parts m1 a.over) b.sum (+ℤ_parts h1 b.over) c.sum,
      c.small,
      b.small,
      a.small,
      (
        (λ e. (
          (omega (arith, (full.0 (kept_s ∙ e)).0, sn)),
          (omega (arith, (full.0 (kept_s ∙ e)).1, sn)),
        )),
        (λ q. sym kept_s ∙ full.1 (omega (arith, q.0, sn), omega (arith, q.1, sn))),
      ),
    )
