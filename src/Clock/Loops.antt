-- ===== src/Clock/Loops.antt =====
-- The loops of daylight saving time end, and where.
use cosemlib.Base.{
  ℕ, zero, suc, ◌+◌, ◌-◌, ◌%◌, ◌≤◌, ◌<◌, ◌≡◌, refl, Bool, true, false, some, arith, ltb, leb, ◌==◌,
  Bool-cases, inl, inr, ◌&&◌,
}
use cosemlib.Base.Words.{u32_mod}
use cosemlib.Clock.{add32, sub32, is_leap, ymd_to_scalar, is_valid_date, days}
use cosemlib.Clock.Calendar.{month_length, IsDate, ymd_to_scalar_lem}
use cosemlib.Clock.Inverse.{scalar_in_year}
use cosemlib.Clock.Saving.{
  us_rules, forward_to, back_to, start_of, stop_of, Dst, is_dst, bad_date, in_range,
}

-- A day of the week within the fuel is found.
forward_to_within :
    (fuel dy day k : ℕ)
    → k < fuel
    → day + fuel < u32_mod
    → (day + k) % 7 ≡ dy
    → (e : ℕ) × (forward_to fuel dy day ≡ some e) × (e % 7 ≡ dy) × (day ≤ e) × (e ≤ day + k)
unfolding forward_to
forward_to_within zero dy day k h small found = absurd (omega arith)
forward_to_within (suc fuel) dy day k h small found = elim (Bool-cases (dy == day % 7)) [
  | inl here ↦ rw here (day, refl, ground (arith, here), omega arith, omega arith)
  | inr other ↦
      let next : add32 day 1 ≡ day + 1 = omega arith in
      let later : 1 ≤ k = ground (arith, other, found) in
      let (e, run, on, lo, hi) =
        forward_to_within fuel dy (day + 1) (k - 1) (omega arith) (omega arith) (omega arith) in
      rw (other, next) (e, run, on, omega arith, omega arith)
]

back_to_within :
    (fuel dy day k : ℕ)
    → k < fuel
    → fuel ≤ day
    → day < u32_mod
    → (day - k) % 7 ≡ dy
    → (e : ℕ) × (back_to fuel dy day ≡ some e) × (e % 7 ≡ dy) × (day ≤ e + k) × (e ≤ day)
unfolding back_to
back_to_within zero dy day k h large small found = absurd (omega arith)
back_to_within (suc fuel) dy day k h large small found = elim (Bool-cases (dy == day % 7)) [
  | inl here ↦ rw here (day, refl, ground (arith, here), omega arith, omega arith)
  | inr other ↦
      let next : sub32 day 1 ≡ day - 1 = omega arith in
      let later : 1 ≤ k = ground (arith, other, found) in
      let (e, run, on, lo, hi) =
        back_to_within fuel dy (day - 1) (k - 1) (omega arith) (omega arith) (omega arith)
          (omega arith) in
      rw (other, next) (e, run, on, omega arith, omega arith)
]

april : (leap : Bool) → month_length leap 4 ≡ 30
unfolding days
april true = refl
april false = refl

october : (leap : Bool) → month_length leap 10 ≡ 31
unfolding days
october true = refl
october false = refl

first_of_april : {yr : ℕ} → 1 ≤ yr → yr ≤ 14699 → IsDate yr 4 1
first_of_april {yr} lo hi = record {
  from_year_1 = lo;
  to_year = hi;
  from_month = omega arith;
  to_month = omega arith;
  from_day = omega arith;
  to_day = omega (arith, april (is_leap yr));
}

last_of_october : {yr : ℕ} → 1 ≤ yr → yr ≤ 14699 → IsDate yr 10 31
last_of_october {yr} lo hi = record {
  from_year_1 = lo;
  to_year = hi;
  from_month = omega arith;
  to_month = omega arith;
  from_day = omega arith;
  to_day = omega (arith, october (is_leap yr));
}

-- With the rules of the source, which name Sunday, the day on which daylight saving time starts is a
-- Saturday for `clk_dow` (5, where Monday is 0): the Saturday on or after the first of April.
start_of_saturday :
    (yr : ℕ)
    → 1 ≤ yr
    → yr ≤ 14699
    → (s : ℕ) × (start_of us_rules yr ≡ some s)
      × (sub32 s 1 % 7 ≡ 5)
      × (ymd_to_scalar yr 4 1 ≤ s)
      × (s < ymd_to_scalar yr 4 1 + 7)
start_of_saturday yr lo hi =
    let first = ymd_to_scalar yr 4 1 in
    let (above, below) = scalar_in_year (first_of_april lo hi) in
    let (s, run, on, from, to) =
      forward_to_within 7 6 first ((6 + 7 - first % 7) % 7) (omega arith) (omega (arith, below))
        (omega arith) in
    (s, run, omega (arith, on, above, below, from, to), from, omega (arith, to))

stop_of_found : (yr : ℕ) → 1 ≤ yr → yr ≤ 14699 → (s : ℕ) × (stop_of us_rules yr ≡ some s)
stop_of_found yr lo hi =
    let last = ymd_to_scalar yr 10 31 in
    let (above, below) = scalar_in_year (last_of_october lo hi) in
    let large : 7 ≤ last = omega (arith, ymd_to_scalar_lem (last_of_october lo hi)) in
    let (s, run, on, from, to) =
      back_to_within 7 6 last ((last + 1) % 7) (omega arith) large (omega (arith, below))
        (omega (arith, large)) in
    (s, run)

-- Seven rounds of each loop are enough: `clk_is_dst` has a result for every date, valid or not, of the
-- years 1 to 14699 under the rules of the source.
pub is_dst-total :
    (yr mo day : ℕ) → 1 ≤ yr → yr ≤ 14699 → (d : Dst) × (is_dst us_rules yr mo day ≡ some d)
unfolding is_dst
is_dst-total yr mo day lo hi =
    let (s, starts, on, from, to) = start_of_saturday yr lo hi in
    let (t, stops) = stop_of_found yr lo hi in
    elim (Bool-cases (is_valid_date yr mo day)) [
      | inl e ↦
          let date = ymd_to_scalar yr mo day in
          rw (e, starts, stops) (in_range (leb s date && ltb date t), refl)
      | inr e ↦ rw e (bad_date, refl)
    ]
