-- ===== src/Clock/Order.antt =====
-- The days in order: the day after a date, the days of the week, and the first day.
use cosemlib.Base.{
  ℕ, zero, suc, ◌+◌, ◌-◌, ◌%◌, ◌≤◌, ◌<◌, ◌≡◌, inl, inr, refl, ap, ◌∙◌, Bool, true, false, arith,
  if◌then◌else◌, ltb, leb, leb→le, Bool-cases,
}
use cosemlib.Clock.{
  sub32, is_leap, ymd_to_scalar, Ymd, days_of, days, dow, last_dow, is_valid_month,
}
use cosemlib.Clock.Inverse.{scalar_in_year}
use cosemlib.Clock.Calendar.{
  year_days, year_days_prev, month_length, days_before, IsDate, month_length_bounds,
  ymd_to_scalar_lem,
}

-- The date after a date, by the lengths of the months.
abbrev pub next_day : ℕ → ℕ → ℕ → Ymd
next_day yr mo day =
    if ltb day (month_length (is_leap yr) mo)
    then record { year = yr; month = mo; day = day + 1 }
    else if ltb mo 12
    then record { year = yr; month = mo + 1; day = 1 }
    else record { year = yr + 1; month = 1; day = 1 }

abbrev pub scalar_of : Ymd → ℕ
scalar_of d = ymd_to_scalar d.year d.month d.day

december : (leap : Bool) → days_before leap 12 + 31 ≡ 365 + (if leap then 1 else 0)
unfolding days
december true = refl
december false = refl

december_length : (leap : Bool) → month_length leap 12 ≡ 31
unfolding days
december_length true = refl
december_length false = refl

days_before_next :
    (leap : Bool) (mo : ℕ)
    → 1 ≤ mo
    → mo ≤ 12
    → days_before leap (mo + 1) ≡ days_before leap mo + month_length leap mo
days_before_next leap zero lo hi = absurd (omega arith)
days_before_next leap (suc m) lo hi =
    let e : suc m + 1 ≡ suc (suc m) = omega arith in ap (days_before leap) e

new_year :
    {yr mo day : ℕ}
    → IsDate yr mo day
    → yr ≤ 14698
    → mo ≡ 12
    → day ≡ month_length (is_leap yr) mo
    → ymd_to_scalar (yr + 1) 1 1 ≡ ymd_to_scalar yr mo day + 1
new_year {yr} {mo} {day} d hi twelve end =
    let leap = is_leap yr in
    let d' : IsDate (yr + 1) 1 1 = record {
      from_year_1 = omega arith;
      to_year = omega arith;
      from_month = omega arith;
      to_month = omega arith;
      from_day = omega arith;
      to_day =
          omega (arith, (month_length_bounds (is_leap (yr + 1)) 1 (omega arith) (omega arith)).0);
    } in
    omega (
      arith,
      ymd_to_scalar_lem d,
      ymd_to_scalar_lem d',
      year_days_prev yr d.from_year_1 d.to_year,
      december leap,
      ap (days_before leap) twelve,
      end ∙ ap (month_length leap) twelve ∙ december_length leap,
    )

-- The day after each date from the year 1 to the year 14698 has the next day number: over the ends of
-- the months, of February in common and leap years, and of the years.
ymd_to_scalar_next :
    (yr mo day : ℕ)
    → IsDate yr mo day
    → yr ≤ 14698
    → scalar_of (next_day yr mo day) ≡ ymd_to_scalar yr mo day + 1
ymd_to_scalar_next yr mo day d hi =
    let leap = is_leap yr in
    let e = ymd_to_scalar_lem d in
    elim (Bool-cases (ltb day (month_length leap mo))) [
      | inl within ↦
          let d' : IsDate yr mo (day + 1) = record {
            from_year_1 = d.from_year_1;
            to_year = d.to_year;
            from_month = d.from_month;
            to_month = d.to_month;
            from_day = omega arith;
            to_day = ground (arith, within);
          } in
          rw within (omega (arith, e, ymd_to_scalar_lem d'))
      | inr last ↦
          let end : day ≡ month_length leap mo = ground (arith, last, d.to_day) in
          elim (Bool-cases (ltb mo 12)) [
            | inl before ↦
                let below : mo + 1 ≤ 12 = ground (arith, before) in
                let d' : IsDate yr (mo + 1) 1 = record {
                  from_year_1 = d.from_year_1;
                  to_year = d.to_year;
                  from_month = omega arith;
                  to_month = below;
                  from_day = omega arith;
                  to_day = omega (arith, (month_length_bounds leap (mo + 1) (omega arith) below).0);
                } in
                rw (last, before)
                  (omega (
                    arith,
                    e,
                    ymd_to_scalar_lem d',
                    end,
                    days_before_next leap mo d.from_month d.to_month,
                  ))
            | inr after ↦
                let twelve : mo ≡ 12 = ground (arith, after, d.to_month) in
                rw (last, after) (new_year d hi twelve end)
          ]
    ]

-- The day of the week of the day after a date is the next one of the seven.
pub dow-next :
    (yr mo day : ℕ)
    → IsDate yr mo day
    → yr ≤ 14698
    → dow (next_day yr mo day).year (next_day yr mo day).month (next_day yr mo day).day
      ≡ (dow yr mo day + 1) % 7
unfolding dow
dow-next yr mo day d hi =
    let (above, below) = scalar_in_year d in
    let next = ymd_to_scalar_next yr mo day d hi in omega (arith, next, above, below)

dow_lem :
    {yr mo day : ℕ}
    → IsDate yr mo day
    → dow yr mo day ≡ (year_days (yr - 1) + days_before (is_leap yr) mo + day - 1) % 7
unfolding dow
dow_lem d =
    let (above, below) = scalar_in_year d in
    omega (arith, above, below, ymd_to_scalar_lem d, d.to_year)

-- The lengths of the months in the table.
plain_length :
    (yr mo : ℕ) → 1 ≤ mo → mo ≤ 12 → (28 ≤ days_of mo) × (days_of mo ≤ month_length (is_leap yr) mo)
plain_length yr mo lo hi = ground (arith, month_length_bounds false mo lo hi)

month_is_valid : (mo : ℕ) → 1 ≤ mo → mo ≤ 12 → is_valid_month mo ≡ true
unfolding is_valid_month
month_is_valid mo lo hi = ground arith

within : {yr mo day : ℕ} → IsDate yr mo 1 → 1 ≤ day → day ≤ days_of mo → IsDate yr mo day
within {yr} {mo} d lo hi = record {
  from_year_1 = d.from_year_1;
  to_year = d.to_year;
  from_month = d.from_month;
  to_month = d.to_month;
  from_day = lo;
  to_day = omega (arith, hi, (plain_length yr mo d.from_month d.to_month).1);
}

-- The day that `clk_last_dow` returns has the day of the week that is asked for, and is one of the last
-- seven days of the month as the table of lengths has it: 28 days for February in leap years too.
pub dow-last_dow :
    (yr mo wanted : ℕ)
    → IsDate yr mo 1
    → wanted ≤ 6
    → (dow yr mo (last_dow yr mo wanted) ≡ wanted)
      × (last_dow yr mo wanted ≤ days_of mo)
      × (days_of mo < last_dow yr mo wanted + 7)
unfolding last_dow
dow-last_dow yr mo wanted d small =
    let (least, most) = plain_length yr mo d.from_month d.to_month in
    let last = days_of mo in
    let at_last = dow_lem (within {day = last} d (omega arith) (omega arith)) in
    let end = dow yr mo last in
    let in_week : end ≤ 6 = omega (arith, at_last) in
    let valid : is_valid_month mo ≡ true = month_is_valid mo d.from_month d.to_month in
    let short : last ≤ 31 =
      omega (arith, most, (month_length_bounds (is_leap yr) mo d.from_month d.to_month).1) in
    elim (Bool-cases (leb wanted end)) [
      | inl e ↦
          let lower : wanted ≤ end = leb→le wanted end e in
          let day = last - (end - wanted) in
          let on_day = dow_lem (within {day = day} d (omega arith) (omega arith)) in
          let found : sub32 last (sub32 end wanted) ≡ day =
            omega (arith, lower, in_week, short, least) in
          rw (valid, e, found)
            (omega (arith, on_day, at_last, lower, in_week, least), omega arith, omega arith)
      | inr e ↦
          let higher : end < wanted = ground (arith, e) in
          let day = last - (7 - (wanted - end)) in
          let on_day = dow_lem (within {day = day} d (omega arith) (omega arith)) in
          let found : sub32 last (sub32 7 (sub32 wanted end)) ≡ day =
            omega (arith, higher, small, short, least) in
          rw (valid, e, found)
            (omega (arith, on_day, at_last, higher, in_week, least), omega arith, omega arith)
    ]
