-- ===== src/Clock/Inverse.antt =====
-- From day numbers back to dates.
use cosemlib.Base.{
  ℕ, suc, ◌+◌, ◌-◌, ◌*◌, ◌/◌, ◌≤◌, ◌<◌, ◌≡◌, ◌≢◌, ◌⊎◌, inl, inr, refl, ap, ◌∙◌, Bool, true, false,
  some, arith, sym, ◌==◌, ◌&&◌, Bool-cases, if◌then◌else◌, ltb, lt→ltb,
}
use cosemlib.Clock.{
  sub32, is_leap, months_to_days, years_to_days, ymd_to_scalar, find_year, adjust, month_day,
  scalar_to_ymd, days,
}
use cosemlib.Clock.Calendar.{
  year_days, years_to_days_lem, year_days_prev, month_length, days_before, by_month, IsDate,
  ymd_to_scalar_lem,
}

find_year-stop : (fuel n s : ℕ) → n ≤ 14700 → s ≤ year_days n → find_year (suc fuel) n s ≡ some n
unfolding find_year
find_year-stop fuel n s h k = let e = years_to_days_lem n h in ground (arith, e)

find_year-step :
    (fuel n s : ℕ)
    → n ≤ 14700
    → year_days n < s
    → find_year (suc fuel) n s ≡ find_year fuel (n + 1) s
unfolding find_year
find_year-step fuel n s h k =
    let e = years_to_days_lem n h in
    let t : ltb (years_to_days n) s ≡ true = lt→ltb (years_to_days n) s (omega (arith, e)) in
    rw t refl

within_two : (n yr : ℕ) → n ≤ yr → yr ≤ n + 2 → (n ≡ yr) ⊎ ((n + 1 ≡ yr) ⊎ (n + 2 ≡ yr))
within_two n yr h k = ground arith

-- The loop finds the year within three rounds.
find_year-year :
    (yr s : ℕ)
    → 1 ≤ yr
    → yr ≤ 14699
    → year_days (yr - 1) < s
    → s ≤ year_days yr
    → find_year 3 (s * 400 / 146097) s ≡ some yr
find_year-year yr s lo hi above below =
    let n = s * 400 / 146097 in
    let at_most : n ≤ yr = omega arith in
    let at_least : yr ≤ n + 2 = omega arith in
    elim (within_two n yr at_most at_least) [
      | inl e ↦
          let here : s ≤ year_days n = omega arith in
          find_year-stop 2 n s (omega arith) here ∙ ap some e
      | inr (inl e) ↦
          let before : year_days n < s = omega arith in
          let here : s ≤ year_days (n + 1) = omega arith in
          find_year-step 2 n s (omega arith) before
          ∙ find_year-stop 1 (n + 1) s (omega arith) here
          ∙ ap some e
      | inr (inr e) ↦
          let before : year_days n < s = omega arith in
          let before' : year_days (n + 1) < s = omega arith in
          let here : s ≤ year_days (n + 1 + 1) = omega arith in
          find_year-step 2 n s (omega arith) before
          ∙ find_year-step 1 (n + 1) s (omega arith) before'
          ∙ find_year-stop 0 (n + 1 + 1) s (omega arith) here
          ∙ ap some (omega arith)
    ]

month_day_lem :
    (leap : Bool) (yr mo : ℕ)
    → 1 ≤ mo
    → mo ≤ 12
    → (day : ℕ) → 1 ≤ day
    → day ≤ month_length leap mo
    → (leap ≡ false) ⊎ (days_before leap mo + day ≢ 60)
    → ((adjust leap (days_before leap mo + day) * 100 + 3007) / 3057 ≡ mo)
      × (sub32 (adjust leap (days_before leap mo + day)) (months_to_days mo) ≡ day)
unfolding adjust months_to_days days
month_day_lem false yr =
    by_month
      (λ mo.
        (day : ℕ)
        → 1 ≤ day
        → day ≤ month_length false mo
        → (false ≡ false) ⊎ (days_before false mo + day ≢ 60)
        → ((adjust false (days_before false mo + day) * 100 + 3007) / 3057 ≡ mo)
          × (sub32 (adjust false (days_before false mo + day)) (months_to_days mo) ≡ day))
      (λ day lo hi h. ground arith) (λ day lo hi h. ground arith) (λ day lo hi h. ground arith)
      (λ day lo hi h. ground arith) (λ day lo hi h. ground arith) (λ day lo hi h. ground arith)
      (λ day lo hi h. ground arith) (λ day lo hi h. ground arith) (λ day lo hi h. ground arith)
      (λ day lo hi h. ground arith) (λ day lo hi h. ground arith) (λ day lo hi h. ground arith)
month_day_lem true yr =
    by_month
      (λ mo.
        (day : ℕ)
        → 1 ≤ day
        → day ≤ month_length true mo
        → (true ≡ false) ⊎ (days_before true mo + day ≢ 60)
        → ((adjust true (days_before true mo + day) * 100 + 3007) / 3057 ≡ mo)
          × (sub32 (adjust true (days_before true mo + day)) (months_to_days mo) ≡ day))
      (λ day lo hi h. ground arith) (λ day lo hi h. ground arith) (λ day lo hi h. ground arith)
      (λ day lo hi h. ground arith) (λ day lo hi h. ground arith) (λ day lo hi h. ground arith)
      (λ day lo hi h. ground arith) (λ day lo hi h. ground arith) (λ day lo hi h. ground arith)
      (λ day lo hi h. ground arith) (λ day lo hi h. ground arith) (λ day lo hi h. ground arith)

not_leap_day :
    (leap : Bool) (day : ℕ) (mo : ℕ)
    → 1 ≤ mo
    → mo ≤ 12
    → 1 ≤ day
    → day ≤ month_length leap mo
    → (mo ≢ 2) ⊎ (day ≢ 29)
    → (leap ≡ false) ⊎ (days_before leap mo + day ≢ 60)
unfolding days
not_leap_day false day = λ mo a b c d h. inl refl
not_leap_day true day =
    by_month
      (λ mo.
        1 ≤ day
        → day ≤ month_length true mo
        → (mo ≢ 2) ⊎ (day ≢ 29)
        → (true ≡ false) ⊎ (days_before true mo + day ≢ 60))
      (λ a b h. ground arith) (λ a b h. ground arith) (λ a b h. ground arith)
      (λ a b h. ground arith) (λ a b h. ground arith) (λ a b h. ground arith)
      (λ a b h. ground arith) (λ a b h. ground arith) (λ a b h. ground arith)
      (λ a b h. ground arith) (λ a b h. ground arith) (λ a b h. ground arith)

year_length :
    (leap : Bool) (mo : ℕ)
    → 1 ≤ mo
    → mo ≤ 12
    → days_before leap mo + month_length leap mo ≤ 365 + (if leap then 1 else 0)
unfolding days
year_length true =
    by_month (λ mo. days_before true mo + month_length true mo ≤ 366) (ground arith) (ground arith)
      (ground arith) (ground arith) (ground arith) (ground arith) (ground arith) (ground arith)
      (ground arith) (ground arith) (ground arith) (ground arith)
year_length false =
    by_month (λ mo. days_before false mo + month_length false mo ≤ 365) (ground arith)
      (ground arith) (ground arith) (ground arith) (ground arith) (ground arith) (ground arith)
      (ground arith) (ground arith) (ground arith) (ground arith) (ground arith)

-- The day number of a date lies in its year.
pub scalar_in_year :
    {yr mo day : ℕ}
    → IsDate yr mo day
    → (year_days (yr - 1) < ymd_to_scalar yr mo day) × (ymd_to_scalar yr mo day ≤ year_days yr)
scalar_in_year {yr} {mo} {day} d =
    let e = ymd_to_scalar_lem d in
    let whole = year_length (is_leap yr) mo d.from_month d.to_month in
    let next = year_days_prev yr d.from_year_1 d.to_year in
    (omega (arith, e, d.from_day), omega (arith, e, next, whole, d.to_day))

-- What is left of it is the day of the year.
pub day_of_year :
    {yr mo day : ℕ}
    → IsDate yr mo day
    → sub32 (ymd_to_scalar yr mo day) (years_to_days (sub32 yr 1))
      ≡ days_before (is_leap yr) mo + day
day_of_year {yr} {mo} {day} d =
    let e = ymd_to_scalar_lem d in
    let (above, below) = scalar_in_year d in
    let prev : sub32 yr 1 ≡ yr - 1 = omega (arith, d.from_year_1, d.to_year) in
    let whole = years_to_days_lem (yr - 1) (omega (arith, d.to_year)) in
    ap (λ y. sub32 (ymd_to_scalar yr mo day) (years_to_days y)) prev
    ∙ ap (sub32 (ymd_to_scalar yr mo day)) whole
    ∙ omega (arith, e, below, d.to_year)

pub scalar_to_ymd-ymd_to_scalar_other :
    (yr mo day : ℕ)
    → IsDate yr mo day
    → (mo ≢ 2) ⊎ (day ≢ 29)
    → scalar_to_ymd (ymd_to_scalar yr mo day) ≡ some (record { year = yr; month = mo; day = day })
unfolding scalar_to_ymd
scalar_to_ymd-ymd_to_scalar_other yr mo day d h =
    let s = ymd_to_scalar yr mo day in
    let leap = is_leap yr in
    let (above, below) = scalar_in_year d in
    let found = find_year-year yr s d.from_year_1 d.to_year above below in
    let rest = day_of_year d in
    let other = not_leap_day leap day mo d.from_month d.to_month d.from_day d.to_day h in
    let (month, date) =
      month_day_lem leap yr mo d.from_month d.to_month day d.from_day d.to_day other in
    rw (scalar_to_ymd, found, rest, month, date) refl

february : 29 ≤ month_length true 2
unfolding days
february = omega arith

sixtieth :
    {yr : ℕ}
    → some (month_day yr (adjust true (days_before true 2 + 29)))
      ≡ some (record { year = yr; month = 2; day = 30 })
unfolding adjust days months_to_days
sixtieth = refl

scalar_to_ymd_leap_day :
    (yr : ℕ)
    → 1 ≤ yr
    → yr ≤ 14699
    → is_leap yr ≡ true
    → scalar_to_ymd (ymd_to_scalar yr 2 29) ≡ some (record { year = yr; month = 2; day = 30 })
unfolding scalar_to_ymd
scalar_to_ymd_leap_day yr lo hi leap =
    let d : IsDate yr 2 29 = record {
      from_year_1 = lo;
      to_year = hi;
      from_month = omega arith;
      to_month = omega arith;
      from_day = omega arith;
      to_day = rw leap february;
    } in
    let (above, below) = scalar_in_year d in
    let found = find_year-year yr (ymd_to_scalar yr 2 29) lo hi above below in
    rw (scalar_to_ymd, found, day_of_year d, leap) sixtieth

-- The 29th of February is a date of leap years alone.
leap_of : (leap : Bool) → 29 ≤ month_length leap 2 → leap ≡ true
unfolding days
leap_of true h = refl
leap_of false h = absurd (omega arith)

-- `scalar_to_ymd` gives back each date from the year 1 to the year 14699 from its day number, but for
-- the 29th of February, which comes back as the 30th.
pub scalar_to_ymd-ymd_to_scalar :
    (yr mo day : ℕ)
    → IsDate yr mo day
    → scalar_to_ymd (ymd_to_scalar yr mo day)
      ≡ some (record { year = yr; month = mo; day = if (mo == 2) && (day == 29) then 30 else day })
scalar_to_ymd-ymd_to_scalar yr mo day d = elim (Bool-cases ((mo == 2) && (day == 29))) [
  | inl last ↦
      let (february_is, last_day) : (mo ≡ 2) × (day ≡ 29) =
        (ground (arith, last), ground (arith, last)) in
      let date : IsDate yr 2 29 = rw (sym february_is, sym last_day) d in
      rw (last, february_is, last_day)
        (scalar_to_ymd_leap_day yr d.from_year_1 d.to_year (leap_of (is_leap yr) date.to_day))
  | inr other ↦ rw other (scalar_to_ymd-ymd_to_scalar_other yr mo day d (ground (arith, other)))
]
