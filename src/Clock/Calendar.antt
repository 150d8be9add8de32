-- ===== src/Clock/Calendar.antt =====
-- Day numbers: the days of the calendar in order, and back.
use cosemlib.Base.{
  ℕ, zero, suc, ◌+◌, ◌-◌, ◌*◌, ◌/◌, ◌≤◌, ◌≡◌, ap, ◌∙◌, Bool, true, false, arith, if◌then◌else◌, ltb,
  ◌==◌, ◌&&◌,
}
use cosemlib.Clock.{
  add32, sub32, is_leap, months_to_days, years_to_days, ymd_to_scalar, days_of, days,
}

-- `years_to_days` without the wrap-around.
abbrev pub year_days : ℕ → ℕ
year_days yr = yr * 365 + yr / 4 - yr / 100 + yr / 400

pub years_to_days_lem : (yr : ℕ) → yr ≤ 14700 → years_to_days yr ≡ year_days yr
unfolding years_to_days
years_to_days_lem yr h = omega arith

-- A year has 365 or 366 days.
year_days_next :
    (yr : ℕ)
    → yr ≤ 14699
    → year_days (yr + 1) ≡ year_days yr + 365 + (if is_leap (yr + 1) then 1 else 0)
unfolding is_leap
year_days_next yr h = ground arith

pub year_days_prev :
    (yr : ℕ)
    → 1 ≤ yr
    → yr ≤ 14699
    → year_days yr ≡ year_days (yr - 1) + 365 + (if is_leap yr then 1 else 0)
year_days_prev yr lo hi =
    let back : yr - 1 + 1 ≡ yr = omega arith in
    let next = year_days_next (yr - 1) (omega arith) in rw back at next

-- The lengths of the months, and the days of a year before a month: the calendar that the day numbers
-- are to follow.
abbrev pub month_length : Bool → ℕ → ℕ
month_length leap mo = days_of mo + (if mo == 2 && leap then 1 else 0)

abbrev pub days_before : Bool → ℕ → ℕ
days_before leap zero = 0
days_before leap (suc zero) = 0
days_before leap (suc (suc m)) = days_before leap (suc m) + month_length leap (suc m)

-- A property of the twelve months.
pub by_month :
    (P : ℕ → Type 0)
    → P 1
    → P 2
    → P 3
    → P 4
    → P 5
    → P 6
    → P 7
    → P 8
    → P 9
    → P 10
    → P 11
    → P 12
    → (mo : ℕ) → 1 ≤ mo
    → mo ≤ 12
    → P mo
by_month P a b c d e f g h i j k l zero lo hi = absurd (omega arith)
by_month P a b c d e f g h i j k l (suc zero) lo hi = a
by_month P a b c d e f g h i j k l (suc (suc zero)) lo hi = b
by_month P a b c d e f g h i j k l (suc (suc (suc zero))) lo hi = c
by_month P a b c d e f g h i j k l (suc (suc (suc (suc zero)))) lo hi = d
by_month P a b c d e f g h i j k l (suc (suc (suc (suc (suc zero))))) lo hi = e
by_month P a b c d e f g h i j k l (suc (suc (suc (suc (suc (suc zero)))))) lo hi = f
by_month P a b c d e f g h i j k l (suc (suc (suc (suc (suc (suc (suc zero))))))) lo hi = g
by_month P a b c d e f g h i j k l (suc (suc (suc (suc (suc (suc (suc (suc zero)))))))) lo hi = h
by_month P a b c d e f g h i j k l (suc (suc (suc (suc (suc (suc (suc (suc (suc zero))))))))) lo
      hi =
    i
by_month P a b c d e f g h i j k l (suc (suc (suc (suc (suc (suc (suc (suc (suc (suc zero))))))))))
      lo hi =
    j
by_month P a b c d e f g h i j k l
      (suc (suc (suc (suc (suc (suc (suc (suc (suc (suc (suc zero))))))))))) lo hi =
    k
by_month P a b c d e f g h i j k l
      (suc (suc (suc (suc (suc (suc (suc (suc (suc (suc (suc (suc zero)))))))))))) lo hi =
    l
by_month P a b c d e f g h i j k l
      (suc (suc (suc (suc (suc (suc (suc (suc (suc (suc (suc (suc (suc n))))))))))))) lo hi =
    absurd (omega arith)

-- A date of the years that the routines are made for.
pub record IsDate (yr mo day : ℕ) : Type 0 where
  pub from_year_1 : 1 ≤ yr
  pub to_year : yr ≤ 14699
  pub from_month : 1 ≤ mo
  pub to_month : mo ≤ 12
  pub from_day : 1 ≤ day
  pub to_day : day ≤ month_length (is_leap yr) mo

-- What `ymd_to_scalar` adds for the month, with the day.
month_part : (leap : Bool) (mo day : ℕ) → ℕ
month_part leap mo day =
    let scalar = add32 day (months_to_days mo) in
    if ltb 2 mo then sub32 scalar (if leap then 1 else 2) else scalar

month_part_lem :
    (leap : Bool) (day : ℕ)
    → 1 ≤ day
    → day ≤ 31
    → (mo : ℕ) → 1 ≤ mo
    → mo ≤ 12
    → month_part leap mo day ≡ days_before leap mo + day
unfolding month_part months_to_days days
month_part_lem true day lo hi =
    by_month (λ mo. month_part true mo day ≡ days_before true mo + day) (omega arith) (omega arith)
      (omega arith) (omega arith) (omega arith) (omega arith) (omega arith) (omega arith)
      (omega arith) (omega arith) (omega arith) (omega arith)
month_part_lem false day lo hi =
    by_month (λ mo. month_part false mo day ≡ days_before false mo + day) (omega arith)
      (omega arith) (omega arith) (omega arith) (omega arith) (omega arith) (omega arith)
      (omega arith) (omega arith) (omega arith) (omega arith) (omega arith)

pub month_length_bounds :
    (leap : Bool) (mo : ℕ)
    → 1 ≤ mo
    → mo ≤ 12
    → (28 ≤ month_length leap mo) × (month_length leap mo ≤ 31)
unfolding days
month_length_bounds true =
    by_month (λ mo. (28 ≤ month_length true mo) × (month_length true mo ≤ 31)) (ground arith)
      (ground arith) (ground arith) (ground arith) (ground arith) (ground arith) (ground arith)
      (ground arith) (ground arith) (ground arith) (ground arith) (ground arith)
month_length_bounds false =
    by_month (λ mo. (28 ≤ month_length false mo) × (month_length false mo ≤ 31)) (ground arith)
      (ground arith) (ground arith) (ground arith) (ground arith) (ground arith) (ground arith)
      (ground arith) (ground arith) (ground arith) (ground arith) (ground arith)

pub days_before_bound : (leap : Bool) (mo : ℕ) → 1 ≤ mo → mo ≤ 12 → days_before leap mo ≤ 335
unfolding days
days_before_bound true =
    by_month (λ mo. days_before true mo ≤ 335) (ground arith) (ground arith) (ground arith)
      (ground arith) (ground arith) (ground arith) (ground arith) (ground arith) (ground arith)
      (ground arith) (ground arith) (ground arith)
days_before_bound false =
    by_month (λ mo. days_before false mo ≤ 335) (ground arith) (ground arith) (ground arith)
      (ground arith) (ground arith) (ground arith) (ground arith) (ground arith) (ground arith)
      (ground arith) (ground arith) (ground arith)

-- For each date from the year 1 to the year 14699, `ymd_to_scalar` is the number of days of the calendar
-- up to it: those of the years before, those of the months before, by their lengths in a common or a
-- leap year, and the day of the month.
pub ymd_to_scalar_lem :
    {yr mo day : ℕ}
    → IsDate yr mo day
    → ymd_to_scalar yr mo day ≡ year_days (yr - 1) + days_before (is_leap yr) mo + day
unfolding ymd_to_scalar month_part
ymd_to_scalar_lem {yr} {mo} {day} d =
    let short : day ≤ 31 =
      omega (arith, d.to_day, (month_length_bounds (is_leap yr) mo d.from_month d.to_month).1) in
    let part = month_part_lem (is_leap yr) day d.from_day short mo d.from_month d.to_month in
    let bound = days_before_bound (is_leap yr) mo d.from_month d.to_month in
    let prev : sub32 yr 1 ≡ yr - 1 = omega (arith, d.from_year_1, d.to_year) in
    let whole = years_to_days_lem (yr - 1) (omega (arith, d.to_year)) in
    ap (λ m. add32 m (years_to_days (sub32 yr 1))) part
    ∙ ap (λ y. add32 (days_before (is_leap yr) mo + day) (years_to_days y)) prev
    ∙ ap (add32 (days_before (is_leap yr) mo + day)) whole
    ∙ omega (arith, bound, short, d.to_year)
