-- ===== src/Clock.antt =====
-- share/util/clock.c and share/util/clock.h: dates as day numbers. The arithmetic is in 32 bits.
pub mod Calendar
pub mod Cosem
pub mod Saving
pub mod Span
pub mod Recoding
pub mod Loops
pub mod Epoch
mod Tests
pub mod Inverse
pub mod Order
use cosemlib.Base.{
  ℕ, zero, suc, ◌+◌, ◌-◌, ◌*◌, ◌/◌, ◌%◌, Bool, true, false, not, ◌&&◌, ◌||◌, List, [], ◌∷◌, Option,
  none, some, if◌then◌else◌, ltb, leb, ◌==◌, get_elem?,
}
use cosemlib.Base.Words.{u32_mod}

-- A sum and a difference of 32-bit numbers.
abbrev pub add32 : ℕ → ℕ → ℕ
add32 a b = (a + b) % u32_mod

abbrev pub sub32 : ℕ → ℕ → ℕ
sub32 a b = (a + u32_mod - b) % u32_mod

-- `isleap`
unfoldable pub is_leap : ℕ → Bool
is_leap yr = yr % 400 == 0 || (yr % 4 == 0 && not (yr % 100 == 0))

unfoldable pub months_to_days : ℕ → ℕ
months_to_days month = sub32 (month * 3057 % u32_mod) 3007 / 100

unfoldable pub years_to_days : ℕ → ℕ
years_to_days yr = (yr * 365 + yr / 4 - yr / 100 + yr / 400) % u32_mod

unfoldable pub ymd_to_scalar : ℕ → ℕ → ℕ → ℕ
unfolding months_to_days
ymd_to_scalar yr mo day =
    let scalar = add32 day (months_to_days mo) in
    let adjusted = if ltb 2 mo then sub32 scalar (if is_leap yr then 1 else 2) else scalar in
    add32 adjusted (years_to_days (sub32 yr 1))

-- The loop of `scalar_to_ymd` on fuel; the loop before it leaves the same number, which is then computed
-- again. `none` is where the fuel runs out.
unfoldable pub find_year : ℕ → ℕ → ℕ → Option ℕ
find_year zero n scalar = none
find_year (suc fuel) n scalar =
    let rest = find_year fuel (n + 1) scalar in
    if ltb (years_to_days n) scalar then rest else some n

pub record Ymd : Type 0 where
  pub year : ℕ
  pub month : ℕ
  pub day : ℕ

-- The day of the year, adjusted past February.
unfoldable pub adjust : Bool → ℕ → ℕ
adjust leap n =
    if ltb 59 n then (let m = n + 2 in if leap then m - (if ltb 61 m then 1 else 2) else m) else n

-- The month and the day, by the adjusted day of the year.
abbrev pub month_day : ℕ → ℕ → Ymd
month_day yr n =
    let mo = (n * 100 + 3007) / 3057 in
    record { year = yr; month = mo; day = sub32 n (months_to_days mo) }

-- Three rounds of the loop are enough, see `find_year-year`.
unfoldable pub scalar_to_ymd : ℕ → Option Ymd
scalar_to_ymd scalar = elim (find_year 3 (scalar * 400 / 146097) scalar) [
  | none ↦ none
  | some yr ↦ some (month_day yr (adjust (is_leap yr) (sub32 scalar (years_to_days (sub32 yr 1)))))
]

-- `days`
unfoldable pub days : List ℕ
days = 31 ∷ 28 ∷ 31 ∷ 30 ∷ 31 ∷ 30 ∷ 31 ∷ 31 ∷ 30 ∷ 31 ∷ 30 ∷ 31 ∷ []

abbrev pub days_of : ℕ → ℕ
days_of mo = elim (get_elem? days (mo - 1)) [ none ↦ 0 | some d ↦ d ]

unfoldable pub is_valid_month : ℕ → Bool
is_valid_month mo = leb 1 mo && leb mo 12

unfoldable pub is_valid_date : ℕ → ℕ → ℕ → Bool
unfolding days is_valid_month is_leap
is_valid_date yr mo day =
    is_valid_month mo
    && (leb 1 day && leb day (days_of mo + (if mo == 2 && is_leap yr then 1 else 0)))

unfoldable pub is_valid_time : ℕ → ℕ → ℕ → Bool
is_valid_time h m s = leb h 23 && (leb m 59 && leb s 59)

-- The deviation is a signed number of 16 bits, in two's complement.
unfoldable pub is_valid_deviation : ℕ → Bool
is_valid_deviation d = leb d 720 || leb 64816 d

-- `clk_dow`, where the type `long` has 32 bits, so that the difference is unsigned.
unfoldable pub dow : ℕ → ℕ → ℕ → ℕ
unfolding ymd_to_scalar
dow yr mo day = sub32 (ymd_to_scalar yr mo day) 1 % 7

unfoldable pub last_dow : ℕ → ℕ → ℕ → ℕ
last_dow yr mo wanted =
    if is_valid_month mo
    then (let last_day = days_of mo in
        let last = dow yr mo last_day in
        if leb wanted last
        then sub32 last_day (sub32 last wanted)
        else sub32 last_day (sub32 7 (sub32 wanted last)))
    else 0

unfoldable pub daynum : ℕ → ℕ → ℕ → ℕ
unfolding ymd_to_scalar
daynum year month day = add32 (sub32 (ymd_to_scalar year month day) (ymd_to_scalar year 1 1)) 1

unfoldable pub weeknum : ℕ → ℕ → ℕ → ℕ
unfolding daynum
weeknum year month day =
    let j1n = sub32 (ymd_to_scalar year 1 1) 1 % 7 in
    let dn = add32 (daynum year month day) (sub32 j1n 1) in dn / 7 + (if ltb j1n 4 then 1 else 0)

-- The product is cut to 32 bits where it is stored.
unfoldable pub moonphase : ℕ → ℕ → ℕ → ℕ
unfolding ymd_to_scalar
moonphase yr mo dy = sub32 (ymd_to_scalar yr mo dy * 9693 % u32_mod / 35780) 4 % 8

-- `struct tm`; `none` is the -1 of `tm_isdst`.
pub record Tm : Type 0 where
  pub tm_sec : ℕ
  pub tm_min : ℕ
  pub tm_hour : ℕ
  pub tm_mday : ℕ
  pub tm_mon : ℕ
  pub tm_year : ℕ
  pub tm_wday : ℕ
  pub tm_yday : ℕ
  pub tm_isdst : Option ℕ

unfoldable pub to_epoch : Tm → ℕ
unfolding ymd_to_scalar
to_epoch t =
    if ltb t.tm_year 70 || ltb 120 t.tm_year
    then u32_mod - 1
    else (let d =
          sub32 (ymd_to_scalar (t.tm_year + 1900) (t.tm_mon + 1) t.tm_mday)
            (ymd_to_scalar 1970 1 1) in
        let h = add32 (d * 24) t.tm_hour in
        let m = add32 (h * 60) t.tm_min in add32 (m * 60) t.tm_sec)

-- `clk_to_datetime`
unfoldable pub to_datetime : ℕ → Option Tm
unfolding ymd_to_scalar dow
to_datetime timer =
    let secs = timer % 86400 in
    elim (scalar_to_ymd (add32 (timer / 86400) (ymd_to_scalar 1970 1 1))) [
      | none ↦ none
      | some d ↦ some (record {
        tm_sec = secs % 60;
        tm_min = secs / 60 % 60;
        tm_hour = secs / 60 / 60;
        tm_mday = d.day;
        tm_mon = d.month - 1;
        tm_year = d.year - 1900;
        tm_wday = dow d.year d.month d.day;
        tm_yday = sub32 (ymd_to_scalar d.year d.month d.day) (ymd_to_scalar d.year 1 1);
        tm_isdst = none;
      })
    ]
