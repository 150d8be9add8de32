-- ===== src/Clock/Epoch.antt =====
-- Seconds since 1970: a date and time to seconds, and back.
use cosemlib.Base.{◌+◌, ◌-◌, ◌*◌, ◌/◌, ◌%◌, ◌≤◌, ◌≡◌, ◌≢◌, ◌⊎◌, refl, none, some, arith}
use cosemlib.Clock.{add32, sub32, ymd_to_scalar, Tm, to_epoch, to_datetime, dow, years_to_days}
use cosemlib.Clock.Calendar.{IsDate}
use cosemlib.Clock.Inverse.{scalar_in_year, scalar_to_ymd-ymd_to_scalar_other}

-- The date and the time of a `struct tm`, in the years that `clk_to_epoch` accepts.
pub record IsTm (t : Tm) : Type 0 where
  pub is_date : IsDate (t.tm_year + 1900) (t.tm_mon + 1) t.tm_mday
  pub from_1970 : 70 ≤ t.tm_year
  pub to_2020 : t.tm_year ≤ 120
  pub hours : t.tm_hour ≤ 23
  pub minutes : t.tm_min ≤ 59
  pub seconds : t.tm_sec ≤ 59

-- The day number of the first of January 1970.
epoch_day : ymd_to_scalar 1970 1 1 ≡ 719163
unfolding ymd_to_scalar years_to_days
epoch_day = refl

-- The seconds of a date and time, with no wrap-around.
pub to_epoch-seconds :
    {t : Tm}
    → IsTm t
    → (719163 ≤ ymd_to_scalar (t.tm_year + 1900) (t.tm_mon + 1) t.tm_mday)
      × (to_epoch t
          ≡ (ymd_to_scalar (t.tm_year + 1900) (t.tm_mon + 1) t.tm_mday - 719163) * 86400
            + t.tm_hour * 3600
            + t.tm_min * 60
            + t.tm_sec)
unfolding to_epoch
to_epoch-seconds {t} h =
    let (above, below) = scalar_in_year h.is_date in
    let low : 719163 ≤ ymd_to_scalar (t.tm_year + 1900) (t.tm_mon + 1) t.tm_mday =
      omega (arith, above, h.from_1970) in
    let high : ymd_to_scalar (t.tm_year + 1900) (t.tm_mon + 1) t.tm_mday ≤ 737790 =
      omega (arith, below, h.to_2020) in
    (low, ground (arith, h, low, high, epoch_day))

-- A date and time of the years 1970 to 2020, but for the 29th of February, is the one that
-- `clk_to_datetime` makes of its seconds: the year, the month, the day, the hour, the minute and the
-- second come back, with the day of the week of the date.
pub to_datetime-to_epoch :
    (t : Tm)
    → IsTm t
    → (t.tm_mon ≢ 1) ⊎ (t.tm_mday ≢ 29)
    → (u : Tm) × (to_datetime (to_epoch t) ≡ some u)
      × (u.tm_year ≡ t.tm_year)
      × (u.tm_mon ≡ t.tm_mon)
      × (u.tm_mday ≡ t.tm_mday)
      × (u.tm_hour ≡ t.tm_hour)
      × (u.tm_min ≡ t.tm_min)
      × (u.tm_sec ≡ t.tm_sec)
      × (u.tm_wday ≡ dow (t.tm_year + 1900) (t.tm_mon + 1) t.tm_mday)
unfolding to_datetime
to_datetime-to_epoch t h other =
    let yr = t.tm_year + 1900 in
    let mo = t.tm_mon + 1 in
    let s = ymd_to_scalar yr mo t.tm_mday in
    let (low, total) = to_epoch-seconds h in
    let (above, below) = scalar_in_year h.is_date in
    let n = to_epoch t in
    let day : n / 86400 ≡ s - 719163 = omega (arith, total, h.hours, h.minutes, h.seconds) in
    let rest : n % 86400 ≡ t.tm_hour * 3600 + t.tm_min * 60 + t.tm_sec =
      omega (arith, total, h.hours, h.minutes, h.seconds) in
    let back : add32 (n / 86400) (ymd_to_scalar 1970 1 1) ≡ s =
      omega (arith, epoch_day, day, low, below, h.to_2020) in
    let not_leap : (mo ≢ 2) ⊎ (t.tm_mday ≢ 29) = ground (arith, other) in
    let date = scalar_to_ymd-ymd_to_scalar_other yr mo t.tm_mday h.is_date not_leap in
    let fields : Tm = record {
      tm_sec = n % 86400 % 60;
      tm_min = n % 86400 / 60 % 60;
      tm_hour = n % 86400 / 60 / 60;
      tm_mday = t.tm_mday;
      tm_mon = mo - 1;
      tm_year = yr - 1900;
      tm_wday = dow yr mo t.tm_mday;
      tm_yday = sub32 s (ymd_to_scalar yr 1 1);
      tm_isdst = none;
    } in
    (
      fields,
      rw (to_datetime, back, date) refl,
      omega arith,
      omega arith,
      refl,
      omega (arith, rest, h.minutes, h.seconds),
      omega (arith, rest, h.minutes, h.seconds),
      omega (arith, rest, h.minutes, h.seconds),
      refl,
    )
