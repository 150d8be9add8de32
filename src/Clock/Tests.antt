-- ===== src/Clock/Tests.antt =====
-- The clock at concrete dates.
use cosemlib.Base.{
  ◌+◌, ◌-◌, ◌*◌, ◌%◌, ◌≤◌, ◌<◌, ◌≡◌, ◌↔◌, refl, true, some, none, arith, replicate, ret, inr, ◌>>=◌,
}
use cosemlib.Array.{Array}
use cosemlib.Array.Append.{append}
use cosemlib.Array.Consume.{skip}
use cosemlib.Services.{on_array}
use cosemlib.Clock.{
  is_leap, days, days_of, ymd_to_scalar, scalar_to_ymd, dow, last_dow, Tm, to_epoch, to_datetime,
}
use cosemlib.Clock.Calendar.{IsDate, year_days, days_before, ymd_to_scalar_lem}
use cosemlib.Clock.Inverse.{scalar_to_ymd-ymd_to_scalar}
use cosemlib.Clock.Order.{dow-last_dow}
use cosemlib.Clock.Epoch.{IsTm, to_datetime-to_epoch}
use cosemlib.Clock.Cosem.{DateTime, datetime_to_cosem, datetime_from_cosem}
use cosemlib.Clock.Recoding.{datetime_bytes, datetime_from_cosem-datetime_to_cosem}
use cosemlib.Clock.Saving.{us_rules, Dst, is_dst}
use cosemlib.Clock.Span.{Moment, add_time, seconds, add_time_lem}
use cosemlib.Base.Int.{ℤ, pos, negsuc, pos_part, neg_part, to_u32}
use cosemlib.Clock.Loops.{is_dst-total}

-- The last day of February 2023.
february : IsDate 2023 2 28
unfolding is_leap days
february = record {
  from_year_1 = ground arith;
  to_year = ground arith;
  from_month = ground arith;
  to_month = ground arith;
  from_day = ground arith;
  to_day = ground arith;
}

ymd_to_scalar_lem_example :
    ymd_to_scalar 2023 2 28 ≡ year_days 2022 + days_before (is_leap 2023) 2 + 28
ymd_to_scalar_lem_example = ymd_to_scalar_lem february

scalar_to_ymd-ymd_to_scalar_example :
    scalar_to_ymd (ymd_to_scalar 2023 2 28) ≡ some (record { year = 2023; month = 2; day = 28 })
scalar_to_ymd-ymd_to_scalar_example = scalar_to_ymd-ymd_to_scalar 2023 2 28 february

march : IsDate 2017 3 1
unfolding is_leap days
march = record {
  from_year_1 = ground arith;
  to_year = ground arith;
  from_month = ground arith;
  to_month = ground arith;
  from_day = ground arith;
  to_day = ground arith;
}

dow-last_dow_example :
    (dow 2017 3 (last_dow 2017 3 6) ≡ 6)
    × (last_dow 2017 3 6 ≤ days_of 3)
    × (days_of 3 < last_dow 2017 3 6 + 7)
dow-last_dow_example = dow-last_dow 2017 3 6 march (ground arith)

-- The 28th of February 2019, at 23:59:58.
abbrev moment : Tm
moment = record {
  tm_sec = 58;
  tm_min = 59;
  tm_hour = 23;
  tm_mday = 28;
  tm_mon = 1;
  tm_year = 119;
  tm_wday = 3;
  tm_yday = 58;
  tm_isdst = none;
}

moment-IsTm : IsTm moment
unfolding is_leap days
moment-IsTm = record {
  is_date = record {
    from_year_1 = ground arith;
    to_year = ground arith;
    from_month = ground arith;
    to_month = ground arith;
    from_day = ground arith;
    to_day = ground arith;
  };
  from_1970 = ground arith;
  to_2020 = ground arith;
  hours = ground arith;
  minutes = ground arith;
  seconds = ground arith;
}

to_datetime-to_epoch_example :
    (u : Tm) × (to_datetime (to_epoch moment) ≡ some u)
    × (u.tm_year ≡ 119)
    × (u.tm_mon ≡ 1)
    × (u.tm_mday ≡ 28)
    × (u.tm_hour ≡ 23)
    × (u.tm_min ≡ 59)
    × (u.tm_sec ≡ 58)
    × (u.tm_wday ≡ dow 2019 2 28)
to_datetime-to_epoch_example = to_datetime-to_epoch moment moment-IsTm (inr (ground arith))

abbrev new_year : DateTime
new_year = record {
  date = record { day = 1; dow = 0; month = 1; year = 2018 };
  time = record { hundredths = 0; second = 1; minute = 2; hour = 3 };
  deviation = 65476;
  status = 128;
}

abbrev empty : Array
empty = record { rd_index = 0; wr_index = 0; offset = 0; size = 16; buff = replicate 16 0 }

datetime_from_cosem-datetime_to_cosem_example :
    (on_array (datetime_to_cosem new_year) >>= λ _. datetime_from_cosem 0)
      (record { message = record new_year { status = 0 }; array = empty })
    ≡ ret true
        (record { message = new_year; array = skip 12 (append (datetime_bytes new_year) empty) })
datetime_from_cosem-datetime_to_cosem_example =
    datetime_from_cosem-datetime_to_cosem 0 new_year (record new_year { status = 0 }) {a = empty}
      (ground arith) (ground arith) (ground arith) refl (ground arith)

is_dst-total_example : (d : Dst) × (is_dst us_rules 2018 2 31 ≡ some d)
is_dst-total_example = is_dst-total 2018 2 31 (ground arith) (ground arith)

-- A minute before midnight, a minute on and sixty seconds back.
add_time_lem_example :
    (t : Moment) × (d : ℤ) × (add_time 23 59 0 (pos 0) (pos 1) (negsuc 59) tt ≡ ret (some t) tt)
    × (t.days ≡ to_u32 d)
    × (86400 * pos_part d + seconds t.hrs t.mins t.secs + seconds 0 0 60
        ≡ 86400 * neg_part d + seconds 23 60 0)
    × (t.hrs ≤ 24)
    × (t.mins ≤ 60)
    × (t.secs ≤ 60)
    × ((t.secs ≡ 60) ↔ ((0 < 60) × ((60 - 0) % 60 ≡ 0)))
add_time_lem_example =
    add_time_lem 23 59 0 (pos 0) (pos 1) (negsuc 59) (ground arith) (ground arith) (ground arith)
      (ground arith) (ground arith) (ground arith)
