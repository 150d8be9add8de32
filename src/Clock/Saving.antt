-- ===== src/Clock/Saving.antt =====
-- share/util/clock.c: daylight saving time, and the status of a date-time.
use cosemlib.Base.{
  ℕ, zero, suc, ◌%◌, Bool, true, false, ◌&&◌, Option, none, some, if◌then◌else◌, ltb, leb, ◌==◌,
}
use cosemlib.Clock.{
  add32, sub32, ymd_to_scalar, dow, is_valid_date, is_valid_time, is_valid_deviation,
}
use cosemlib.Clock.Cosem.{DateTime}

-- The global variables: the month, the date and the day of the week of both ends; a day that is `none`
-- is DOW_IGNORE.
pub record Rules : Type 0 where
  pub start_mo : ℕ
  pub start_dt : ℕ
  pub start_dy : Option ℕ
  pub stop_mo : ℕ
  pub stop_dt : ℕ
  pub stop_dy : Option ℕ

-- Their initial values; SUNDAY is 6.
abbrev pub us_rules : Rules
us_rules = record {
  start_mo = 4;
  start_dt = 1;
  start_dy = some 6;
  stop_mo = 10;
  stop_dt = 31;
  stop_dy = some 6;
}

-- The loops `while (dy != Start % 7) ++Start;` and `while (dy != Stop % 7) --Stop;` on fuel.
unfoldable pub forward_to : ℕ → ℕ → ℕ → Option ℕ
forward_to zero dy day = none
forward_to (suc fuel) dy day =
    let rest = forward_to fuel dy (add32 day 1) in if dy == day % 7 then some day else rest

unfoldable pub back_to : ℕ → ℕ → ℕ → Option ℕ
back_to zero dy day = none
back_to (suc fuel) dy day =
    let rest = back_to fuel dy (sub32 day 1) in if dy == day % 7 then some day else rest

abbrev pub first_on : Option ℕ → ℕ → Option ℕ
first_on none day = some day
first_on (some dy) day = forward_to 7 dy day

abbrev pub last_on : Option ℕ → ℕ → Option ℕ
last_on none day = some day
last_on (some dy) day = back_to 7 dy day

abbrev pub start_of : Rules → ℕ → Option ℕ
start_of r yr = first_on r.start_dy (ymd_to_scalar yr r.start_mo r.start_dt)

abbrev pub stop_of : Rules → ℕ → Option ℕ
stop_of r yr = last_on r.stop_dy (ymd_to_scalar yr r.stop_mo r.stop_dt)

-- The results of `clk_is_dst`: -1, 0 and 1.
pub data Dst : Type 0 where
  bad_date : Dst
  in_range : Bool → Dst

-- `clk_is_dst`; seven rounds of each loop are enough, see `is_dst-total`. `none` is where they are not.
unfoldable pub is_dst : Rules → ℕ → ℕ → ℕ → Option Dst
unfolding is_valid_date
is_dst r yr mo dy =
    if is_valid_date yr mo dy
    then elim (start_of r yr) [
      | none ↦ none
      | some start ↦ elim (stop_of r yr) [
        | none ↦ none
        | some stop ↦
            let date = ymd_to_scalar yr mo dy in some (in_range (leb start date && ltb date stop))
      ]
    ]
    else some bad_date

-- The bits of the status by the result of `clk_is_dst`.
abbrev status_of : Bool → Dst → ℕ
status_of well bad_date = 1
status_of false (in_range dst) = 1
status_of true (in_range dst) = if dst then 128 else 0

-- `clk_cosem_update_status`
unfoldable pub update_status : Rules → DateTime → Option DateTime
unfolding is_dst is_valid_date is_valid_time is_valid_deviation
update_status r clk =
    let well =
      is_valid_date clk.date.year clk.date.month clk.date.day
      && (is_valid_time clk.time.hour clk.time.minute clk.time.second
          && is_valid_deviation clk.deviation) in
    elim (is_dst r clk.date.year clk.date.month clk.date.day) [
      | none ↦ none
      | some d ↦ some (record clk { status = status_of well d })
    ]

-- `clk_cosem_init`; the deviation is -60.
unfoldable pub cosem_init : Rules → DateTime → Option DateTime
unfolding update_status
cosem_init r clk = update_status r (record clk {
  date = record { year = 2000; month = 1; day = 1; dow = dow 2000 1 1 };
  time = record { hour = 0; minute = 0; second = 0; hundredths = 0 };
  deviation = 65476;
})
