-- ===== src/Clock/Cosem.antt =====
-- share/util/clock.c: dates and times as the bytes of COSEM.
use cosemlib.Base.{
  ℕ, ◌+◌, ◌*◌, ◌%◌, Bool, false, none, some, M, pure, ◌>>=◌, ◌>>◌, ◌&&&◌, if◌then◌else◌,
}
use cosemlib.Base.Words.{u16_mod, low8, shr}
use cosemlib.Array
use cosemlib.Array.{Array}
use cosemlib.Services.{Exchange, on_array, update, take_u8, take_read}

-- `clk_date_t`, `clk_time_t` and `clk_datetime_t`; the deviation is in two's complement.
pub record Date : Type 0 where
  pub day : ℕ
  pub dow : ℕ
  pub month : ℕ
  pub year : ℕ

pub record Time : Type 0 where
  pub hundredths : ℕ
  pub second : ℕ
  pub minute : ℕ
  pub hour : ℕ

pub record DateTime : Type 0 where
  pub date : Date
  pub time : Time
  pub deviation : ℕ
  pub status : ℕ

-- `clk_set_undefined`
unfoldable pub set_undefined : DateTime → DateTime
set_undefined clk = record {
  date = record { year = 0xFFFF; month = 0xFF; day = 0xFF; dow = 0xFF };
  time = record { hour = 0xFF; minute = 0xFF; second = 0xFF; hundredths = 0 };
  deviation = 0x8000;
  status = 0xFF;
}

unfoldable pub date_to_cosem : Date → M Array Bool
date_to_cosem date =
    Array.write_u16 date.year
    &&& Array.write_u8 date.month
    &&& Array.write_u8 date.day
    &&& Array.write_u8 date.dow

unfoldable pub time_to_cosem : Time → M Array Bool
time_to_cosem time =
    Array.write_u8 time.hour
    &&& Array.write_u8 time.minute
    &&& Array.write_u8 time.second
    &&& Array.write_u8 time.hundredths

unfoldable pub datetime_to_cosem : DateTime → M Array Bool
unfolding date_to_cosem time_to_cosem
datetime_to_cosem clk =
    date_to_cosem clk.date
    &&& time_to_cosem clk.time
    &&& Array.write_u8 (low8 (shr clk.deviation 8))
    &&& Array.write_u8 (low8 clk.deviation)
    &&& Array.write_u8 clk.status

abbrev set_date : (Date → Date) → DateTime → DateTime
set_date f clk = record clk { date = f clk.date }

abbrev set_time : (Time → Time) → DateTime → DateTime
set_time f clk = record clk { time = f clk.time }

unfoldable pub date_from_cosem : M (Exchange DateTime) Bool
date_from_cosem =
    take_read Array.read_u16 (λ w. set_date (λ d. record d { year = w }))
    &&& take_u8 (λ b. set_date (λ d. record d { month = b }))
    &&& take_u8 (λ b. set_date (λ d. record d { day = b }))
    &&& take_u8 (λ b. set_date (λ d. record d { dow = b }))

unfoldable pub time_from_cosem : M (Exchange DateTime) Bool
time_from_cosem =
    take_u8 (λ b. set_time (λ t. record t { hour = b }))
    &&& take_u8 (λ b. set_time (λ t. record t { minute = b }))
    &&& take_u8 (λ b. set_time (λ t. record t { second = b }))
    &&& take_u8 (λ b. set_time (λ t. record t { hundredths = b }))

-- The deviation is stored whether or not its bytes have been read; where they have not, its value comes
-- from variables that are not initialised, the parameter `junk`.
unfoldable pub datetime_from_cosem : ℕ → M (Exchange DateTime) Bool
unfolding date_from_cosem time_from_cosem
datetime_from_cosem junk = do
  valid ← date_from_cosem &&& time_from_cosem
  if valid
      then (do
        high ← on_array Array.read_u8
        elim high [
          | none ↦ update (λ clk. record clk { deviation = junk }) >> pure false
          | some h ↦ do
            low ← on_array Array.read_u8
            elim low [
              | none ↦ update (λ clk. record clk { deviation = junk }) >> pure false
              | some l ↦
                  update (λ clk. record clk { deviation = (h * 256 + l) % u16_mod })
                  >> take_u8 (λ b clk. record clk { status = b })
            ]
        ])
      else (update (λ clk. record clk { deviation = junk }) >> pure false)
