-- ===== src/Rtc/Tests.antt =====
-- The theorem of src/hal/rtc.rs at a clock in binary-coded decimal whose seconds change in the
-- first round.
use planck_os.Prelude.{ℕ, ◌≡◌, refl, true, arith, if◌then◌else◌, ◌==◌}
use planck_os.Rtc.{RtcDate, read_datetime}
use planck_os.Rtc.Settled.{read_datetime-Shows}

abbrev date : RtcDate
date = record { year = 2026; month = 5; day = 17; hours = 12; minutes = 34; seconds = 56 }

-- The first round reads the second before.
abbrev clock : ℕ → ℕ → ℕ
clock n register =
    if register == 0x09
    then 0x26
    else if register == 0x08
    then 0x05
    else if register == 0x07
    then 0x17
    else if register == 0x04
    then 0x12
    else if register == 0x02
    then 0x34
    else if register == 0x0B
    then 0
    else if n == 1
    then 0x55
    else 0x56

read_datetime-Shows_example : read_datetime clock ≡ date
read_datetime-Shows_example =
    read_datetime-Shows clock true date 1
      (record {
        year_low = omega arith;
        year_high = omega arith;
        month_high = omega arith;
        day_high = omega arith;
        hours_high = omega arith;
        minutes_high = omega arith;
        seconds_high = omega arith;
      })
      (omega arith) (λ j h. ground arith) (λ h. refl) refl
      (record {
        shows_seconds = refl;
        shows_minutes = refl;
        shows_hours = refl;
        shows_day = refl;
        shows_month = refl;
        shows_year = refl;
      })
