-- ===== src/Rtc.antt =====
-- The real-time clock driver of src/hal/rtc.rs. The clock is a parameter: the byte that the `n`-th
-- access gives for a register. A date is read from successive accesses.
pub mod Settled
mod Tests
use planck_os.Prelude.{ℕ, zero, suc, ◌+◌, ◌*◌, ◌/◌, ◌%◌, Bool, ◌==◌, ltb, if◌then◌else◌}

pub record RtcDate : Type 0 where
  pub year : ℕ
  pub month : ℕ
  pub day : ℕ
  pub hours : ℕ
  pub minutes : ℕ
  pub seconds : ℕ

-- `RTC_STAT_B`
abbrev pub rtc_stat_b : ℕ
rtc_stat_b = 0x0B

-- `u8` arithmetic.
pub bcd_to_bin : ℕ → ℕ
bcd_to_bin bcd = (bcd % 16 + bcd / 16 % 16 * 10 % 256) % 256

pub century : ℕ → ℕ
century year = if ltb year 80 then year + 2000 else year + 1900

-- The registers' bytes as a date.
pub decode : Bool → ℕ → ℕ → ℕ → ℕ → ℕ → ℕ → RtcDate
decode is_bcd year month day hours minutes seconds =
    if is_bcd
    then record {
      year = century (bcd_to_bin year);
      month = bcd_to_bin month;
      day = bcd_to_bin day;
      hours = bcd_to_bin hours;
      minutes = bcd_to_bin minutes;
      seconds = bcd_to_bin seconds;
    }
    else record {
      year = century year;
      month = month;
      day = day;
      hours = hours;
      minutes = minutes;
      seconds = seconds;
    }

-- Six registers in the order of the code, from the access `n` on.
abbrev pub read_regs : (ℕ → ℕ → ℕ) → Bool → ℕ → RtcDate
read_regs cmos is_bcd n =
    decode is_bcd (cmos (n + 5) 0x09) (cmos (n + 4) 0x08) (cmos (n + 3) 0x07) (cmos (n + 2) 0x04)
      (cmos (n + 1) 0x02) (cmos n 0x00)

-- `left` rounds of the loop, and the reading after them.
pub settle : ℕ → (ℕ → ℕ → ℕ) → Bool → ℕ → RtcDate
settle zero cmos is_bcd n = read_regs cmos is_bcd n
settle (suc left) cmos is_bcd n =
    if cmos n 0x00 == cmos (n + 6) 0x00
    then read_regs cmos is_bcd n
    else settle left cmos is_bcd (n + 7)

pub read_datetime : (ℕ → ℕ → ℕ) → RtcDate
read_datetime cmos = settle 100 cmos (cmos 0 rtc_stat_b / 4 % 2 == 0) 1
