-- ===== src/Rtc/Settled.antt =====
-- What `read_datetime` of src/hal/rtc.rs gives.
use planck_os.Prelude.{
  ℕ, zero, suc, ◌+◌, ◌*◌, ◌/◌, ◌%◌, Bool, true, false, ◌==◌, if◌then◌else◌, ◌≡◌, refl, ◌<◌, ◌≤◌,
  ◌≢◌, arith, ne→==, eq→==,
}
use mathlib.Core.Path.{subst}
use planck_os.Rtc.{
  RtcDate, bcd_to_bin, century, decode, read_regs, settle, read_datetime, rtc_stat_b,
}

-- Binary-coded decimal of a number below 100.
abbrev pub to_bcd : ℕ → ℕ
to_bcd n = n / 10 * 16 + n % 10

bcd_to_bin-to_bcd : (n : ℕ) → n < 100 → bcd_to_bin (to_bcd n) ≡ n
unfolding bcd_to_bin
bcd_to_bin-to_bcd n h = omega arith

century_of : (y : ℕ) → 1980 ≤ y → y < 2080 → century (y % 100) ≡ y
unfolding century
century_of y a b = ground arith

-- A date that the clock can hold.
pub record IsDate (d : RtcDate) : Type 0 where
  pub year_low : 1980 ≤ d.year
  pub year_high : d.year < 2080
  pub month_high : d.month < 100
  pub day_high : d.day < 100
  pub hours_high : d.hours < 100
  pub minutes_high : d.minutes < 100
  pub seconds_high : d.seconds < 100

-- The bytes of a date, in the form that bit 2 of status register B announces.
abbrev pub reg : Bool → ℕ → ℕ
reg is_bcd n = if is_bcd then to_bcd n else n

decode-reg :
    (b : Bool) (d : RtcDate)
    → IsDate d
    → decode b
        (reg b (d.year % 100))
        (reg b d.month)
        (reg b d.day)
        (reg b d.hours)
        (reg b d.minutes)
        (reg b d.seconds)
      ≡ d
unfolding decode
decode-reg true d h =
    rw
      (
        bcd_to_bin-to_bcd (d.year % 100) (omega arith),
        century_of d.year h.year_low h.year_high,
        bcd_to_bin-to_bcd d.month h.month_high,
        bcd_to_bin-to_bcd d.day h.day_high,
        bcd_to_bin-to_bcd d.hours h.hours_high,
        bcd_to_bin-to_bcd d.minutes h.minutes_high,
        bcd_to_bin-to_bcd d.seconds h.seconds_high,
      )
      refl
decode-reg false d h = rw (century_of d.year h.year_low h.year_high) refl

-- The accesses from `n` to `n + 6` read the registers of the date `d`.
pub record Shows (cmos : ℕ → ℕ → ℕ) (b : Bool) (d : RtcDate) (n : ℕ) : Type 0 where
  pub shows_seconds : cmos n 0x00 ≡ reg b d.seconds
  pub shows_minutes : cmos (n + 1) 0x02 ≡ reg b d.minutes
  pub shows_hours : cmos (n + 2) 0x04 ≡ reg b d.hours
  pub shows_day : cmos (n + 3) 0x07 ≡ reg b d.day
  pub shows_month : cmos (n + 4) 0x08 ≡ reg b d.month
  pub shows_year : cmos (n + 5) 0x09 ≡ reg b (d.year % 100)

read_regs-Shows :
    (cmos : ℕ → ℕ → ℕ) (b : Bool) (d : RtcDate) (n : ℕ)
    → IsDate d
    → Shows cmos b d n
    → read_regs cmos b n ≡ d
read_regs-Shows cmos b d n h s =
    rw (s.shows_seconds, s.shows_minutes, s.shows_hours, s.shows_day, s.shows_month, s.shows_year)
      (decode-reg b d h)

first_round : (n : ℕ) → n + 7 * 0 ≡ n
first_round n = omega arith

shift_round : (n j : ℕ) → n + 7 + 7 * j ≡ n + 7 * suc j
shift_round n j = omega arith

-- The seconds change in each round before the one at `n + 7 * k`.
settle-late :
    (k left : ℕ) (cmos : ℕ → ℕ → ℕ) (b : Bool) (d : RtcDate) (n : ℕ)
    → IsDate d
    → k ≤ left
    → ((j : ℕ) → j < k → cmos (n + 7 * j) 0x00 ≢ cmos (n + 7 * j + 6) 0x00)
    → (k < left → cmos (n + 7 * k) 0x00 ≡ cmos (n + 7 * k + 6) 0x00)
    → Shows cmos b d (n + 7 * k)
    → settle left cmos b n ≡ d
unfolding settle
settle-late zero zero cmos b d n h l c e s =
    read_regs-Shows cmos b d n h (subst (Shows cmos b d) (first_round n) s)
settle-late zero (suc left) cmos b d n h l c e s =
    rw
      (eq→== (cmos n 0x00) (cmos (n + 6) 0x00)
        (subst (λ m. cmos m 0x00 ≡ cmos (m + 6) 0x00) (first_round n) (e (omega arith))))
      (read_regs-Shows cmos b d n h (subst (Shows cmos b d) (first_round n) s))
settle-late (suc k) zero cmos b d n h l c e s = ground arith
settle-late (suc k) (suc left) cmos b d n h l c e s =
    rw
      (ne→== (cmos n 0x00) (cmos (n + 6) 0x00)
        (subst (λ m. cmos m 0x00 ≢ cmos (m + 6) 0x00) (first_round n) (c 0 (omega arith))))
      (settle-late k left cmos b d (n + 7) h (omega arith)
        (λ j m. rw (shift_round n j) (c (suc j) (omega arith)))
        (λ m. rw (shift_round n k) (e (omega arith))) (rw (shift_round n k) s))

-- `read_datetime` gives the date `d` that the clock's registers show in binary-coded decimal or in
-- binary, as status register B says, in the first round whose two readings of the seconds agree, or
-- after a hundred rounds in which they do not. `d` is a date from 1980 to 2079, and the round is
-- numbered `k`.
pub read_datetime-Shows :
    (cmos : ℕ → ℕ → ℕ) (b : Bool) (d : RtcDate) (k : ℕ)
    → IsDate d
    → k ≤ 100
    → ((j : ℕ) → j < k → cmos (1 + 7 * j) 0x00 ≢ cmos (1 + 7 * j + 6) 0x00)
    → (k < 100 → cmos (1 + 7 * k) 0x00 ≡ cmos (1 + 7 * k + 6) 0x00)
    → (cmos 0 rtc_stat_b / 4 % 2 == 0) ≡ b
    → Shows cmos b d (1 + 7 * k)
    → read_datetime cmos ≡ d
unfolding read_datetime
read_datetime-Shows cmos b d k h l c e m s = rw m (settle-late k 100 cmos b d 1 h l c e s)
