-- ===== src/Applets/Reports.antt =====
-- The applets `heap` and `datetime` of src/applets, as the text that they print. `none` is a panic.
use planck_os.Prelude.{
  ℕ, zero, suc, ◌+◌, ◌*◌, ◌/◌, ◌%◌, ◌||◌, Option, some, ◌==◌, ltb, leb, if◌then◌else◌, List, [],
  ◌∷◌, ◌++◌, get_elem?,
}
use planck_os.Prelude.{codes, sub64}
use planck_os.Heap.{HeapCore}
use planck_os.Rtc.{RtcDate}
use planck_os.Serial.{digits, hex_digit, shr_nibbles}
use planck_os.Applets.{bind}

-- `dec_str`
pub dec_str : ℕ → Option (List ℕ)
dec_str v = if v == 0 then some (b'0' ∷ []) else digits 20 v []

-- `for k in 0..16` of `hex_str`, with `left` digits to come.
pub hex_digits : ℕ → ℕ → List ℕ
hex_digits zero v = []
hex_digits (suc left) v = hex_digit b'a' (shr_nibbles left v % 16) ∷ hex_digits left v

abbrev pub hex_str : ℕ → List ℕ
hex_str v = b'0' ∷ b'x' ∷ hex_digits 16 v

abbrev pub write_row : List ℕ → List ℕ → List ℕ
write_row label value = label ++ (value ++ codes "\n")

-- `run` of `heap`, of a heap of `HEAP_END - HEAP_BASE` bytes.
pub heap_report : ℕ → HeapCore → Option (List ℕ)
heap_report total core =
    let used = sub64 total core.free_bytes in
    let pct = if ltb 0 total then used * 100 % 18446744073709551616 / total else 0 in
    bind (dec_str core.alloc_count) (λ live. bind (dec_str pct) (λ percent. some (
      codes "planckOS v0.1 - Heap Allocator\n"
      ++ (write_row (codes "Total heap:     ") (hex_str total)
          ++ (write_row (codes "Free:           ") (hex_str core.free_bytes)
              ++ (write_row (codes "Used:           ") (hex_str used)
                  ++ (write_row (codes "Live allocs:    ") live
                      ++ (write_row (codes "Utilization:    ") percent ++ codes "%\r\n"))))))))

abbrev pub months : List (List ℕ)
months =
    codes "January"
    ∷ codes "February"
    ∷ codes "March"
    ∷ codes "April"
    ∷ codes "May"
    ∷ codes "June"
    ∷ codes "July"
    ∷ codes "August"
    ∷ codes "September"
    ∷ codes "October"
    ∷ codes "November"
    ∷ codes "December"
    ∷ []

-- `months[(month - 1) as usize]` in 8 bits, for a month up to 12.
abbrev pub month_name : ℕ → Option (List ℕ)
month_name month =
    if leb month 12 then get_elem? months ((month + 255) % 256) else some (codes "???")

-- The loop of `fmt_num`, with `left` places before those written.
pub num_digits : ℕ → ℕ → List ℕ → List ℕ
num_digits zero v buf = buf
num_digits (suc left) v buf =
    let here = (v % 10 + b'0') ∷ buf in
    let rest = num_digits left (v / 10) here in if (v / 10 == 0) || (left == 0) then here else rest

abbrev pub fmt_num : ℕ → List ℕ
fmt_num n = num_digits 15 n []

abbrev pub fmt_two : ℕ → List ℕ
fmt_two n = (b'0' + n / 10) ∷ (b'0' + n % 10) ∷ []

-- The texts that are written one after the other.
pub texts : List (List ℕ) → List ℕ
texts [] = []
texts (t ∷ ts) = t ++ texts ts

-- `run` of `datetime`.
pub datetime_report : RtcDate → Option (List ℕ)
datetime_report dt = bind (month_name dt.month) (λ name. some (
    texts (
      name
      ∷ codes " "
      ∷ fmt_num dt.day
      ∷ codes ", "
      ∷ fmt_num dt.year
      ∷ codes "  "
      ∷ fmt_two dt.hours
      ∷ codes ":"
      ∷ fmt_two dt.minutes
      ∷ codes ":"
      ∷ fmt_two dt.seconds
      ∷ codes "\n"
      ∷ [])))
