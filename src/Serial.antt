-- ===== src/Serial.antt =====
-- The boot log of src/hal/serial.rs: the text of a log line, built in a buffer of 224 bytes, and
-- the time it states. The bytes of a log line go to the port until a NUL. `none` is a panic: an
-- index out of a buffer's range, or a division by zero. The time-stamp counter's readings are
-- arguments, as are the number of the core and the library's test of UTF-8.
pub mod Numbers
pub mod Hex
pub mod Text
mod Tests
use planck_os.Prelude.{
  bind, ℕ, zero, suc, ◌+◌, ◌-◌, ◌*◌, ◌/◌, ◌%◌, min, Bool, false, not, ◌||◌, Option, none, some,
  ◌==◌, ltb, leb, if◌then◌else◌, update, List, [], ◌∷◌, length, take, slice,
}
use planck_os.Prelude.{sub64, replicate, ◌^◌}

-- `LOG_BUF` or `FMT_BUF`, and the index of the next byte.
pub record Line : Type 0 where
  pub buf : ℕ → ℕ
  pub i : ℕ

-- `TSC_PER_MS`, `LAST_TSC` and the two buffers.
pub record Logger : Type 0 where
  pub tsc_per_ms : ℕ
  pub last_tsc : ℕ
  pub log_buf : ℕ → ℕ
  pub fmt_buf : ℕ → ℕ

abbrev pub buf_len : ℕ
buf_len = 224

pub put : ℕ → Line → Line
put b l = if ltb l.i buf_len then record { buf = update l.buf l.i b; i = l.i + 1 } else l

pub put_str : List ℕ → Line → Line
put_str [] l = l
put_str (c ∷ cs) l = put_str cs (put c l)

pub put_pad : List ℕ → ℕ → Line → Line
put_pad s width l =
    put_str (replicate (width - min (length s) width) b' ') (put_str (take width s) l)

-- `while v > 0`: `left` places of `tmp` are free, and `tmp` holds the last byte first.
pub digits : ℕ → ℕ → List ℕ → Option (List ℕ)
digits zero v tmp = if v == 0 then some tmp else none
digits (suc left) v tmp =
    let rest = digits left (v / 10) ((b'0' + v % 10) ∷ tmp) in if v == 0 then some tmp else rest

pub put_dec : ℕ → Line → Option Line
put_dec v l =
    if v == 0 then some (put b'0' l) else bind (digits 20 v []) (λ tmp. some (put_str tmp l))

-- `v >> (shift * 4)`
pub shr_nibbles : ℕ → ℕ → ℕ
shr_nibbles zero v = v
shr_nibbles (suc shift) v = shr_nibbles shift v / 16

-- `HEX[nib]`, with the letters of the alphabet from `a` on.
abbrev pub hex_digit : ℕ → ℕ → ℕ
hex_digit a nib = if ltb nib 10 then b'0' + nib else a + (nib - 10)

-- `for shift in (0..n).rev()`
pub put_nibbles : ℕ → Bool → ℕ → Line → Line
put_nibbles zero started v l = l
put_nibbles (suc shift) started v l =
    let nib = shr_nibbles shift v % 16 in
    let write = not (nib == 0) || (started || (shift == 0)) in
    put_nibbles shift write v (if write then put (hex_digit b'a' nib) l else l)

pub put_hex : ℕ → Line → Line
put_hex v l = put_nibbles 16 false v l

-- `serial_debug`: the bytes before the first NUL.
pub serial_debug : List ℕ → List ℕ
serial_debug [] = []
serial_debug (c ∷ cs) = let rest = serial_debug cs in if c == 0 then [] else c ∷ rest

-- `for i in (0..n).rev()` of `serial_debug_hex`
unfoldable pub debug_nibbles : ℕ → ℕ → List ℕ
debug_nibbles zero val = []
debug_nibbles (suc i) val = hex_digit b'A' (shr_nibbles i val % 16) ∷ debug_nibbles i val

abbrev pub serial_debug_hex : ℕ → List ℕ
serial_debug_hex val = debug_nibbles 16 val

abbrev pub bootlog_init : ℕ → ℕ → Logger → Logger
bootlog_init tsc_per_ms t g = record g {
  tsc_per_ms = if tsc_per_ms == 0 then 1 else tsc_per_ms;
  last_tsc = t;
}

pub ms10_since : ℕ → ℕ → ℕ → Option ℕ
ms10_since per_ms start now =
    if per_ms == 0 then none else some (sub64 now start * 10 / per_ms % 2 ^ 64)

-- `while n >= 10`; `none` is lack of fuel.
pub count_digits : ℕ → ℕ → ℕ → Option ℕ
count_digits zero n ndigits = none
count_digits (suc fuel) n ndigits =
    let rest = count_digits fuel (n / 10) (ndigits + 1) in if leb 10 n then rest else some ndigits

-- `core::str::from_utf8(...).unwrap_or("?")`
abbrev pub or_question : (List ℕ → Bool) → List ℕ → List ℕ
or_question utf8 s = if utf8 s then s else b'?' ∷ []

-- The message of `log_ms`, cut to the 112 bytes of its copy.
abbrev pub msg_copy : (List ℕ → Bool) → List ℕ → List ℕ
msg_copy utf8 msg = or_question utf8 (take 112 msg)

-- The line up to the pad of the core's number.
abbrev pub put_cpu : ℕ → Line → Option Line
put_cpu cpu l = bind (put_dec cpu (put_str (b'[' ∷ b'C' ∷ b'P' ∷ b'U' ∷ []) l)) (λ l.
    bind (count_digits 20 cpu 1) (λ ndigits. some (put_str (replicate (6 - (3 + ndigits)) b' ') l)))

abbrev pub put_tag : List ℕ → Line → Line
put_tag s l = put b' ' (put b']' (put_pad s 6 (put b'[' l)))

abbrev pub put_time : ℕ → Line → Option Line
put_time ms10 l = bind (put_dec (ms10 / 10) (put b'(' (put b' ' l))) (λ l.
    bind (put_dec (ms10 % 10) (put b'.' l))
      (λ l. some (put_str (b' ' ∷ b'm' ∷ b's' ∷ b')' ∷ b'\r' ∷ b'\n' ∷ []) l)))

-- `buf[i] = 0`
abbrev pub put_nul : Line → Option Line
put_nul l = if ltb l.i buf_len then some (record l { buf = update l.buf l.i 0 }) else none

pub log_line : (List ℕ → Bool) → ℕ → List ℕ → List ℕ → List ℕ → ℕ → (ℕ → ℕ) → Option Line
log_line utf8 cpu part sub msg ms10 buf = bind (put_cpu cpu (record { buf = buf; i = 0 })) (λ l.
    bind
      (put_time ms10
        (put_str (msg_copy utf8 msg) (put_tag sub (put_tag part (put_str (b']' ∷ b' ' ∷ []) l)))))
      put_nul)

-- The new state and the bytes that go to the port.
pub log_ms : (List ℕ → Bool) → ℕ → List ℕ → List ℕ → List ℕ → ℕ → Logger → Option (Logger × List ℕ)
log_ms utf8 cpu part sub msg ms10 g =
    bind (log_line utf8 cpu part sub msg ms10 g.log_buf)
      (λ l. some (record g { log_buf = l.buf }, serial_debug (slice l.buf 0 l.i)))

-- `now` and `after` are the two readings of the counter.
pub log : (List ℕ → Bool) → ℕ → ℕ → ℕ → List ℕ → List ℕ → List ℕ → Logger → Option (Logger × List ℕ)
log utf8 cpu now after part sub msg g =
    bind (ms10_since g.tsc_per_ms g.last_tsc now)
      (λ ms10. log_ms utf8 cpu part sub msg ms10 (record g { last_tsc = after }))

pub log_hex :
    (List ℕ → Bool)
    → ℕ
    → ℕ
    → ℕ
    → List ℕ
    → List ℕ
    → List ℕ
    → ℕ
    → List ℕ
    → Logger
    → Option (Logger × List ℕ)
log_hex utf8 cpu now after part sub prefix val suffix g =
    let l = put_str prefix (record { buf = g.fmt_buf; i = 0 }) in
    bind (put_nul (put_str suffix (put_hex val (put b'x' (put b'0' l))))) (λ l.
      log utf8 cpu now after part sub (or_question utf8 (slice l.buf 0 l.i))
        (record g { fmt_buf = l.buf }))
