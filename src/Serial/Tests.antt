-- ===== src/Serial/Tests.antt =====
-- The theorems of src/hal/serial.rs at a number of two digits and a short message.
use planck_os.Prelude.{ℕ, ◌/◌, ◌%◌, ◌≡◌, true, some, List, [], ◌∷◌, arith}
use planck_os.Serial.{Logger, log_ms, serial_debug, msg_copy}
use planck_os.Serial.Numbers.{IsNumeral}
use planck_os.Serial.Text.{log_text, log_ms-log_text}

abbrev logger : Logger
logger = record { tsc_per_ms = 1000000; last_tsc = 0; log_buf = λ j. 0; fmt_buf = λ j. 0 }

abbrev kern : List ℕ
kern = b'K' ∷ b'E' ∷ b'R' ∷ b'N' ∷ []

log_ms-log_text_example :
    (c ds es : List ℕ) × (buf : ℕ → ℕ) × IsNumeral 0 c
    × IsNumeral (123 / 10) ds
    × IsNumeral (123 % 10) es
    × (log_ms (λ s. true) 0 kern [] kern 123 logger
        ≡ some (
          record logger { log_buf = buf },
          serial_debug (log_text c kern [] (msg_copy (λ s. true) kern) ds es),
        ))
log_ms-log_text_example =
    log_ms-log_text (λ s. true) 0 kern [] kern 123 logger (omega arith) (omega arith)
