-- ===== src/Display/Tests.antt =====
-- The theorems of src/hal/display.rs at a screen whose last row is full.
use planck_os.Prelude.{◌+◌, ◌*◌, refl, [], ◌∷◌, arith}
use planck_os.Display.{Screen, write_impl}
use planck_os.Display.Bounds.{Keeps, write_impl-Keeps}

abbrev full_row : Screen
full_row = record { cells = λ j. j; row = 24; col = 80; cursor = 24 * 80 + 80 }

write_impl-Keeps_example : Keeps full_row (write_impl (b'x' ∷ b'\n' ∷ 8 ∷ []) full_row)
write_impl-Keeps_example =
    write_impl-Keeps (b'x' ∷ b'\n' ∷ 8 ∷ []) full_row
      (record { in_rows = omega arith; in_cols = omega arith; in_sync = refl })
