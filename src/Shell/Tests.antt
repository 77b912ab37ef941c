-- ===== src/Shell/Tests.antt =====
-- The theorems of src/shell/mod.rs at a line that is being edited.
use planck_os.Prelude.{
  slice, ℕ, suc, ◌+◌, ◌*◌, ◌≤◌, ◌<◌, ◌≡◌, ◌⊎◌, min, refl, true, none, some, [], ◌∷◌, get_or, take,
  arith,
}
use planck_os.Shell.{Shell, history_push, history_get, press, redraw_input, split_args}
use planck_os.Shell.Words.{keep, pieces, split_args-keep}
use planck_os.Shell.Line.{line, edit, press-edit}
use planck_os.Shell.History.{history_push-history_get}
use planck_os.Shell.Redraw.{redraw_input-shows}
use planck_os.Display.{Screen, entry, write_impl}

-- `ab c`, with the cursor on the `b`, and two lines in the history.
abbrev typed : Shell
typed = record {
  buf = λ j. get_or (b'a' ∷ b'b' ∷ b' ' ∷ b'c' ∷ []) j 0;
  len = 4;
  cursor_pos = 1;
  history_entries = λ i j. 97 + i;
  history_lens = λ i. 3;
  history_count = 2;
  history_cursor = none;
}

split_args-keep_example :
    split_args 6 (λ w. true) (b'x' ∷ b' ' ∷ b' ' ∷ b'y' ∷ []) []
    ≡ some (take 16 (keep (λ w. true) (pieces (b'x' ∷ b' ' ∷ b' ' ∷ b'y' ∷ []))))
split_args-keep_example =
    split_args-keep 6 (λ w. true) (b'x' ∷ b' ' ∷ b' ' ∷ b'y' ∷ []) (omega arith)

press-edit_example : line (press 80 b'z' typed).0 ≡ edit 80 b'z' (line typed)
press-edit_example = press-edit 80 b'z' typed (omega arith) (λ e. omega arith) (λ e. omega arith)

history_push-history_get_example :
    let t = history_push typed.buf 4 typed in
    (t.history_count ≡ min (2 + 1) 64)
    × (history_get t 0 ≡ slice typed.buf 0 (min 4 256))
    × ((i : ℕ) → i + 1 < t.history_count → history_get t (i + 1) ≡ history_get typed i)
history_push-history_get_example =
    history_push-history_get typed.buf 4 typed (omega arith) (omega arith)

abbrev last_row : Screen
last_row = record { cells = λ j. 0; row = 24; col = 5; cursor = 24 * 80 + 5 }

redraw_input-shows_example :
    let e = write_impl (redraw_input 80 (λ j. b'x') 3 1) last_row in
    (e.row ≡ 24)
    × (e.col ≡ 2 + 1)
    × (e.cursor ≡ 24 * 80 + (2 + 1))
    × (e.cells (24 * 80) ≡ entry b'$' 0x5F)
    × (e.cells (24 * 80 + 1) ≡ entry b' ' 0x5F)
    × ((k : ℕ) → k < 3 → e.cells (24 * 80 + suc (suc k)) ≡ entry b'x' 0x5F)
    × ((k : ℕ) → 3 ≤ k → k < 77 → e.cells (24 * 80 + suc (suc k)) ≡ entry b' ' 0x5F)
    × ((j : ℕ)
        → (j < 24 * 80) ⊎ ((24 * 80 + 2 + 3 ≤ j) × (24 * 80 + 79 ≤ j))
        → e.cells j ≡ last_row.cells j)
redraw_input-shows_example =
    redraw_input-shows (λ j. b'x') 3 1 last_row
      (record { in_rows = omega arith; in_cols = omega arith; in_sync = refl }) (omega arith)
      (omega arith) (λ k l. (λ e. omega arith, λ e. omega arith, λ e. omega arith))
