-- ===== src/Display.antt =====
-- The text screen of src/hal/display.rs: 25 rows of 80 cells of 16 bits at 0xB8000, the column and
-- the row of the next character, and the position that the hardware's cursor was last given.
pub mod Bounds
pub mod Rows
pub mod Text
mod Tests
use planck_os.Prelude.{
  ℕ, zero, suc, ◌+◌, ◌-◌, ◌*◌, ◌/◌, ◌%◌, ◌==◌, ltb, leb, if◌then◌else◌, update, List, [], ◌∷◌,
}

pub record Screen : Type 0 where
  pub cells : ℕ → ℕ
  pub row : ℕ
  pub col : ℕ
  pub cursor : ℕ

abbrev pub width : ℕ
width = 80

abbrev pub height : ℕ
height = 25

abbrev pub color : ℕ
color = 0x5F

abbrev pub entry : ℕ → ℕ → ℕ
entry c color_ = color_ * 256 + c

abbrev pub blank : ℕ
blank = entry b' ' color

-- The two bytes of the position go to the registers 0x0E and 0x0F.
abbrev pub set_cursor_impl : ℕ → ℕ → Screen → Screen
set_cursor_impl row col d =
    let pos = row * width + col in record d { cursor = pos / 256 % 256 * 256 + pos % 256 }

-- `for i in from..from + left { write_volatile(BUF.add(i), c) }`
pub fill : ℕ → ℕ → ℕ → (ℕ → ℕ) → (ℕ → ℕ)
fill zero from c cells = cells
fill (suc left) from c cells = fill left (from + 1) c (update cells from c)

-- `for i in to..to + left`, the cell `i` takes the value of the cell one row below.
pub raise : ℕ → ℕ → (ℕ → ℕ) → (ℕ → ℕ)
raise zero to cells = cells
raise (suc left) to cells = raise left (to + 1) (update cells to (cells (to + width)))

abbrev pub reset_cursor_impl : Screen → Screen
reset_cursor_impl d = set_cursor_impl 0 0 (record d { col = 0; row = 0 })

pub clear_impl : Screen → Screen
clear_impl d = reset_cursor_impl (record d { cells = fill (width * height) 0 blank d.cells })

-- The loops over the rows and the columns visit the cells in their order in memory.
pub scroll_impl : Screen → Screen
scroll_impl d =
    let raised = raise ((height - 1) * width) 0 d.cells in
    record d { cells = fill width ((height - 1) * width) blank raised }

-- Column 0 of the next row, with a scroll below the last one.
abbrev pub next_row : Screen → Screen
next_row d =
    if leb height (d.row + 1)
    then record (scroll_impl d) { col = 0; row = height - 1 }
    else record d { col = 0; row = d.row + 1 }

-- `set_cursor_impl(ROW, COL)`
abbrev pub sync_cursor : Screen → Screen
sync_cursor d = set_cursor_impl d.row d.col d

abbrev pub put_cell : ℕ → Screen → Screen
put_cell c d = record d {
  cells = update d.cells (d.row * width + d.col) (entry c color);
  col = d.col + 1;
}

pub putchar_impl : ℕ → Screen → Screen
putchar_impl c d =
    if c == 0x08
    then if ltb 0 d.col then sync_cursor (record d { col = d.col - 1 }) else d
    else if c == 0x0D
    then sync_cursor (record d { col = 0 })
    else if c == b'\n'
    then sync_cursor (next_row d)
    else sync_cursor (put_cell c (if leb width d.col then next_row d else d))

pub write_impl : List ℕ → Screen → Screen
write_impl [] d = d
write_impl (c ∷ cs) d = write_impl cs (putchar_impl c d)

abbrev pub writeln_impl : List ℕ → Screen → Screen
writeln_impl cs d = putchar_impl b'\n' (write_impl cs d)

-- `init` after the palette.
abbrev pub init : Screen → Screen
init d = set_cursor_impl 0 0 (clear_impl d)
