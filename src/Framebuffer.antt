-- ===== src/Framebuffer.antt =====
-- The graphic screen of src/hal/framebuffer.rs. The font, which the build includes, and the size of
-- the screen are fields that no operation changes. `none` is a panic, such as a pixel out of the
-- slice.
pub mod Bounds
mod Tests
use planck_os.Prelude.{
  bind, ℕ, zero, suc, ◌+◌, ◌-◌, ◌*◌, ◌/◌, ◌%◌, Bool, true, false, ◌&&◌, ◌||◌, Option, none, some,
  ◌==◌, ltb, leb, if◌then◌else◌, update, List, [], ◌∷◌,
}
use planck_os.Prelude.{sub64}

-- The parts of `FramebufferDisplay` that stay as `new` sets them; `unicode` is `none` where the
-- font has no table.
pub record Geometry : Type 0 where
  pub fb_len : ℕ
  pub width : ℕ
  pub height : ℕ
  pub pitch : ℕ
  pub glyph_w : ℕ
  pub glyph_h : ℕ
  pub glyph_data : ℕ → ℕ
  pub glyph_data_len : ℕ
  pub glyph_count : ℕ
  pub unicode : Option (ℕ → ℕ)
  pub unicode_len : ℕ

-- The pixels and the cursor.
pub record Frame : Type 0 where
  pub fb : ℕ → ℕ
  pub cursor_x : ℕ
  pub cursor_y : ℕ
  pub prev_cursor_x : ℕ
  pub prev_cursor_y : ℕ
  pub cursor_visible : Bool

abbrev pub fg : ℕ
fg = 0x00FFFFFF

abbrev pub bg : ℕ
bg = 0x0017002E

abbrev pub scale : ℕ
scale = 1

abbrev pub downscale : ℕ
downscale = 2

abbrev pub char_w : Geometry → ℕ
char_w g = g.glyph_w / downscale * scale

abbrev pub char_h : Geometry → ℕ
char_h g = g.glyph_h / downscale * scale

abbrev pub fb_width : Geometry → ℕ
fb_width g = g.pitch / 4

-- `for i in from..from + left`
pub each : ℕ → ℕ → (ℕ → (ℕ → ℕ) → Option (ℕ → ℕ)) → (ℕ → ℕ) → Option (ℕ → ℕ)
each zero from body fb = some fb
each (suc left) from body fb = bind (body from fb) (each left (from + 1) body)

-- `self.fb[i] = color`
pub set_pixel : Geometry → ℕ → ℕ → (ℕ → ℕ) → Option (ℕ → ℕ)
set_pixel g i color fb = if ltb i g.fb_len then some (update fb i color) else none

-- A pixel, if it is on the screen.
pub plot : Geometry → ℕ → ℕ → ℕ → (ℕ → ℕ) → Option (ℕ → ℕ)
plot g px py color fb =
    if ltb px g.width && ltb py g.height
    then set_pixel g (py * fb_width g + px) color fb
    else some fb

-- The loop of `glyph_index` over the font's table; `none` is also lack of fuel.
pub find_glyph : ℕ → ℕ → (ℕ → ℕ) → ℕ → ℕ → Option (Option ℕ)
find_glyph zero len table cp i = none
find_glyph (suc fuel) len table cp i =
    let next = find_glyph fuel len table cp (if table i == 0xFFFF then i + 2 else i + 1) in
    if ltb i (sub64 len 1)
    then if leb len i then none else if table i == cp then some (some (table (i + 1))) else next
    else some none

-- The default: the number of the character, as far as the font has glyphs.
abbrev pub default_index : Geometry → ℕ → Option ℕ
default_index g cp =
    if ltb cp g.glyph_count
    then some cp
    else if g.glyph_count == 0
    then none
    else some (cp % g.glyph_count)

-- The entry of the font's table for a character, or the default.
abbrev pub lookup : Geometry → ℕ → Option (ℕ → ℕ) → Option ℕ
lookup g c none = default_index g c
lookup g c (some table) =
    bind (find_glyph (g.unicode_len + 1) g.unicode_len table c 0)
      (λ found. elim found [ none ↦ default_index g c | some idx ↦ some idx ])

pub glyph_index : Geometry → ℕ → Option ℕ
glyph_index g c = lookup g c g.unicode

abbrev pub two_to : ℕ → ℕ
two_to zero = 1
two_to (suc n) = 2 * two_to n

-- The colour of the place `row`, `col` of a glyph whose bytes begin at `base`.
abbrev pub glyph_color : Geometry → ℕ → ℕ → ℕ → ℕ
glyph_color g base row col =
    let g_size = g.glyph_w * g.glyph_h / 8 in
    let src_col = col * downscale in
    let byte_idx = row * downscale * (g.glyph_w / 8) + src_col / 8 in
    let on =
      if ltb byte_idx g_size
      then g.glyph_data (base + byte_idx) / two_to (7 - src_col % 8) % 2
      else 0 in
    if on == 0 then bg else fg

pub draw_glyph : Geometry → ℕ → ℕ → ℕ → (ℕ → ℕ) → Option (ℕ → ℕ)
draw_glyph g glyph_idx x y fb =
    let g_size = g.glyph_w * g.glyph_h / 8 in
    let base = glyph_idx * g_size in
    if ltb g.glyph_data_len (base + g_size)
    then some fb
    else each (g.glyph_h / downscale) 0
        (λ row. each (g.glyph_w / downscale) 0 (λ col. each scale 0 (λ sy. each scale 0 (λ sx.
          plot g (x + col * scale + sx) (y + row * scale + sy) (glyph_color g base row col)))))
        fb

-- The two lowest rows of pixels of a character at `x`, `y`, from the row `y + char_h - 2` on.
pub underline : Geometry → ℕ → ℕ → ℕ → (ℕ → ℕ) → Option (ℕ → ℕ)
underline g x y color =
    let first = y + char_h g - 2 in
    each (y + char_h g - first) first (λ py. each (char_w g) x (λ px. plot g px py color))

pub draw_cursor : Geometry → Frame → Option Frame
draw_cursor g d =
    bind
      (if d.cursor_visible then underline g d.prev_cursor_x d.prev_cursor_y bg d.fb else some d.fb)
      (λ erased. bind (underline g d.cursor_x d.cursor_y fg erased) (λ fb. some (record d {
        fb = fb;
        prev_cursor_x = d.cursor_x;
        prev_cursor_y = d.cursor_y;
        cursor_visible = true;
      })))

-- `ptr::copy` of `len` pixels from `by` to the start; `none` is a range that leaves the slice, for
-- which the copy has no defined behaviour.
pub copy_down : Geometry → ℕ → ℕ → (ℕ → ℕ) → Option (ℕ → ℕ)
copy_down g by len fb =
    if leb (by + len) g.fb_len then some (λ j. if ltb j len then fb (by + j) else fb j) else none

-- `none` is also the division by a height of zero, and a screen of no row of characters, for which
-- `total_rows - 1` wraps.
pub scroll : Geometry → Frame → Option Frame
scroll g d =
    let h = char_h g in
    let total_rows = g.height / h in
    let from = (total_rows - 1) * h in
    if (h == 0) || (total_rows == 0)
    then none
    else bind (copy_down g (h * fb_width g) ((total_rows - 1) * (h * fb_width g)) d.fb) (λ moved.
      bind
        (each (g.height - from) from
          (λ y. each g.width 0 (λ x. set_pixel g (y * fb_width g + x) bg)) moved)
        (λ fb. some (record d { fb = fb; cursor_y = d.cursor_y - h })))

-- The next row of characters, with a scroll below the last one.
abbrev pub next_line : Geometry → Frame → Option Frame
next_line g d =
    let e : Frame = record d { cursor_x = 0; cursor_y = d.cursor_y + char_h g } in
    if ltb g.height (e.cursor_y + char_h g) then scroll g e else some e

abbrev pub back_x : Geometry → Frame → ℕ
back_x g d = if leb (char_w g) d.cursor_x then d.cursor_x - char_w g else d.cursor_x

-- The character of a code at the cursor.
pub put_glyph : Geometry → ℕ → Frame → Option Frame
put_glyph g c d =
    bind (glyph_index g c) (λ idx.
      bind (draw_glyph g idx d.cursor_x d.cursor_y d.fb) (λ fb. some (record d { fb = fb })))

-- The cursor to the right of the character it is at.
abbrev pub advance : Geometry → Frame → Option Frame
advance g d =
    if ltb g.width (d.cursor_x + char_w g + char_w g)
    then next_line g d
    else some (record d { cursor_x = d.cursor_x + char_w g })

abbrev pub erase_cursor : Geometry → Frame → Option Frame
erase_cursor g d =
    if d.cursor_visible
    then bind (underline g d.cursor_x d.cursor_y bg d.fb)
        (λ fb. some (record d { fb = fb; cursor_visible = false }))
    else some d

pub put_erased : Geometry → ℕ → Frame → Option Frame
put_erased g c d =
    if c == b'\r'
    then some (record d { cursor_x = 0 })
    else if c == b'\n'
    then next_line g d
    else if c == 0x08
    then put_glyph g b' ' (record d { cursor_x = back_x g d })
    else bind (put_glyph g c d) (advance g)

pub putchar : Geometry → ℕ → Frame → Option Frame
putchar g c d = bind (erase_cursor g d) (put_erased g c)

pub write : Geometry → List ℕ → Frame → Option Frame
write g [] d = some d
write g (c ∷ cs) d = bind (putchar g c d) (write g cs)

-- `set_cursor`, `reset_cursor`, `cols` and `rows`
abbrev pub set_cursor : Geometry → ℕ → ℕ → Frame → Frame
set_cursor g row col d = record d { cursor_x = col * char_w g; cursor_y = row * char_h g }

abbrev pub reset_cursor : Frame → Frame
reset_cursor d = record d { cursor_x = 0; cursor_y = 0 }

abbrev pub clear : Geometry → Frame → Frame
clear g d = record d { fb = λ j. if ltb j g.fb_len then bg else d.fb j; cursor_x = 0; cursor_y = 0 }
