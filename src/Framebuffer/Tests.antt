-- ===== src/Framebuffer/Tests.antt =====
-- The theorem of src/hal/framebuffer.rs at a screen of one character.
use planck_os.Prelude.{true, some, [], ◌∷◌, arith}
use planck_os.Framebuffer.{Geometry, Frame, write}
use planck_os.Framebuffer.Bounds.{Fine, write-Fine}

-- 8 by 8 pixels, and a font whose glyphs are 16 by 16.
abbrev small : Geometry
small = record {
  fb_len = 64;
  width = 8;
  height = 8;
  pitch = 32;
  glyph_w = 16;
  glyph_h = 16;
  glyph_data = λ j. j;
  glyph_data_len = 256;
  glyph_count = 8;
  unicode = some (λ j. 0xFFFF);
  unicode_len = 10;
}

abbrev start : Frame
start = record {
  fb = λ j. 0;
  cursor_x = 0;
  cursor_y = 0;
  prev_cursor_x = 0;
  prev_cursor_y = 0;
  cursor_visible = true;
}

write-Fine_example : Fine small (write small (b'a' ∷ b'\n' ∷ b'b' ∷ []) start)
write-Fine_example =
    write-Fine small (b'a' ∷ b'\n' ∷ b'b' ∷ []) start
      (record {
        rows_wide = omega arith;
        pixels = omega arith;
        tall = omega arith;
        char_fits = omega arith;
        char_fits_width = omega arith;
        glyphs = omega arith;
        table = omega arith;
        table_small = omega arith;
      })
      (record { across = omega arith; down = omega arith })
