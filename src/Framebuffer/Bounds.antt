-- ===== src/Framebuffer/Bounds.antt =====
-- Bounds of the graphic screen in src/hal/framebuffer.rs.
use planck_os.Prelude.{
  bind, ℕ, zero, suc, ◌+◌, ◌-◌, ◌*◌, ◌/◌, ◌%◌, ◌≤◌, ◌<◌, ◌≡◌, refl, ap, ◌∙◌, Bool, true, false,
  Option, none, some, ◌==◌, ltb, leb, if◌then◌else◌, update, List, [], ◌∷◌, arith, inl, inr,
  Bool-cases, ltb→lt, lt→ltb, le_of_ltb, ne→==,
}
use planck_os.Prelude.{sub64, Option-cases}
use native.Mathlib.Nat.{mul-le-mul_right, suc-mul, div-mul-le_self, le-div_iff_mul-le}
use planck_os.Framebuffer.{
  Geometry, Frame, char_w, char_h, fb_width, each, set_pixel, plot, find_glyph, default_index,
  copy_down, lookup, glyph_index, draw_glyph, glyph_color, underline, scroll, next_line, back_x,
  put_glyph, advance, erase_cursor, put_erased, putchar, write, bg,
}

-- The rows of pixels are in the slice, a character fits onto the screen, and the font has glyphs
-- and, if it has a table, an entry in it.
pub record IsGeometry (g : Geometry) : Type 0 where
  pub rows_wide : g.width ≤ fb_width g
  pub pixels : g.height * fb_width g ≤ g.fb_len
  pub tall : 2 ≤ char_h g
  pub char_fits : char_h g ≤ g.height
  pub char_fits_width : char_w g ≤ g.width
  pub glyphs : 0 < g.glyph_count
  pub table : 0 < g.unicode_len
  pub table_small : g.unicode_len < 4294967296

-- A character fits at the cursor.
pub record IsFrame (g : Geometry) (d : Frame) : Type 0 where
  pub across : d.cursor_x + char_w g ≤ g.width
  pub down : d.cursor_y + char_h g ≤ g.height

abbrev pub Total : (ℕ → ℕ) → Option (ℕ → ℕ) → Type 0
Total fb o = (new : ℕ → ℕ) × (o ≡ some new)

bind-some : {A B : Type 0} {o : Option A} {a : A} (f : A → Option B) → o ≡ some a → bind o f ≡ f a
bind-some f e = ap (λ x. bind x f) e

-- A loop does not panic if its body never does.
each-Total :
    (left from : ℕ) (body : ℕ → (ℕ → ℕ) → Option (ℕ → ℕ)) (fb : ℕ → ℕ)
    → ((i : ℕ) (f : ℕ → ℕ) → from ≤ i → i < from + left → Total f (body i f))
    → Total fb (each left from body fb)
unfolding each
each-Total zero from body fb h = (fb, refl)
each-Total (suc left) from body fb h =
    let (new, e) = h from fb (omega arith) (omega arith) in
    let (last, f) =
      each-Total left (from + 1) body new (λ i k l m. h i k (omega arith) (omega arith)) in
    (last, bind-some (each left (from + 1) body) e ∙ f)

set_pixel-Total :
    (g : Geometry) (x y color : ℕ) (fb : ℕ → ℕ)
    → IsGeometry g
    → x < g.width
    → y < g.height
    → Total fb (set_pixel g (y * fb_width g + x) color fb)
unfolding set_pixel
set_pixel-Total g x y color fb w h k =
    let row : suc y * fb_width g ≤ g.height * fb_width g = mul-le-mul_right (fb_width g) k in
    let next : suc y * fb_width g ≡ y * fb_width g + fb_width g = suc-mul y (fb_width g) in
    let inside : y * fb_width g + x < g.fb_len = omega (arith, row, next, w.rows_wide, w.pixels) in
    (update fb (y * fb_width g + x) color, rw (lt→ltb (y * fb_width g + x) g.fb_len inside) refl)

plot-Total :
    (g : Geometry) (x y color : ℕ) (fb : ℕ → ℕ) → IsGeometry g → Total fb (plot g x y color fb)
unfolding plot
plot-Total g x y color fb w = elim (Bool-cases (ltb x g.width)) [
  | inl e ↦ elim (Bool-cases (ltb y g.height)) [
    | inl f ↦
        rw (e, f) (set_pixel-Total g x y color fb w (ltb→lt x g.width e) (ltb→lt y g.height f))
    | inr f ↦ rw (e, f) (fb, refl)
  ]
  | inr e ↦ rw e (fb, refl)
]

underline-Total :
    (g : Geometry) (x y color : ℕ) (fb : ℕ → ℕ) → IsGeometry g → Total fb (underline g x y color fb)
unfolding underline
underline-Total g x y color fb w =
    each-Total _ _ _ fb (λ py f l m. each-Total _ _ _ f (λ px k n o. plot-Total g px py color k w))

draw_glyph-Total :
    (g : Geometry) (idx x y : ℕ) (fb : ℕ → ℕ) → IsGeometry g → Total fb (draw_glyph g idx x y fb)
unfolding draw_glyph
draw_glyph-Total g idx x y fb w =
    let g_size = g.glyph_w * g.glyph_h / 8 in
    let drawn = each-Total (g.glyph_h / 2) 0 _ fb (λ row f l l1.
      each-Total (g.glyph_w / 2) 0 _ f (λ col k m m1. each-Total 1 0 _ k (λ sy n o o1.
        each-Total 1 0 _ n (λ sx p q q1.
          plot-Total g (x + col * 1 + sx) (y + row * 1 + sy) (glyph_color g (idx * g_size) row col)
            p w)))) in
    elim (Bool-cases (ltb g.glyph_data_len (idx * g_size + g_size))) [
      | inl e ↦ rw e (fb, refl)
      | inr e ↦ rw e drawn
    ]

-- A result within the bounds, if the screen was in them.
abbrev pub Fine : Geometry → Option Frame → Type 0
Fine g o = (e : Frame) × (o ≡ some e) × IsFrame g e

after :
    (g : Geometry) (o : Option Frame) (k : Frame → Option Frame)
    → Fine g o
    → ((e : Frame) → IsFrame g e → Fine g (k e))
    → Fine g (bind o k)
after g o k (e, same, w) h = let (f, last, v) = h e w in (f, bind-some k same ∙ last, v)

below_end : (from n i : ℕ) → from ≤ i → i < from + (n - from) → i < n
below_end from n i h k = omega arith

one_row : (g : Geometry) → IsGeometry g → 1 ≤ g.height / char_h g
one_row g w =
    let tall : 2 ≤ char_h g = w.tall in
    (le-div_iff_mul-le {k = char_h g} {x = 1} {y = g.height} (omega arith)).1
      (omega (arith, w.char_fits))

rows_of : (r h w : ℕ) → 1 ≤ r → h * w + (r - 1) * (h * w) ≡ r * h * w
rows_of zero h w l = absurd (omega arith)
rows_of (suc r) h w l = grind arith

-- The rows that the scroll copies are in the slice.
copy_down-some :
    (g : Geometry) (fb : ℕ → ℕ)
    → IsGeometry g
    → (moved : ℕ → ℕ) × (copy_down g
          (char_h g * fb_width g)
          ((g.height / char_h g - 1) * (char_h g * fb_width g))
          fb
        ≡ some moved)
unfolding copy_down
copy_down-some g fb w =
    let h = char_h g in
    let by = h * fb_width g in
    let len = (g.height / h - 1) * by in
    let rows : g.height / h * h ≤ g.height = div-mul-le_self g.height h in
    let all : g.height / h * h * fb_width g ≤ g.height * fb_width g =
      mul-le-mul_right (fb_width g) rows in
    let whole : by + len ≡ g.height / h * h * fb_width g =
      rows_of (g.height / h) h (fb_width g) (one_row g w) in
    let inside : by + len ≤ g.fb_len = omega (arith, all, whole, w.pixels) in
    (λ j. if ltb j len then fb (by + j) else fb j, ground (arith, inside))

scroll-ends :
    (g : Geometry) (d : Frame)
    → IsGeometry g
    → (fb : ℕ → ℕ) × (scroll g d ≡ some (record d { fb = fb; cursor_y = d.cursor_y - char_h g }))
unfolding scroll
scroll-ends g d w =
    let h = char_h g in
    let total_rows = g.height / h in
    let from = (total_rows - 1) * h in
    let (moved, copied) = copy_down-some g d.fb w in
    let tall : (h == 0) ≡ false = ne→== h 0 (omega (arith, w.tall)) in
    let row : (total_rows == 0) ≡ false = ne→== total_rows 0 (omega (arith, one_row g w)) in
    let (fb, e) =
      each-Total (g.height - from) from
        (λ y. each g.width 0 (λ x. set_pixel g (y * fb_width g + x) bg)) moved
        (λ y f l m.
          each-Total g.width 0 (λ x. set_pixel g (y * fb_width g + x) bg) f
            (λ x k n o.
              set_pixel-Total g x y bg k w (omega arith) (below_end from g.height y l m))) in
    (
      fb,
      rw (tall, row)
          (bind-some _ copied
            ∙ bind-some (λ f. some (record d { fb = f; cursor_y = d.cursor_y - h })) e),
    )

next_line-Fine : (g : Geometry) (d : Frame) → IsGeometry g → IsFrame g d → Fine g (next_line g d)
next_line-Fine g d w v =
    let e : Frame = record d { cursor_x = 0; cursor_y = d.cursor_y + char_h g } in
    let (fb, s) = scroll-ends g e w in
    elim (Bool-cases (ltb g.height (e.cursor_y + char_h g))) [
      | inl f ↦ (
        record e { fb = fb; cursor_y = e.cursor_y - char_h g },
        rw f s,
        record { across = omega (arith, w.char_fits_width); down = omega (arith, v.down) },
      )
      | inr f ↦ (
        e,
        rw f refl,
        record {
          across = omega (arith, w.char_fits_width);
          down = le_of_ltb g.height (e.cursor_y + char_h g) f;
        },
      )
    ]

default_index-some :
    (g : Geometry) (c : ℕ) → IsGeometry g → (idx : ℕ) × (default_index g c ≡ some idx)
default_index-some g c w =
    let some_glyph : (g.glyph_count == 0) ≡ false =
      ne→== g.glyph_count 0 (omega (arith, w.glyphs)) in
    elim (Bool-cases (ltb c g.glyph_count)) [
      | inl e ↦ (c, rw e refl)
      | inr e ↦ (c % g.glyph_count, rw (e, some_glyph) refl)
    ]

find_glyph-some :
    (fuel len : ℕ) (table : ℕ → ℕ) (cp i : ℕ)
    → 0 < fuel
    → len < fuel + i
    → 0 < len
    → len < 4294967296
    → (found : Option ℕ) × (find_glyph fuel len table cp i ≡ some found)
unfolding find_glyph
find_glyph-some zero len table cp i p f l m = absurd (omega arith)
find_glyph-some (suc fuel) len table cp i p f l m = elim (Bool-cases (ltb i (sub64 len 1))) [
  | inl e ↦
      let below = ltb→lt i (sub64 len 1) e in
      let inside : leb len i ≡ false = ground arith in
      let (one, a) = find_glyph-some fuel len table cp (i + 1) (omega arith) (omega arith) l m in
      let (two, b) = find_glyph-some fuel len table cp (i + 2) (omega arith) (omega arith) l m in
      elim (Bool-cases (table i == cp)) [
        | inl h ↦ (some (table (i + 1)), rw (e, inside, h) refl)
        | inr h ↦ elim (Bool-cases (table i == 0xFFFF)) [
          | inl k ↦ (two, rw (e, inside, h, k) b)
          | inr k ↦ (one, rw (e, inside, h, k) a)
        ]
      ]
  | inr e ↦ (none, rw e refl)
]

lookup-some :
    (g : Geometry) (c : ℕ) (o : Option (ℕ → ℕ))
    → IsGeometry g
    → (idx : ℕ) × (lookup g c o ≡ some idx)
lookup-some g c none w = default_index-some g c w
lookup-some g c (some table) w =
    let (found, e) =
      find_glyph-some (g.unicode_len + 1) g.unicode_len table c 0 (omega arith) (omega arith)
        w.table w.table_small in
    let (idx, f) = default_index-some g c w in
    elim (Option-cases found) [
      | inl h ↦ (idx, bind-some _ (e ∙ ap some h) ∙ f)
      | inr h ↦ (h.0, bind-some _ (e ∙ ap some h.1))
    ]

glyph_of : (g : Geometry) (c : ℕ) → IsGeometry g → (idx : ℕ) × (glyph_index g c ≡ some idx)
unfolding glyph_index
glyph_of g c w = lookup-some g c g.unicode w

put_glyph-Fine :
    (g : Geometry) (c : ℕ) (d : Frame) → IsGeometry g → IsFrame g d → Fine g (put_glyph g c d)
unfolding put_glyph
put_glyph-Fine g c d w v =
    let (idx, e) = glyph_of g c w in
    let (fb, f) = draw_glyph-Total g idx d.cursor_x d.cursor_y d.fb w in
    (
      record d { fb = fb },
      bind-some _ e ∙ bind-some _ f,
      record { across = v.across; down = v.down },
    )

advance-Fine : (g : Geometry) (d : Frame) → IsGeometry g → IsFrame g d → Fine g (advance g d)
advance-Fine g d w v =
    let line = next_line-Fine g d w v in
    elim (Bool-cases (ltb g.width (d.cursor_x + char_w g + char_w g))) [
      | inl e ↦ rw e line
      | inr e ↦ (
        record d { cursor_x = d.cursor_x + char_w g },
        rw e refl,
        record { across = le_of_ltb g.width (d.cursor_x + char_w g + char_w g) e; down = v.down },
      )
    ]

back_x-le : (g : Geometry) (d : Frame) → back_x g d ≤ d.cursor_x
back_x-le g d = elim (Bool-cases (leb (char_w g) d.cursor_x)) [
  | inl e ↦ rw e (omega arith)
  | inr e ↦ rw e (omega arith)
]

erased-Fine :
    (b : Bool) (g : Geometry) (d : Frame)
    → IsGeometry g
    → IsFrame g d
    → Fine g (
        if b
        then bind
            (underline g d.cursor_x d.cursor_y bg d.fb)
            (λ fb. some (record d { fb = fb; cursor_visible = false }))
        else some d)
erased-Fine true g d w v =
    let (fb, e) = underline-Total g d.cursor_x d.cursor_y bg d.fb w in
    (
      record d { fb = fb; cursor_visible = false },
      bind-some _ e,
      record { across = v.across; down = v.down },
    )
erased-Fine false g d w v = (d, refl, v)

erase_cursor-Fine :
    (g : Geometry) (d : Frame) → IsGeometry g → IsFrame g d → Fine g (erase_cursor g d)
erase_cursor-Fine g d w v = erased-Fine d.cursor_visible g d w v

put_erased-Fine :
    (g : Geometry) (c : ℕ) (d : Frame) → IsGeometry g → IsFrame g d → Fine g (put_erased g c d)
unfolding put_erased
put_erased-Fine g c d w v =
    let start : Fine g (some (record d { cursor_x = 0 })) = (
      record d { cursor_x = 0 },
      refl,
      record { across = omega (arith, w.char_fits_width); down = v.down },
    ) in
    let line = next_line-Fine g d w v in
    let back =
      put_glyph-Fine g 32 (record d { cursor_x = back_x g d }) w
        (record { across = omega (arith, v.across, back_x-le g d); down = v.down }) in
    let shown =
      after g (put_glyph g c d) (advance g) (put_glyph-Fine g c d w v)
        (λ e x. advance-Fine g e w x) in
    elim (Bool-cases (c == b'\r')) [
      | inl e ↦ rw e start
      | inr e ↦ elim (Bool-cases (c == b'\n')) [
        | inl f ↦ rw (e, f) line
        | inr f ↦ elim (Bool-cases (c == 0x08)) [
          | inl k ↦ rw (e, f, k) back
          | inr k ↦ rw (e, f, k) shown
        ]
      ]
    ]

-- On a screen whose rows of pixels are in the slice and on which a character fits, at least two
-- pixels high, with a font that has a glyph and an entry in its table: from a cursor where a whole
-- character fits, a text of any bytes is written without a pixel out of the slice, also in the
-- copy of a scroll, and without another panic, and the cursor is again where a whole character fits.
pub write-Fine :
    (g : Geometry) (cs : List ℕ) (d : Frame) → IsGeometry g → IsFrame g d → Fine g (write g cs d)
unfolding write putchar
write-Fine g [] d w v = (d, refl, v)
write-Fine g (c ∷ cs) d w v =
    after g (putchar g c d) (write g cs)
      (after g (erase_cursor g d) (put_erased g c) (erase_cursor-Fine g d w v)
        (λ e x. put_erased-Fine g c e w x))
      (λ e x. write-Fine g cs e w x)
