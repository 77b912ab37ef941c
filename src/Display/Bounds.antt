-- ===== src/Display/Bounds.antt =====
-- Bounds of the text screen in src/hal/display.rs.
use planck_os.Prelude.{
  ℕ, zero, suc, ◌+◌, ◌-◌, ◌*◌, ◌≤◌, ◌<◌, ◌≡◌, refl, ◌∙◌, ◌==◌, ltb, leb, if◌then◌else◌, update,
  List, [], ◌∷◌, arith, inl, inr, Bool-cases, update_ne,
}
use planck_os.Display.{
  Screen, fill, raise, scroll_impl, next_row, sync_cursor, put_cell, putchar_impl, write_impl,
  blank, width,
}

-- The next character's row is on the screen, its column at most behind the last one, and the
-- hardware's cursor is there.
pub record IsScreen (d : Screen) : Type 0 where
  pub in_rows : d.row < 25
  pub in_cols : d.col ≤ 80
  pub in_sync : d.cursor ≡ d.row * 80 + d.col

pub sync_cursor-IsScreen : (d : Screen) → d.row < 25 → d.col ≤ 80 → IsScreen (sync_cursor d)
sync_cursor-IsScreen d r c = record { in_rows = r; in_cols = c; in_sync = omega arith }

-- The two memories agree from the cell 2000 on.
abbrev pub Agree : (ℕ → ℕ) → (ℕ → ℕ) → Type 0
Agree f g = (j : ℕ) → 2000 ≤ j → f j ≡ g j

fill-Agree : (n from c : ℕ) (f : ℕ → ℕ) → from + n ≤ 2000 → Agree (fill n from c f) f
unfolding fill
fill-Agree zero from c f h j l = refl
fill-Agree (suc n) from c f h j l =
    fill-Agree n (from + 1) c (update f from c) (omega arith) j l
    ∙ update_ne f from j c (omega arith)

raise-Agree : (n to : ℕ) (f : ℕ → ℕ) → to + n ≤ 2000 → Agree (raise n to f) f
unfolding raise
raise-Agree zero to f h j l = refl
raise-Agree (suc n) to f h j l =
    raise-Agree n (to + 1) (update f to (f (to + 80))) (omega arith) j l
    ∙ update_ne f to j (f (to + 80)) (omega arith)

pub scroll_impl-Agree : (d : Screen) → Agree (scroll_impl d).cells d.cells
unfolding scroll_impl
scroll_impl-Agree d j l =
    fill-Agree 80 1920 blank (raise 1920 0 d.cells) (omega arith) j l
    ∙ raise-Agree 1920 0 d.cells (omega arith) j l

-- What a character of any kind leaves: a screen within its bounds, with the memory behind it as it
-- was.
abbrev pub Keeps : Screen → Screen → Type 0
Keeps d e = IsScreen e × Agree e.cells d.cells

next_row-Keeps :
    (d : Screen)
    → d.row < 25
    → (next_row d).row < 25 × ((next_row d).col ≡ 0) × Agree (next_row d).cells d.cells
next_row-Keeps d r = elim (Bool-cases (leb 25 (d.row + 1))) [
  | inl e ↦ rw e (omega arith, refl, scroll_impl-Agree d)
  | inr e ↦ rw e (ground arith, refl, λ j l. refl)
]

put_cell-Keeps :
    (c : ℕ) (d e : Screen)
    → e.row < 25
    → e.col < 80
    → Agree e.cells d.cells
    → Keeps d (sync_cursor (put_cell c e))
put_cell-Keeps c d e r k a = (
  sync_cursor-IsScreen (put_cell c e) r (omega arith),
  λ j l. update_ne e.cells (e.row * 80 + e.col) j (95 * 256 + c) (omega arith) ∙ a j l,
)

written-Keeps :
    (c : ℕ) (d : Screen)
    → IsScreen d
    → Keeps d (sync_cursor (put_cell c (if leb width d.col then next_row d else d)))
written-Keeps c d h =
    let (r, k, a) = next_row-Keeps d h.in_rows in
    elim (Bool-cases (leb 80 d.col)) [
      | inl e ↦ rw e (put_cell-Keeps c d (next_row d) r (omega (arith, k)) a)
      | inr e ↦ rw e (put_cell-Keeps c d d h.in_rows (ground (arith, h.in_cols)) (λ j l. refl))
    ]

back-Keeps :
    (d : Screen)
    → IsScreen d
    → Keeps d (if ltb 0 d.col then sync_cursor (record d { col = d.col - 1 }) else d)
back-Keeps d h =
    let moved =
      sync_cursor-IsScreen (record d { col = d.col - 1 }) h.in_rows (omega (arith, h.in_cols)) in
    elim (Bool-cases (ltb 0 d.col)) [
      | inl e ↦ rw e (moved, λ j l. refl)
      | inr e ↦ rw e (h, λ j l. refl)
    ]

-- Every byte, control characters included, leaves the row below 25, the column at most 80 and the
-- hardware's cursor at the next character's place, and writes no cell behind the 2000 of the
-- screen.
pub putchar_impl-Keeps : (c : ℕ) (d : Screen) → IsScreen d → Keeps d (putchar_impl c d)
unfolding putchar_impl
putchar_impl-Keeps c d h =
    let (r, k, a) = next_row-Keeps d h.in_rows in
    let back = back-Keeps d h in
    let start = sync_cursor-IsScreen (record d { col = 0 }) h.in_rows (omega arith) in
    let below = sync_cursor-IsScreen (next_row d) r (omega (arith, k)) in
    let written = written-Keeps c d h in
    elim (Bool-cases (c == 0x08)) [
      | inl e ↦ rw e back
      | inr e ↦ elim (Bool-cases (c == 0x0D)) [
        | inl f ↦ rw (e, f) (start, λ j l. refl)
        | inr f ↦ elim (Bool-cases (c == b'\n')) [
          | inl g ↦ rw (e, f, g) (below, a)
          | inr g ↦ rw (e, f, g) written
        ]
      ]
    ]

-- On a screen whose next character's row is below 25, whose column is at most 80 and whose
-- hardware cursor is there, a text of any bytes and length keeps these bounds, with the hardware's
-- cursor at the next character's place, and writes no cell behind the 2000 of the screen.
pub write_impl-Keeps : (cs : List ℕ) (d : Screen) → IsScreen d → Keeps d (write_impl cs d)
unfolding write_impl
write_impl-Keeps [] d h = (h, λ j l. refl)
write_impl-Keeps (c ∷ cs) d h =
    let (s, a) = putchar_impl-Keeps c d h in
    let (t, b) = write_impl-Keeps cs (putchar_impl c d) s in (t, λ j l. b j l ∙ a j l)
