-- ===== src/Shell/Redraw.antt =====
-- How the line of src/shell/mod.rs comes onto the screen of src/hal/display.rs.
use planck_os.Prelude.{
  slice, length-slice, ℕ, zero, suc, ◌+◌, ◌-◌, ◌*◌, ◌≤◌, ◌<◌, ◌≡◌, ◌⊎◌, refl, sym, ap, ◌∙◌, List,
  [], ◌∷◌, ◌++◌, length, get_or, arith, inl, inr,
}
use planck_os.Display.{Screen, entry, color, write_impl}
use planck_os.Display.Bounds.{IsScreen}
use planck_os.Display.Text.{
  screen, screen-eta, write-append, write-line, write-back, place, place-out, place-in, IsPlain,
  Plain,
}
use planck_os.Shell.{redraw_input, spaces, backspaces, prompt}

Plain-append : (xs ys : List ℕ) → Plain xs → Plain ys → Plain (xs ++ ys)
Plain-append [] ys h k = k
Plain-append (x ∷ xs) ys (p, h) k = (p, Plain-append xs ys h k)

Plain-spaces : (n : ℕ) → Plain (spaces n)
Plain-spaces zero = tt
Plain-spaces (suc n) = ((λ e. omega arith, λ e. omega arith, λ e. omega arith), Plain-spaces n)

Plain-prompt : Plain prompt
Plain-prompt = ((λ e. omega arith, λ e. omega arith, λ e. omega arith), Plain-spaces 1)

Plain-slice :
    (buf : ℕ → ℕ) (i n : ℕ)
    → ((k : ℕ) → i ≤ k → k < i + n → IsPlain (buf k))
    → Plain (slice buf i n)
Plain-slice buf i zero h = tt
Plain-slice buf i (suc n) h = (
  h i (omega arith) (omega arith),
  Plain-slice buf (i + 1) n (λ k l m. h k (omega arith) (omega arith)),
)

get-slice : (buf : ℕ → ℕ) (i n k : ℕ) → k < n → get_or (slice buf i n) k 0 ≡ buf (i + k)
get-slice buf i zero k h = absurd (omega arith)
get-slice buf i (suc n) zero h = ap buf (omega arith)
get-slice buf i (suc n) (suc k) h =
    let next : i + 1 + k ≡ i + suc k = omega arith in
    get-slice buf (i + 1) n k (omega arith) ∙ ap buf next

get-spaces : (n k : ℕ) → k < n → get_or (spaces n) k 0 ≡ b' '
get-spaces zero k h = absurd (omega arith)
get-spaces (suc n) zero h = refl
get-spaces (suc n) (suc k) h = get-spaces n k (omega arith)

length-spaces : (n : ℕ) → length (spaces n) ≡ n
length-spaces zero = refl
length-spaces (suc n) = ap suc (length-spaces n)

-- The cells after the two texts of `redraw_input`.
redrawn_cells : (ℕ → ℕ) → ℕ → ℕ → (ℕ → ℕ) → (ℕ → ℕ)
redrawn_cells buf len at cells =
    place at (prompt ++ slice buf 0 len) (place at (prompt ++ spaces 77) cells)

redraw_input-screen :
    (buf : ℕ → ℕ) (len cursor_pos : ℕ) (cells : ℕ → ℕ) (row col : ℕ)
    → cursor_pos ≤ len
    → len ≤ 78
    → row < 25
    → Plain (slice buf 0 len)
    → write_impl (redraw_input 80 buf len cursor_pos) (screen cells row col)
      ≡ screen (redrawn_cells buf len (row * 80) cells) row (2 + cursor_pos)
unfolding redraw_input redrawn_cells
redraw_input-screen buf len cursor_pos cells row col p l r h =
    let clear = prompt ++ spaces 77 in
    let text = prompt ++ slice buf 0 len in
    let back = backspaces (len - cursor_pos) in
    let cells₁ = place (row * 80) clear cells in
    let cells₂ = place (row * 80) text cells₁ in
    let end : length text ≡ 2 + cursor_pos + (len - cursor_pos) =
      omega (arith, length-slice buf 0 len) in
    let rest = (0x0D ∷ text) ++ back in
    write-append (0x0D ∷ clear) rest (screen cells row col)
    ∙ ap (write_impl rest) (
        write-line clear cells row col
          (Plain-append prompt (spaces 77) Plain-prompt (Plain-spaces 77)) r (omega arith))
    ∙ write-append (0x0D ∷ text) back (screen cells₁ row 79)
    ∙ ap (write_impl back) (
        write-line text cells₁ row 79 (Plain-append prompt (slice buf 0 len) Plain-prompt h) r
          (omega (arith, length-slice buf 0 len))
        ∙ ap (screen cells₂ row) end)
    ∙ write-back (len - cursor_pos) cells₂ row (2 + cursor_pos) r (omega arith)

-- What the row shows after the two texts.
redrawn_cells-at :
    (buf : ℕ → ℕ) (len at : ℕ) (cells : ℕ → ℕ)
    → len ≤ 78
    → let f = redrawn_cells buf len at cells in
      (f at ≡ entry b'$' 0x5F)
      × (f (at + 1) ≡ entry b' ' 0x5F)
      × ((k : ℕ) → k < len → f (at + suc (suc k)) ≡ entry (buf k) 0x5F)
      × ((k : ℕ) → len ≤ k → k < 77 → f (at + suc (suc k)) ≡ entry b' ' 0x5F)
      × ((j : ℕ) → (j < at) ⊎ ((at + 2 + len ≤ j) × (at + 79 ≤ j)) → f j ≡ cells j)
unfolding redrawn_cells
redrawn_cells-at buf len at cells l =
    let clear = prompt ++ spaces 77 in
    let text = prompt ++ slice buf 0 len in
    let cells₁ = place at clear cells in
    let size = length-slice buf 0 len in
    let zero_ : at + 0 ≡ at = omega arith in
    (
      ap (place at text cells₁) (sym zero_) ∙ place-in at text cells₁ 0 (omega arith),
      place-in at text cells₁ 1 (omega arith),
      λ k h.
          place-in at text cells₁ (suc (suc k)) (omega (arith, size))
          ∙ ap (λ c. entry c color) (get-slice buf 0 len k h ∙ ap buf (omega arith)),
      λ k h m.
          place-out at text cells₁ (at + suc (suc k)) (inr (omega (arith, size)))
          ∙ place-in at clear cells (suc (suc k)) (omega arith)
          ∙ ap (λ c. entry c color) (get-spaces 77 k m),
      λ j h.
          place-out at text cells₁ j
            (elim h [ inl m ↦ inl m | inr m ↦ inr (omega (arith, size, m.0)) ])
          ∙ place-out at clear cells j
              (elim h [ inl m ↦ inl m | inr m ↦ inr (omega (arith, m.1)) ]),
    )

-- On a screen within its bounds, after `redraw_input` for a line of at most 78 characters, none of
-- them a control character, with the cursor not past its end: the screen has not scrolled, the
-- cursor is in its row at the character of the line it is on, and the row shows the prompt, the
-- line, and blanks up to column 78. Column 79 keeps what it showed unless the line is 78 long, and
-- no other row changes.
pub redraw_input-shows :
    (buf : ℕ → ℕ) (len cursor_pos : ℕ) (d : Screen)
    → IsScreen d
    → cursor_pos ≤ len
    → len ≤ 78
    → ((k : ℕ) → k < len → IsPlain (buf k))
    → let e = write_impl (redraw_input 80 buf len cursor_pos) d in
      (e.row ≡ d.row)
      × (e.col ≡ 2 + cursor_pos)
      × (e.cursor ≡ d.row * 80 + (2 + cursor_pos))
      × (e.cells (d.row * 80) ≡ entry b'$' 0x5F)
      × (e.cells (d.row * 80 + 1) ≡ entry b' ' 0x5F)
      × ((k : ℕ) → k < len → e.cells (d.row * 80 + suc (suc k)) ≡ entry (buf k) 0x5F)
      × ((k : ℕ) → len ≤ k → k < 77 → e.cells (d.row * 80 + suc (suc k)) ≡ entry b' ' 0x5F)
      × ((j : ℕ)
          → (j < d.row * 80) ⊎ ((d.row * 80 + 2 + len ≤ j) × (d.row * 80 + 79 ≤ j))
          → e.cells j ≡ d.cells j)
redraw_input-shows buf len cursor_pos d h p l plain =
    let after =
      ap (write_impl (redraw_input 80 buf len cursor_pos)) (screen-eta d h)
      ∙ redraw_input-screen buf len cursor_pos d.cells d.row d.col p l h.in_rows
          (Plain-slice buf 0 len (λ k m n. plain k (omega arith))) in
    let shown = redrawn_cells-at buf len (d.row * 80) d.cells l in
    (
      ap (λ e. e.row) after,
      ap (λ e. e.col) after,
      ap (λ e. e.cursor) after,
      ap (λ e. e.cells (d.row * 80)) after ∙ shown.0,
      ap (λ e. e.cells (d.row * 80 + 1)) after ∙ shown.1,
      λ k m. ap (λ e. e.cells (d.row * 80 + suc (suc k))) after ∙ shown.2 k m,
      λ k m n. ap (λ e. e.cells (d.row * 80 + suc (suc k))) after ∙ shown.3 k m n,
      λ j m. ap (λ e. e.cells j) after ∙ shown.4 j m,
    )
