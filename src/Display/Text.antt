-- ===== src/Display/Text.antt =====
-- A text without control characters on the screen of src/hal/display.rs, within one row.
use planck_os.Prelude.{
  ℕ, zero, suc, ◌+◌, ◌-◌, ◌*◌, ◌≤◌, ◌<◌, ◌≡◌, ◌≢◌, ◌⊎◌, refl, ap, ap₂, ◌∙◌, true, false, ltb, leb,
  update, List, [], ◌∷◌, ◌++◌, length, get_or, arith, inl, inr, update_self, update_ne, ne→==,
}
use planck_os.Display.{Screen, entry, color, sync_cursor, putchar_impl, write_impl}
use planck_os.Display.Bounds.{IsScreen}
use planck_os.Shell.{backspaces}

abbrev pub screen : (ℕ → ℕ) → ℕ → ℕ → Screen
screen cells row col = record { cells = cells; row = row; col = col; cursor = row * 80 + col }

pub screen-eta : (d : Screen) → IsScreen d → d ≡ screen d.cells d.row d.col
screen-eta d h = ap (λ p. record d { cursor = p }) h.in_sync

sync_cursor-screen :
    (cells : ℕ → ℕ) (row col p : ℕ)
    → row < 25
    → col ≤ 80
    → sync_cursor (record { cells = cells; row = row; col = col; cursor = p })
      ≡ screen cells row col
sync_cursor-screen cells row col p r c =
    ap (λ q. record (screen cells row col) { cursor = q }) (omega arith)

-- A byte that is none of the three control characters.
abbrev pub IsPlain : ℕ → Type 0
IsPlain c = (c ≢ 0x08) × (c ≢ 0x0D) × (c ≢ b'\n')

-- A text without control characters.
abbrev pub Plain : List ℕ → Type 0
Plain [] = Unit
Plain (c ∷ cs) = IsPlain c × Plain cs

putchar-plain :
    (c : ℕ) (cells : ℕ → ℕ) (row col : ℕ)
    → IsPlain c
    → row < 25
    → col < 80
    → putchar_impl c (screen cells row col)
      ≡ screen (update cells (row * 80 + col) (entry c color)) row (col + 1)
unfolding putchar_impl
putchar-plain c cells row col (p, q, s) r k =
    let room : leb 80 col ≡ false = ground arith in
    rw (ne→== c 0x08 p, ne→== c 0x0D q, ne→== c 0x0A s, room)
      (sync_cursor-screen (update cells (row * 80 + col) (entry c color)) row (col + 1)
        (row * 80 + col) r (omega arith))

putchar-back :
    (cells : ℕ → ℕ) (row col : ℕ)
    → row < 25
    → col < 80
    → putchar_impl 0x08 (screen cells row (col + 1)) ≡ screen cells row col
unfolding putchar_impl
putchar-back cells row col r k =
    let some_ : ltb 0 (col + 1) ≡ true = ground arith in
    let one : col + 1 - 1 ≡ col = omega arith in
    rw (some_, one) (sync_cursor-screen cells row col (row * 80 + (col + 1)) r (omega arith))

pub putchar-start :
    (cells : ℕ → ℕ) (row col : ℕ)
    → row < 25
    → putchar_impl 0x0D (screen cells row col) ≡ screen cells row 0
unfolding putchar_impl
putchar-start cells row col r = sync_cursor-screen cells row 0 (row * 80 + col) r (omega arith)

pub write-append :
    (xs ys : List ℕ) (d : Screen) → write_impl (xs ++ ys) d ≡ write_impl ys (write_impl xs d)
unfolding write_impl
write-append [] ys d = refl
write-append (x ∷ xs) ys d = write-append xs ys (putchar_impl x d)

-- The cells from `at` on hold a text.
abbrev pub place : ℕ → List ℕ → (ℕ → ℕ) → (ℕ → ℕ)
place at [] cells = cells
place at (c ∷ cs) cells = place (at + 1) cs (update cells at (entry c color))

pub write-Plain :
    (cs : List ℕ) (cells : ℕ → ℕ) (row col : ℕ)
    → Plain cs
    → row < 25
    → col + length cs ≤ 80
    → write_impl cs (screen cells row col)
      ≡ screen (place (row * 80 + col) cs cells) row (col + length cs)
unfolding write_impl
write-Plain [] cells row col h r l = ap (screen cells row) (omega arith)
write-Plain (c ∷ cs) cells row col h r l =
    let next : row * 80 + (col + 1) ≡ row * 80 + col + 1 = omega arith in
    ap (write_impl cs) (putchar-plain c cells row col h.0 r (omega arith))
    ∙ write-Plain cs (update cells (row * 80 + col) (entry c color)) row (col + 1) h.1 r
        (omega arith)
    ∙ ap₂ (λ at n. screen (place at cs (update cells (row * 80 + col) (entry c color))) row n) next
        (omega arith)

pub write-back :
    (n : ℕ) (cells : ℕ → ℕ) (row col : ℕ)
    → row < 25
    → col + n ≤ 80
    → write_impl (backspaces n) (screen cells row (col + n)) ≡ screen cells row col
unfolding write_impl
write-back zero cells row col r l = ap (screen cells row) (omega arith)
write-back (suc n) cells row col r l =
    let one : col + suc n ≡ col + n + 1 = omega arith in
    ap (write_impl (backspaces n)) (
      ap (λ k. putchar_impl 0x08 (screen cells row k)) one
      ∙ putchar-back cells row (col + n) r (omega arith))
    ∙ write-back n cells row col r (omega arith)

pub place-out :
    (at : ℕ) (cs : List ℕ) (f : ℕ → ℕ) (j : ℕ)
    → (j < at) ⊎ (at + length cs ≤ j)
    → place at cs f j ≡ f j
place-out at [] f j h = refl
place-out at (c ∷ cs) f j h =
    place-out (at + 1) cs (update f at (entry c color)) j
      (elim h [ inl l ↦ inl (omega arith) | inr l ↦ inr (omega arith) ])
    ∙ update_ne f at j (entry c color) (elim h [ inl l ↦ omega arith | inr l ↦ omega arith ])

pub place-in :
    (at : ℕ) (cs : List ℕ) (f : ℕ → ℕ) (k : ℕ)
    → k < length cs
    → place at cs f (at + k) ≡ entry (get_or cs k 0) color
place-in at [] f k h = absurd (omega arith)
place-in at (c ∷ cs) f zero h =
    let here : at + 0 ≡ at = omega arith in
    ap (place (at + 1) cs (update f at (entry c color))) here
    ∙ place-out (at + 1) cs (update f at (entry c color)) at (inl (omega arith))
    ∙ update_self f at (entry c color)
place-in at (c ∷ cs) f (suc k) h =
    let next : at + suc k ≡ at + 1 + k = omega arith in
    ap (place (at + 1) cs (update f at (entry c color))) next
    ∙ place-in (at + 1) cs (update f at (entry c color)) k (omega arith)

-- A carriage return and a text that fits into the row.
pub write-line :
    (cs : List ℕ) (cells : ℕ → ℕ) (row col : ℕ)
    → Plain cs
    → row < 25
    → length cs ≤ 80
    → write_impl (0x0D ∷ cs) (screen cells row col)
      ≡ screen (place (row * 80) cs cells) row (length cs)
unfolding write_impl
write-line cs cells row col h r l =
    ap (write_impl cs) (putchar-start cells row col r)
    ∙ write-Plain cs cells row 0 h r (omega arith)
    ∙ ap₂ (λ at n. screen (place at cs cells) row n) (omega arith) (omega arith)
