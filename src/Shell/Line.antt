-- ===== src/Shell/Line.antt =====
-- Editing the line in src/shell/mod.rs, against a line with a cursor between two lists.
use planck_os.Prelude.{
  slice, slice-cong, length-slice, ℕ, zero, suc, ◌+◌, ◌-◌, ◌≤◌, ◌<◌, ◌≡◌, ◌≢◌, refl, ap, ap₂, ◌∙◌,
  true, ◌&&◌, ◌||◌, ◌==◌, ltb, leb, if◌then◌else◌, update, List, [], ◌∷◌, length, arith, inl, inr,
  Bool-cases, update_self, update_ne, lt→ltb, ltb_of_le, ne→==,
}
use native.Mathlib.Numerals.{add-one}
use planck_os.Shell.{
  left_arrow, right_arrow, Shell, shift_left, shift_right, backspace, type_char, is_printable,
  press,
}

-- A line: the characters before the cursor, the nearest first, and those after it.
pub record Zipper : Type 0 where
  pub left : List ℕ
  pub right : List ℕ

abbrev pub zipper : List ℕ → List ℕ → Zipper
zipper l r = record { left = l; right = r }

-- The characters below `n`, the last first.
abbrev pub before : (ℕ → ℕ) → ℕ → List ℕ
before buf zero = []
before buf (suc n) = buf n ∷ before buf n

abbrev pub line : Shell → Zipper
line s = zipper (before s.buf s.cursor_pos) (slice s.buf s.cursor_pos (s.len - s.cursor_pos))

abbrev pub IsLine : Shell → Type 0
IsLine s = s.cursor_pos ≤ s.len

abbrev pub erased : List ℕ → List ℕ → Zipper
erased [] r = zipper [] r
erased (x ∷ l) r = zipper l r

abbrev pub moved_left : List ℕ → List ℕ → Zipper
moved_left [] r = zipper [] r
moved_left (x ∷ l) r = zipper l (x ∷ r)

abbrev pub moved_right : List ℕ → List ℕ → Zipper
moved_right l [] = zipper l []
moved_right l (x ∷ r) = zipper (x ∷ l) r

-- What a key does to a line of a display that is `cols` wide.
abbrev pub edit : ℕ → ℕ → Zipper → Zipper
edit cols c z =
    if (c == 0x08) || (c == 0x7F)
    then erased z.left z.right
    else if c == 0x03
    then moved_left z.left z.right
    else if c == 0x04
    then moved_right z.left z.right
    else if is_printable c && ltb (length z.left + length z.right) (cols - 2)
    then zipper (c ∷ z.left) z.right
    else z

pub shift_right-at :
    {A : Type 0} (n from : ℕ) (buf : ℕ → A) (j : ℕ)
    → shift_right n from buf j ≡ (if ltb from j && leb j (from + n) then buf (j - 1) else buf j)
unfolding shift_right
shift_right-at zero from buf j = ground arith
shift_right-at (suc n) from buf j =
    ground (arith, shift_right-at n from (update buf (from + n + 1) (buf (from + n))) j)

shift_left-at :
    (n from : ℕ) (buf : ℕ → ℕ) (j : ℕ)
    → 0 < from
    → shift_left n from buf j
      ≡ (if leb from (j + 1) && ltb (j + 1) (from + n) then buf (j + 1) else buf j)
unfolding shift_left
shift_left-at zero from buf j h = ground arith
shift_left-at (suc n) from buf j h =
    ground (arith, shift_left-at n (from + 1) (update buf (from - 1) (buf from)) j)

before-cong : (f g : ℕ → ℕ) (n : ℕ) → ((j : ℕ) → j < n → f j ≡ g j) → before f n ≡ before g n
before-cong f g zero h = refl
before-cong f g (suc n) h =
    ap₂ (λ x xs. x ∷ xs) (h n (omega arith)) (before-cong f g n (λ j l. h j (omega arith)))

length-before : (f : ℕ → ℕ) (n : ℕ) → length (before f n) ≡ n
length-before f zero = refl
length-before f (suc n) = ap suc (length-before f n)

-- Backspace drops the character before the cursor.
backspace-at :
    (cols : ℕ) (s : Shell) (p : ℕ)
    → p ≤ s.len
    → line (backspace cols (record s { cursor_pos = p })).0
      ≡ erased (before s.buf p) (slice s.buf p (s.len - p))
backspace-at cols s zero h = refl
backspace-at cols s (suc p) h =
    let n = s.len - suc p in
    let buf = shift_left n (suc p) s.buf in
    let one : suc p - 1 ≡ p = omega arith in
    let rest : s.len - 1 - p ≡ n = omega arith in
    rw (lt→ltb 0 s.len (omega arith), lt→ltb 0 (suc p) (omega arith))
      (ap₂ zipper
        (ap (before buf) one
          ∙ before-cong buf s.buf p
              (λ j l. shift_left-at n (suc p) s.buf j (omega arith) ∙ ground arith))
        (ap (λ m. slice buf m (s.len - 1 - m)) one
          ∙ ap (slice buf p) rest
          ∙ slice-cong buf s.buf p (suc p) n
              (λ j l. shift_left-at n (suc p) s.buf (p + j) (omega arith) ∙ ground arith)))

-- A character goes before the cursor if the line has room.
type_char-at :
    (cols c : ℕ) (s : Shell) (p : ℕ)
    → p ≤ s.len
    → ltb s.len (cols - 2) ≡ true
    → line (type_char cols c (record s { cursor_pos = p })).0
      ≡ zipper (c ∷ before s.buf p) (slice s.buf p (s.len - p))
type_char-at cols c s p h room =
    let n = s.len - p in
    let buf = update (shift_right n p s.buf) p c in
    let one : p + 1 ≡ suc p = omega arith in
    let rest : s.len + 1 - suc p ≡ n = omega arith in
    rw room (
      ap₂ zipper
        (ap (before buf) one
          ∙ ap₂ (λ x xs. x ∷ xs) (update_self (shift_right n p s.buf) p c)
              (before-cong buf s.buf p (λ j l.
                update_ne (shift_right n p s.buf) p j c (omega arith)
                ∙ shift_right-at n p s.buf j
                ∙ ground arith)))
        (ap (λ m. slice buf m (s.len + 1 - m)) one
          ∙ ap (slice buf (suc p)) rest
          ∙ slice-cong buf s.buf (suc p) p n (λ j l.
            update_ne (shift_right n p s.buf) p (suc p + j) c (omega arith)
            ∙ shift_right-at n p s.buf (suc p + j)
            ∙ ground arith)))

line-length : (s : Shell) → IsLine s → length (line s).left + length (line s).right ≡ s.len
line-length s h = omega (
  arith,
  length-before s.buf s.cursor_pos,
  length-slice s.buf s.cursor_pos (s.len - s.cursor_pos),
)

-- Left: the character before the cursor comes after it.
left_arrow-at :
    (s : Shell) (p : ℕ)
    → p ≤ s.len
    → line (left_arrow (record s { cursor_pos = p })).0
      ≡ moved_left (before s.buf p) (slice s.buf p (s.len - p))
left_arrow-at s zero h = refl
left_arrow-at s (suc p) h =
    let one : suc p - 1 ≡ p = omega arith in
    let rest : s.len - p ≡ suc (s.len - suc p) = omega arith in
    rw (lt→ltb 0 (suc p) (omega arith)) (
      ap₂ zipper (ap (before s.buf) one) (
        ap (λ m. slice s.buf m (s.len - m)) one
        ∙ ap (slice s.buf p) rest
        ∙ ap (λ m. s.buf p ∷ slice s.buf m (s.len - suc p)) (add-one p)))

-- Right: the character after the cursor comes before it.
right_arrow-at :
    (s : Shell) (n : ℕ)
    → s.len - s.cursor_pos ≡ n
    → line (right_arrow s).0 ≡ moved_right (before s.buf s.cursor_pos) (slice s.buf s.cursor_pos n)
right_arrow-at s zero h = rw (ltb_of_le s.cursor_pos s.len (omega arith), h) refl
right_arrow-at s (suc n) h =
    let rest : s.len - (s.cursor_pos + 1) ≡ n = omega arith in
    rw (lt→ltb s.cursor_pos s.len (omega arith)) (
      ap₂ zipper (ap (before s.buf) (add-one s.cursor_pos))
        (ap (slice s.buf (s.cursor_pos + 1)) rest))

typed :
    (cols c : ℕ) (s : Shell)
    → IsLine s
    → line (if is_printable c then type_char cols c s else (s, [])).0 ≡ (
        if is_printable c && ltb s.len (cols - 2)
        then zipper (c ∷ (line s).left) (line s).right
        else line s)
typed cols c s h = elim (Bool-cases (is_printable c)) [
  | inr e ↦ rw e refl
  | inl e ↦ elim (Bool-cases (ltb s.len (cols - 2))) [
    | inl f ↦ rw (e, type_char-at cols c s s.cursor_pos h f, f) refl
    | inr f ↦ rw (e, f) refl
  ]
]

-- On a line whose cursor is not past its end, a key other than Enter and the two for the history
-- does to the buffer what it does to a line with a cursor between two lists.
pub press-edit :
    (cols c : ℕ) (s : Shell)
    → IsLine s
    → c ≢ 0x01
    → c ≢ 0x02
    → line (press cols c s).0 ≡ edit cols c (line s)
unfolding press
press-edit cols c s h up down = elim (Bool-cases ((c == 0x08) || (c == 0x7F))) [
  | inl e ↦ rw e (backspace-at cols s s.cursor_pos h)
  | inr e ↦ elim (Bool-cases (c == 0x03)) [
    | inl f ↦ rw (e, f) (left_arrow-at s s.cursor_pos h)
    | inr f ↦ elim (Bool-cases (c == 0x04)) [
      | inl g ↦ rw (e, f, g) (right_arrow-at s (s.len - s.cursor_pos) refl)
      | inr g ↦ rw (e, f, g, ne→== c 0x01 up, ne→== c 0x02 down, line-length s h) (typed cols c s h)
    ]
  ]
]
