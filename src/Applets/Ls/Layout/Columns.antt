-- ===== src/Applets/Ls/Layout/Columns.antt =====
-- The width of the lines that `ls` of src/applets/ls/mod.rs prints in columns.
use planck_os.Prelude.{
  length-replicate, ℕ, zero, suc, ◌+◌, ◌-◌, ◌*◌, ◌/◌, ◌≤◌, ◌<◌, ◌≡◌, Bool, true, false, ◌==◌, ltb,
  leb, if◌then◌else◌, List, [], ◌∷◌, ◌++◌, length, arith, inl, inr, Bool-cases, ==→eq,
  length-append,
}
use planck_os.Prelude.{replicate, length-take}
use native.Mathlib.Nat.{div-mul-le_self, le-div_iff_mul-le}
use planck_os.Applets.{text_of, text_end}
use planck_os.Applets.Ls.{LsEntry, name_end, shown_name}
use planck_os.Applets.Ls.Layout.{shown_width, max_width, col_width, columns, cell, print_cells}

text_end-le : (xs : List ℕ) → text_end xs ≤ length xs
unfolding text_end
text_end-le [] = omega arith
text_end-le (c ∷ cs) = ground (arith, text_end-le cs)

length-name : (utf8 : List ℕ → Bool) (e : LsEntry) → length (shown_name utf8 e) ≡ name_end utf8 e
length-name utf8 e =
    omega (
      arith,
      length-take (name_end utf8 e) (text_of utf8 e.name),
      text_end-le (text_of utf8 e.name),
    )

if-length : (b : Bool) (xs : List ℕ) (n : ℕ) → length xs ≤ n → length (if b then xs else []) ≤ n
if-length true xs n h = h
if-length false xs n h = omega arith

slash-length : (b : Bool) → length {A = ℕ} (if b then b'/' ∷ [] else []) ≤ (if b then 1 else 0)
slash-length true = omega arith
slash-length false = omega arith

cell-length :
    (utf8 : List ℕ → Bool) (cols col_w col : ℕ) (e : LsEntry)
    → shown_width utf8 e ≤ col_w
    → length (cell utf8 cols col_w col e) ≤ col_w
cell-length utf8 cols col_w col e h =
    let w = shown_width utf8 e in
    let name = if ltb 0 (name_end utf8 e) then shown_name utf8 e else [] in
    let slash : List ℕ = if e.is_dir then b'/' ∷ [] else [] in
    let blanks : List ℕ = replicate (col_w - w) b' ' in
    let pad = if ltb col (cols - 1) then blanks else [] in
    let first : length name ≤ name_end utf8 e =
      if-length (ltb 0 (name_end utf8 e)) (shown_name utf8 e) (name_end utf8 e)
        (omega (arith, length-name utf8 e)) in
    let second : length slash ≤ (if e.is_dir then 1 else 0) = slash-length e.is_dir in
    let third : length pad ≤ col_w - w =
      if-length (ltb col (cols - 1)) blanks (col_w - w)
        (omega (arith, length-replicate {A = ℕ} (col_w - w) b' ')) in
    omega
      (arith, first, second, third, h, length-append name (slash ++ pad), length-append slash pad)

max_width-start :
    (utf8 : List ℕ → Bool) (left i m : ℕ) (sorted : ℕ → LsEntry)
    → m ≤ max_width utf8 left i sorted m
unfolding max_width
max_width-start utf8 zero i m sorted = omega arith
max_width-start utf8 (suc left) i m sorted =
    let w = shown_width utf8 (sorted i) in
    let m' = if ltb m w then w else m in
    let one : m ≤ m' = ground arith in
    omega (arith, one, max_width-start utf8 left (i + 1) m' sorted)

max_width-bound :
    (utf8 : List ℕ → Bool) (left i m b : ℕ) (sorted : ℕ → LsEntry)
    → m ≤ b
    → ((k : ℕ) → shown_width utf8 (sorted k) ≤ b)
    → max_width utf8 left i sorted m ≤ b
unfolding max_width
max_width-bound utf8 zero i m b sorted h w = h
max_width-bound utf8 (suc left) i m b sorted h w =
    max_width-bound utf8 left (i + 1)
      (if ltb m (shown_width utf8 (sorted i)) then shown_width utf8 (sorted i) else m) b sorted
      (ground (arith, w i)) w

max_width-least :
    (utf8 : List ℕ → Bool) (left i m k : ℕ) (sorted : ℕ → LsEntry)
    → i ≤ k
    → k < i + left
    → shown_width utf8 (sorted k) ≤ max_width utf8 left i sorted m
unfolding max_width
max_width-least utf8 zero i m k sorted h l = absurd (omega arith)
max_width-least utf8 (suc left) i m k sorted h l =
    let w = shown_width utf8 (sorted i) in
    let m' = if ltb m w then w else m in
    elim (Bool-cases (k == i)) [
      | inl e ↦
          let one : w ≤ m' = ground arith in
          let same : k ≡ i = ==→eq k i e in
          let least : w ≤ max_width utf8 left (i + 1) sorted m' =
            omega (arith, one, max_width-start utf8 left (i + 1) m' sorted) in
          rw same least
      | inr e ↦ max_width-least utf8 left (i + 1) m' k sorted (ground arith) (omega arith)
    ]

print_cells-length :
    (utf8 : List ℕ → Bool) (left col row rows cols col_w count : ℕ) (sorted : ℕ → LsEntry)
    → ((k : ℕ) → k < count → shown_width utf8 (sorted k) ≤ col_w)
    → length (print_cells utf8 left col row rows cols col_w count sorted) ≤ left * col_w
unfolding print_cells
print_cells-length utf8 zero col row rows cols col_w count sorted h = omega arith
print_cells-length utf8 (suc left) col row rows cols col_w count sorted h =
    let idx = col * rows + row in
    let here = cell utf8 cols col_w col (sorted idx) in
    let rest = print_cells utf8 left (col + 1) row rows cols col_w count sorted in
    let more = print_cells-length utf8 left (col + 1) row rows cols col_w count sorted h in
    elim (Bool-cases (leb count idx)) [
      | inl e ↦ rw e (omega arith)
      | inr e ↦
          let fits = cell-length utf8 cols col_w col (sorted idx) (h idx (ground arith)) in
          rw e (grind (arith, more, fits, length-append here rest))
    ]

text_of-length :
    (utf8 : List ℕ → Bool) (name : List ℕ) → length name ≤ 13 → length (text_of utf8 name) ≤ 13
text_of-length utf8 name h = elim (Bool-cases (utf8 name)) [
  | inl e ↦ rw e h
  | inr e ↦ rw e (omega arith)
]

dir-width : (b : Bool) → (if b then 1 else 0) ≤ 1
dir-width true = omega arith
dir-width false = omega arith

shown_width-le : (utf8 : List ℕ → Bool) (e : LsEntry) → length e.name ≤ 13 → shown_width utf8 e ≤ 14
shown_width-le utf8 e h =
    omega
      (arith, text_end-le (text_of utf8 e.name), text_of-length utf8 e.name h, dir-width e.is_dir)

columns-fit : (c : ℕ) → 4 ≤ c → c ≤ 16 → columns c * c ≤ 80
columns-fit c h k =
    let several : 1 ≤ 80 / c = (le-div_iff_mul-le (omega arith)).1 (omega arith) in
    let eq : columns c ≡ 80 / c = omega (arith, several) in rw eq (div-mul-le_self 80 c)

-- In the columns of `ls`, of entries whose names are those of arrays of 13 bytes, no row is longer
-- than the 80 columns of the screen, whatever the number of entries is.
pub print_cells-fits :
    (utf8 : List ℕ → Bool) (count row : ℕ) (sorted : ℕ → LsEntry)
    → ((k : ℕ) → length (sorted k).name ≤ 13)
    → length (
        print_cells utf8
          (columns (col_width utf8 count sorted))
          0
          row
          ((count + columns (col_width utf8 count sorted) - 1)
            / columns (col_width utf8 count sorted))
          (columns (col_width utf8 count sorted))
          (col_width utf8 count sorted)
          count
          sorted)
      ≤ 80
print_cells-fits utf8 count row sorted h =
    let col_w = col_width utf8 count sorted in
    let cols = columns col_w in
    let narrow : max_width utf8 count 0 sorted 0 ≤ 14 =
      max_width-bound utf8 count 0 0 14 sorted (omega arith)
        (λ k. shown_width-le utf8 (sorted k) (h k)) in
    let one =
      print_cells-length utf8 cols 0 row ((count + cols - 1) / cols) cols col_w count sorted (λ k l.
        omega (arith, max_width-least utf8 count 0 0 k sorted (omega arith) (omega arith))) in
    omega (arith, one, columns-fit col_w (omega arith) (omega (arith, narrow)))
