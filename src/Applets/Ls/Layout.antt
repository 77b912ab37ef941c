-- ===== src/Applets/Ls/Layout.antt =====
-- What `ls` of src/applets/ls/mod.rs prints: the long format, the columns, and the whole applet.
pub mod Columns
use planck_os.Prelude.{
  bind, ℕ, zero, suc, ◌+◌, ◌-◌, ◌*◌, ◌/◌, ◌%◌, max, Bool, false, ◌||◌, Option, none, some, ◌==◌,
  ltb, leb, if◌then◌else◌, List, [], ◌∷◌, ◌++◌, length,
}
use planck_os.Prelude.{codes, replicate}
use planck_os.Fat.{ok, err, hang}
use planck_os.Applets.{FileSystem, Console, print}
use planck_os.Applets.Ls.{
  LsFlags, LsEntry, Listing, width, parse_ls_args, sort_entries, read_entries, name_end, shown_name,
}

-- The loop over `size_buf` with `left` as `size_pos`, and the blanks before the digits.
unfoldable pub size_digits : ℕ → ℕ → List ℕ → List ℕ
size_digits zero v buf = buf
size_digits (suc left) v buf =
    let here = (v % 10 + b'0') ∷ buf in
    let rest = size_digits left (v / 10) here in
    if (v / 10 == 0) || (left == 0) then replicate left b' ' ++ here else rest

-- `size_buf`: eight bytes, and the ninth, which stays NUL.
abbrev pub size_buf : ℕ → List ℕ
size_buf v = size_digits 8 v [] ++ (0 ∷ [])

abbrev pub columns : ℕ → ℕ
columns col_w = max (width / col_w) 1

module _ (utf8 : List ℕ → Bool) where
  abbrev pub long_line : LsEntry → List ℕ
  long_line e =
      (if e.is_dir then b'd' else b' ')
        ∷ b' '
        ∷ (if utf8 (size_buf e.size) then size_buf e.size else [])
      ++ (b' ' ∷ (if ltb 0 (name_end utf8 e) then shown_name utf8 e ++ (b'\n' ∷ []) else []))

  -- `for i in i..i + left`, of the sorted entries.
  pub long_lines : ℕ → ℕ → (ℕ → LsEntry) → List ℕ
  long_lines zero i sorted = []
  long_lines (suc left) i sorted = long_line (sorted i) ++ long_lines left (i + 1) sorted

  -- `end + extra`
  abbrev pub shown_width : LsEntry → ℕ
  shown_width e = name_end utf8 e + (if e.is_dir then 1 else 0)

  pub max_width : ℕ → ℕ → (ℕ → LsEntry) → ℕ → ℕ
  max_width zero i sorted max_w = max_w
  max_width (suc left) i sorted max_w =
      max_width left (i + 1) sorted
        (if ltb max_w (shown_width (sorted i)) then shown_width (sorted i) else max_w)

  abbrev pub col_width : ℕ → (ℕ → LsEntry) → ℕ
  col_width count sorted = max (max_width count 0 sorted 0 + 2) 4

  -- A name, a slash behind a directory's, and the blanks up to the next column.
  abbrev pub cell : ℕ → ℕ → ℕ → LsEntry → List ℕ
  cell cols col_w col e =
      (if ltb 0 (name_end utf8 e) then shown_name utf8 e else [])
      ++ ((if e.is_dir then b'/' ∷ [] else [])
          ++ (if ltb col (cols - 1) then replicate (col_w - shown_width e) b' ' else []))

  -- `for col in col..col + left`, up to the first place behind the last entry.
  pub print_cells : ℕ → ℕ → ℕ → ℕ → ℕ → ℕ → ℕ → (ℕ → LsEntry) → List ℕ
  print_cells zero col row rows cols col_w count sorted = []
  print_cells (suc left) col row rows cols col_w count sorted =
      let idx = col * rows + row in
      let rest = print_cells left (col + 1) row rows cols col_w count sorted in
      if leb count idx then [] else cell cols col_w col (sorted idx) ++ rest

  -- `for row in row..row + left`
  pub print_rows : ℕ → ℕ → ℕ → ℕ → ℕ → ℕ → (ℕ → LsEntry) → List ℕ
  print_rows zero row rows cols col_w count sorted = []
  print_rows (suc left) row rows cols col_w count sorted =
      print_cells cols 0 row rows cols col_w count sorted
      ++ (b'\n' ∷ print_rows left (row + 1) rows cols col_w count sorted)

  abbrev pub print_columns : ℕ → (ℕ → LsEntry) → List ℕ
  print_columns count sorted =
      let col_w = col_width count sorted in
      let cols = columns col_w in
      let rows = (count + cols - 1) / cols in print_rows rows 0 rows cols col_w count sorted

  -- What `list_dir` prints of the entries that it has read.
  pub print_entries : LsFlags → (ℕ → LsEntry) → ℕ → List ℕ
  print_entries flags entries count =
      let indices = sort_entries utf8 flags entries count in
      let sorted = λ (i : ℕ). entries (indices i) in
      if count == 0
      then []
      else if flags.long
      then long_lines count 0 sorted
      else print_columns count sorted

abbrev zeroed : ℕ → LsEntry
zeroed i = record { name = replicate 13 0; size = 0; is_dir = false }

-- `fuel` bounds the entries of a directory; `none` is lack of it, or an operation that does not
-- end.
module _ {S File Dir : Type 0} (fs : FileSystem S File Dir) (utf8 : List ℕ → Bool) (fuel : ℕ) where
  pub list_dir : LsFlags → Dir → Console S → Option (Console S)
  list_dir flags dir c =
      bind
        (read_entries fs utf8 fuel flags.all
          (record { at = (c.disk, dir); entries = zeroed; count = 0; out = c.out }))
        (λ l.
          some
            (record { disk = l.at.0; out = l.out ++ print_entries utf8 flags l.entries l.count }))

  abbrev pub list_path : LsFlags → List ℕ → Console S → Option (Console S)
  list_path flags path c = elim (fs.f_opendir path c.disk) [
    | ok dir disk ↦ list_dir flags dir (record c { disk = disk })
    | err e disk ↦
        some
          (print (codes "ls: cannot access '" ++ (path ++ codes "'\n")) (record c { disk = disk }))
    | hang ↦ none
  ]

  -- The loop over the paths; `many` is whether there is more than one.
  pub list_paths : Bool → LsFlags → List (List ℕ) → Console S → Option (Console S)
  list_paths many flags [] c = some c
  list_paths many flags (path ∷ paths) c =
      bind (list_path flags path (if many then print (path ++ codes ":\n") c else c))
        (λ d. list_paths many flags paths (if many then print (b'\n' ∷ []) d else d))

  pub run : List (List ℕ) → Console S → Option (Console S)
  run args c = elim (parse_ls_args args) [
    | none ↦ some (print (codes "ls: invalid option\n") c)
    | some (paths, flags) ↦ list_paths (ltb 1 (length paths)) flags paths c
  ]
