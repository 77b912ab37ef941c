-- ===== src/Applets/Out.antt =====
-- The applet `out` of src/applets/out/mod.rs, which prints a file as text or as a dump. `parse` is
-- the library's `parse().unwrap_or(0)` of a number. `none` is lack of fuel, or an operation that
-- does not end.
pub mod Rows
use planck_os.Prelude.{
  bind, ℕ, zero, suc, ◌+◌, ◌-◌, ◌/◌, ◌%◌, ◌^◌, min, Bool, false, ◌&&◌, ◌||◌, Option, none, some,
  ◌==◌, ltb, leb, if◌then◌else◌, List, [], ◌∷◌, ◌++◌, length, get_or, take, drop,
}
use planck_os.Prelude.{◌^◌, codes, map}
use planck_os.Fat.{Run, ok, err, hang}
use planck_os.Fat.Transfer.{fa_read}
use planck_os.Serial.{hex_digit, debug_nibbles}
use planck_os.Applets.{is_option, is_dir, FileSystem, Console, print, text_of, or_else}

abbrev pub buf_size : ℕ
buf_size = 512

abbrev pub hex_cols : ℕ
hex_cols = 16

-- The loop over the arguments: the path and the limit, or `none` for an invalid option. An option
-- `-n` takes the next argument, if there is one.
pub read_args : (List ℕ → ℕ) → List (List ℕ) → List ℕ → ℕ → Option (List ℕ × ℕ)
read_args parse [] path limit = some (path, limit)
read_args parse (arg ∷ []) path limit =
    if is_option arg
    then (if get_or arg 1 0 == b'n' then some (path, limit) else none)
    else some (arg, limit)
read_args parse (arg ∷ value ∷ args) path limit =
    let limited = read_args parse args path (parse value) in
    let named = read_args parse (value ∷ args) arg limit in
    if is_option arg then (if get_or arg 1 0 == b'n' then limited else none) else named

abbrev pub parse_args : (List ℕ → ℕ) → List (List ℕ) → Option (List ℕ × ℕ)
parse_args parse args = read_args parse args [] 0

-- `for j in row_start..end`: two digits and a blank for each byte.
pub hex_bytes : List ℕ → List ℕ
hex_bytes [] = []
hex_bytes (b ∷ bs) = hex_digit b'A' (b / 16) ∷ hex_digit b'A' (b % 16) ∷ b' ' ∷ hex_bytes bs

-- `for _ in end..row_start + HEX_COLS`
pub padding : ℕ → List ℕ
padding zero = []
padding (suc n) = b' ' ∷ b' ' ∷ b' ' ∷ padding n

abbrev pub shown : ℕ → ℕ
shown c = if leb 0x20 c && ltb c 0x7F then c else b'.'

-- One row: `o` is the offset of its first byte.
pub dump_row : ℕ → List ℕ → List ℕ
dump_row o bytes =
    debug_nibbles 8 o
    ++ (b' '
        ∷ b' '
        ∷ (hex_bytes bytes
            ++ (padding (hex_cols - length bytes)
                ++ (b' ' ∷ b'|' ∷ (map shown bytes ++ (b'|' ∷ b'\n' ∷ []))))))

-- `for row_start in (0..read).step_by(HEX_COLS)`; each round takes some of the bytes.
pub dump_rows : ℕ → ℕ → List ℕ → List ℕ
dump_rows zero o bytes = []
dump_rows (suc left) o bytes =
    let rest = dump_rows left ((o + hex_cols) % 2 ^ 32) (drop hex_cols bytes) in
    if length bytes == 0 then [] else dump_row o (take hex_cols bytes) ++ rest

-- The disk and the file of a loop, and what it has printed.
pub record Reading (S File : Type 0) : Type 0 where
  pub at : S × File
  pub out : List ℕ

module _ {S File Dir : Type 0} (fs : FileSystem S File Dir) (utf8 : List ℕ → Bool) where
  -- The bytes that are read, none where the read fails.
  pub read_block : ℕ → S × File → Option (List ℕ × (S × File))
  read_block len at =
      or_else (fs.f_read len at) (λ bytes at'. some (bytes, at')) (λ e at'. some ([], at'))

  -- `while offset < remain`
  pub hex_loop : ℕ → ℕ → ℕ → Reading S File → Option (Reading S File)
  hex_loop zero remain offset r = none
  hex_loop (suc fuel) remain offset r =
      let round = bind (read_block (min buf_size (remain - offset)) r.at) (λ got.
        let bytes = got.0 in
        let printed : Reading S File = record {
          at = got.1;
          out = r.out ++ dump_rows (length bytes) offset bytes;
        } in
        let rest = hex_loop fuel remain ((offset + length bytes) % 2 ^ 32) printed in
        if length bytes == 0 then some (record { at = got.1; out = r.out }) else rest) in
      if ltb offset (remain % 2 ^ 32) then round else some r

  -- `while remaining > 0`
  pub text_loop : ℕ → ℕ → Reading S File → Option (Reading S File)
  text_loop zero remaining r = none
  text_loop (suc fuel) remaining r =
      let round = bind (read_block (min buf_size remaining) r.at) (λ got.
        let bytes = got.0 in
        let printed : Reading S File = record { at = got.1; out = r.out ++ text_of utf8 bytes } in
        let rest = text_loop fuel (remaining - length bytes) printed in
        if length bytes == 0 then some (record { at = got.1; out = r.out }) else rest) in
      if remaining == 0 then some r else round

  -- `probe[..probe_len].contains(&0)`
  abbrev pub has_nul : List ℕ → Bool
  has_nul [] = false
  has_nul (c ∷ cs) = (c == 0) || has_nul cs

  -- From the start of the file on, in one of the two modes.
  abbrev pub print_file : ℕ → Bool → ℕ → Reading S File → Option (Reading S File)
  print_file fuel is_binary remain r =
      let text =
        bind (text_loop fuel remain r)
          (λ d. some (record { at = d.at; out = d.out ++ (b'\n' ∷ []) })) in
      let dump = hex_loop fuel remain 0 r in if is_binary then dump else text

  -- The file is open.
  pub show_file : ℕ → ℕ → File → Console S → Option (Console S)
  show_file fuel limit file c =
      let size = fs.f_size file in
      let remain = if ltb 0 limit then min limit size else size in
      bind (read_block buf_size (c.disk, file)) (λ got.
        or_else (fs.f_lseek 0 (got.1))
          (λ u at.
            bind (print_file fuel (has_nul (got.0)) remain (record { at = at; out = c.out }))
              (λ r. some (record { disk = r.at.0; out = r.out })))
          (λ e at.
            bind (print_file fuel (has_nul (got.0)) remain (record { at = at; out = c.out }))
              (λ r. some (record { disk = r.at.0; out = r.out }))))

  pub show_path : ℕ → ℕ → List ℕ → Console S → Option (Console S)
  show_path fuel limit path c =
      or_else (fs.f_stat path c.disk)
        (λ info disk.
          let opened =
            or_else (fs.f_open path fa_read disk)
              (λ file disk'. show_file fuel limit file (record c { disk = disk' }))
              (λ e disk'. some (
                print (codes "out: cannot open '" ++ (path ++ codes "'\n"))
                  (record c { disk = disk' }))) in
          if is_dir info
          then some (
              print (codes "out: '" ++ (path ++ codes "': Is a directory\n"))
                (record c { disk = disk }))
          else opened)
        (λ e disk. some (
          print (codes "out: cannot access '" ++ (path ++ codes "': No such file or directory\n"))
            (record c { disk = disk })))

  pub run : (List ℕ → ℕ) → ℕ → List (List ℕ) → Console S → Option (Console S)
  run parse fuel args c = elim (parse_args parse args) [
    | none ↦ some (print (codes "out: invalid option\n") c)
    | some (path, limit) ↦
        let done = show_path fuel limit path c in
        if length path == 0 then some (print (codes "out: missing file operand\n") c) else done
  ]
