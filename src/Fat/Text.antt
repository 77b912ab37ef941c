-- ===== src/Fat/Text.antt =====
-- Text and the directory entry of an open file: `f_sync`, `f_gets`, `f_putc`, `f_puts`, `f_printf`
-- and the accessors of src/hal/fat32.rs. The interrupt flag is left out.
pub mod Sync
use planck_os.Prelude.{
  ℕ, zero, suc, ◌+◌, ◌-◌, ◌*◌, ◌/◌, ◌%◌, min, Bool, false, not, ◌||◌, Option, none, some, ◌==◌, ltb,
  leb, if◌then◌else◌, update, List, [], ◌∷◌, length, get_or, sub64,
}
use planck_os.Fat.{
  Disk, Volume, File, FError, M, Run, hang, ok, err, pure, fine, ◌>>=◌, ◌>>◌, read_sector,
  write_sector, Sector, put32, put16,
}
use planck_os.Fat.Table.{cluster_to_lba}
use planck_os.Fat.Transfer.{Io, on_vol, get, set_file, f_read, f_write}

abbrev pub f_tell : File → ℕ
f_tell file = file.position

abbrev pub f_eof : File → Bool
f_eof file = leb file.size file.position

abbrev pub f_size : File → ℕ
f_size file = file.size

-- The size and the first cluster of the file in the entry at `off`.
abbrev pub put_entry : File → ℕ → Sector → Sector
put_entry file off sc =
    let sized = put32 sc (off + 0x1C) file.size in
    let low = put16 sized (off + 0x1A) (file.start_cluster % 65536) in
    put16 low (off + 0x14) (file.start_cluster / 65536)

-- The changed sector goes back; `none` is a panic, when the entry is not in the sector.
pub write_back : Option Volume → ℕ → ℕ → Sector → M Io (Option (Unit {0}))
write_back vol lba off sc = if ltb 512 (off + 0x20) then pure none else (do
  s ← get
  on_vol vol (λ v. write_sector lba (put_entry s.file off sc))
  s1 ← get
  set_file (record s1.file { modified = false })
  pure (some tt))

pub f_sync : Option Volume → M Io (Option (Unit {0}))
f_sync vol = do
  s ← get
  if not s.file.modified then pure (some tt) else (do
    lba ← on_vol vol (λ v. pure (cluster_to_lba v s.file.dir_sector))
    sc ← on_vol vol (λ v. read_sector lba)
    write_back vol lba (s.file.dir_offset * 32) sc)

-- `let mut c = [0u8; 1]`
abbrev pub clear_buf : M Io (Unit {0})
clear_buf s = ok tt (record s { buf = λ j. 0 })

-- `while i < max`: the bytes so far, in `out`.
pub gets_loop : ℕ → Option Volume → ℕ → ℕ → (ℕ → ℕ) → M Io (ℕ × (ℕ → ℕ))
gets_loop zero vol max i out = λ _. hang
gets_loop (suc fuel) vol max i out =
    if ltb i max
    then (do
      clear_buf
      r ← f_read vol 1
      s ← get
      let c = s.buf 0
      if r == 0
          then pure (i, out)
          else if c == b'\r'
          then gets_loop fuel vol max i out
          else if c == b'\n'
          then pure (i + 1, update out i c)
          else gets_loop fuel vol max (i + 1) (update out i c))
    else pure (i, out)

-- The caller's buffer is `out`, of `len` bytes; every round but the last takes a byte of the file.
pub f_gets : Option Volume → ℕ → ℕ → (ℕ → ℕ) → M Io (ℕ × (ℕ → ℕ))
f_gets vol n len out = do
  s ← get
  r ← gets_loop (s.file.size + 1) vol (min (sub64 n 1) (len - 1)) 0 out
  pure (r.0, if ltb r.0 len then update r.1 r.0 0 else r.1)

pub f_putc : ℕ → Option Volume → M Io ℕ
f_putc c vol = f_write vol 1 (λ j. c)

-- `s.iter().position(|&b| b == 0).unwrap_or(s.len())`
abbrev pub text_end : List ℕ → ℕ
text_end [] = 0
text_end (c ∷ cs) = let rest = text_end cs in if c == 0 then 0 else suc rest

pub f_puts : List ℕ → Option Volume → M Io ℕ
f_puts s vol =
    let end = text_end s in if ltb 0 end then f_write vol end (λ j. get_or s j 0) else pure 0

-- `Int` holds the bits of its `i32`.
pub data FmtArg : Type 0 where
  char : ℕ → FmtArg
  str : List ℕ → FmtArg
  int : ℕ → FmtArg
  hex : ℕ → FmtArg

abbrev pub hex_upper : ℕ → ℕ
hex_upper n = if ltb n 10 then b'0' + n else b'A' + (n - 10)

-- The loop over the digits, `left` places of `tmp` before the first one being free. A `u32` needs
-- at most 10 of the 64, so that they do not run out.
abbrev pub digits_of : ℕ → ℕ → ℕ → List ℕ → List ℕ
digits_of base zero n tmp = tmp
digits_of base (suc left) n tmp =
    let rest = digits_of base left (n / suc base) (hex_upper (n % suc base) ∷ tmp) in
    if n / suc base == 0 then hex_upper (n % suc base) ∷ tmp else rest

abbrev pub int_text : ℕ → List ℕ
int_text val =
    if ltb val 2147483648
    then digits_of 9 64 val []
    else b'-' ∷ digits_of 9 64 (4294967296 - val) []

abbrev pub write_list : List ℕ → Option Volume → M Io ℕ
write_list s vol = f_write vol (length s) (λ j. get_or s j 0)

-- `args.get(arg_idx)` on what is left of the arguments.
abbrev pub first_arg : List FmtArg → Option FmtArg
first_arg [] = none
first_arg (a ∷ args) = some a

abbrev pub rest_args : List FmtArg → List FmtArg
rest_args [] = []
rest_args (a ∷ args) = args

abbrev pub put_char : Option FmtArg → Option Volume → M Io ℕ
put_char (some (char c)) vol = f_putc c vol
put_char (some (str s)) vol = pure 0
put_char (some (int n)) vol = pure 0
put_char (some (hex n)) vol = pure 0
put_char none vol = pure 0

abbrev pub put_string : Option FmtArg → Option Volume → M Io ℕ
put_string (some (char c)) vol = pure 0
put_string (some (str s)) vol = f_puts s vol
put_string (some (int n)) vol = pure 0
put_string (some (hex n)) vol = pure 0
put_string none vol = pure 0

abbrev pub put_int : Option FmtArg → Option Volume → M Io ℕ
put_int (some (char c)) vol = pure 0
put_int (some (str s)) vol = pure 0
put_int (some (int n)) vol = write_list (int_text n) vol
put_int (some (hex n)) vol = pure 0
put_int none vol = pure 0

abbrev pub put_hex_arg : Option FmtArg → Option Volume → M Io ℕ
put_hex_arg (some (char c)) vol = pure 0
put_hex_arg (some (str s)) vol = pure 0
put_hex_arg (some (int n)) vol = pure 0
put_hex_arg (some (hex n)) vol = write_list (digits_of 15 64 n []) vol
put_hex_arg none vol = pure 0

abbrev pub is_directive : ℕ → Bool
is_directive d = (d == b'c') || ((d == b's') || ((d == b'd') || ((d == b'x') || (d == b'X'))))

-- The `match` on the byte behind a percent sign.
pub directive : ℕ → Option FmtArg → Option Volume → M Io ℕ
directive d arg vol =
    if d == b'c'
    then put_char arg vol
    else if d == b's'
    then put_string arg vol
    else if d == b'd'
    then put_int arg vol
    else if (d == b'x') || (d == b'X')
    then put_hex_arg arg vol
    else if d == b'%'
    then write_list (b'%' ∷ []) vol
    else write_list (b'%' ∷ d ∷ []) vol

-- `written` is the count of the bytes so far.
pub print_from : Option Volume → List ℕ → List FmtArg → ℕ → M Io ℕ
print_from vol [] args written = pure written
print_from vol (c ∷ []) args written =
    if c == b'%' then pure written else (do n ← write_list (c ∷ []) vol; pure (written + n))
print_from vol (c ∷ d ∷ ds) args written =
    if c == b'%'
    then (do
      n ← directive d (first_arg args) vol
      print_from vol ds (if is_directive d then rest_args args else args) (written + n))
    else (do n ← write_list (c ∷ []) vol; print_from vol (d ∷ ds) args (written + n))

pub f_printf : Option Volume → List ℕ → List FmtArg → M Io ℕ
f_printf vol fmt args = print_from vol fmt args 0
