-- ===== src/Fat/Labels.antt =====
-- The volume label and the current directory: `f_getlabel`, `f_setlabel`, `cwd_init`, `f_chdir` and
-- `f_getcwd` of src/hal/fat32.rs.
use planck_os.Prelude.{
  ℕ, zero, suc, ◌+◌, ◌-◌, ◌*◌, min, Bool, false, not, ◌&&◌, ◌||◌, Option, none, some, ◌==◌, ltb,
  leb, if◌then◌else◌, update, List, [], ◌∷◌, length, get_or,
}
use planck_os.Fat.{Disk, Volume, M, hang, pure, ◌>>=◌, ◌>>◌}
use planck_os.Fat.Table.{read_fat_entry, read_cluster, write_cluster, end_of_chain}
use planck_os.Fat.Directory.{resolve_path}
use planck_os.Fat.Transfer.{with_vol}

abbrev pub attr_volume : ℕ
attr_volume = 0x08

-- What the entries of one cluster give `f_getlabel`.
pub data LabelScan : Type 0 where
  ended : LabelScan
  labelled : ℕ → LabelScan
  looked : LabelScan

-- `for off in (0..cluster_size).step_by(32)`
pub scan_label : ℕ → ℕ → (ℕ → ℕ) → LabelScan
scan_label zero off buf = looked
scan_label (suc left) off buf =
    let rest = scan_label left (off + 32) buf in
    if buf off == 0
    then ended
    else if buf off == 0xE5
    then rest
    else if buf (off + 0x0B) == attr_volume
    then labelled off
    else rest

-- The bytes of the name at `off` that are not spaces, `left` of them from `j` on.
abbrev pub label_bytes : ℕ → ℕ → (ℕ → ℕ) → List ℕ
label_bytes zero j name = []
label_bytes (suc left) j name =
    let rest = label_bytes left (j + 1) name in if name j == b' ' then rest else name j ∷ rest

-- The label is an array of 12 bytes, zeros behind its text.
pub get_label_from : ℕ → Volume → ℕ → (ℕ → ℕ) → (ℕ → ℕ) → M Disk (ℕ → ℕ)
get_label_from zero v clu buf label = λ _. hang
get_label_from (suc fuel) v clu buf label = do
  buf' ← read_cluster v clu buf
  elim (scan_label (v.sectors_per_cluster * 16) 0 buf') [
    | ended ↦ pure label
    | labelled off ↦ pure (λ j. get_or (label_bytes 11 0 (λ i. buf' (off + i))) j 0)
    | looked ↦ do
      next ← read_fat_entry v clu
      if leb end_of_chain next then pure (λ j. 0) else get_label_from fuel v next buf' label
  ]

pub f_getlabel : ℕ → Option Volume → (ℕ → ℕ) → M Disk (ℕ → ℕ)
f_getlabel fuel vol label = with_vol vol (λ v. get_label_from fuel v v.root_cluster (λ j. 0) label)

-- What the entries of one cluster give `f_setlabel`; `passed` says whether a deleted one was seen.
pub data SlotScan : Type 0 where
  fresh : ℕ → SlotScan
  existing : ℕ → SlotScan
  passed : Bool → SlotScan

pub scan_slots : ℕ → ℕ → (ℕ → ℕ) → Bool → SlotScan
scan_slots zero off buf found_slot = passed found_slot
scan_slots (suc left) off buf found_slot =
    let deleted = (buf off == 0xE5) && not found_slot in
    let rest = scan_slots left (off + 32) buf (deleted || found_slot) in
    if (buf off == 0) && not found_slot
    then fresh off
    else if deleted
    then rest
    else if buf (off + 0x0B) == attr_volume
    then existing off
    else rest

-- The 11 bytes of a label, spaces behind its text.
abbrev pub put_label : List ℕ → ℕ → (ℕ → ℕ) → (ℕ → ℕ)
put_label label off buf =
    λ j. if leb off j && ltb j (off + 11) then get_or label (j - off) b' ' else buf j

-- A new entry; `none` is a panic, an empty label's first byte.
abbrev pub new_label : Volume → ℕ → List ℕ → ℕ → (ℕ → ℕ) → M Disk (Option (Unit {0}))
new_label v clu label off buf = if length label == 0 then pure none else (do
  write_cluster v clu (update (put_label label off buf) (off + 0x0B) attr_volume)
  pure (some tt))

pub set_label_from : ℕ → Volume → ℕ → (ℕ → ℕ) → List ℕ → Bool → M Disk (Option (Unit {0}))
set_label_from zero v clu buf label found_slot = λ _. hang
set_label_from (suc fuel) v clu buf label found_slot = do
  buf' ← read_cluster v clu buf
  elim (scan_slots (v.sectors_per_cluster * 16) 0 buf' found_slot) [
    | fresh off ↦ new_label v clu label off buf'
    | existing off ↦ do write_cluster v clu (put_label label off buf'); pure (some tt)
    | passed found ↦ do
      next ← read_fat_entry v clu
      if leb end_of_chain next then pure (some tt) else set_label_from fuel v next buf' label found
  ]

pub f_setlabel : ℕ → Option Volume → List ℕ → M Disk (Option (Unit {0}))
f_setlabel fuel vol label =
    with_vol vol (λ v. set_label_from fuel v v.root_cluster (λ j. 0) label false)

-- `CWD_CLUSTER` and `CWD_PATH`.
pub record Cwd : Type 0 where
  pub cluster : ℕ
  pub path : ℕ → ℕ

abbrev pub cwd_init : Cwd
cwd_init = record { cluster = 2; path = λ j. if j == 0 then b'/' else 0 }

-- `position(|&b| b == 0).unwrap_or(0)` in `left` bytes from `i` on.
abbrev pub find_nul : ℕ → ℕ → (ℕ → ℕ) → ℕ
find_nul zero i path = 0
find_nul (suc left) i path =
    let rest = find_nul left (i + 1) path in if path i == 0 then i else rest

-- `CWD_PATH[at..at + len].copy_from_slice(&bytes[..len])`
abbrev pub put_path : (ℕ → ℕ) → ℕ → ℕ → List ℕ → (ℕ → ℕ)
put_path path at len bytes =
    λ j. if leb at j && ltb j (at + len) then get_or bytes (j - at) 0 else path j

abbrev pub starts_with_slash : List ℕ → Bool
starts_with_slash [] = false
starts_with_slash (c ∷ cs) = c == b'/'

-- The new path; the array has been cleared before the old path is looked at.
pub chdir_path : List ℕ → (ℕ → ℕ)
chdir_path bytes =
    let cwd : ℕ → ℕ = λ j. 0 in
    let cwd_len = find_nul 256 0 cwd in
    if starts_with_slash bytes
    then put_path cwd 0 (min (length bytes) 255) bytes
    else if ltb 0 cwd_len && not (cwd (cwd_len - 1) == b'/')
    then put_path (update cwd cwd_len b'/') (cwd_len + 1) (min (length bytes) (255 - cwd_len - 1))
        bytes
    else put_path cwd cwd_len (min (length bytes) (255 - cwd_len)) bytes

pub f_chdir : ℕ → Option Volume → List ℕ → M Disk Cwd
f_chdir fuel vol path =
    with_vol vol (λ v. do
      r ← resolve_path fuel v path
      pure (record { cluster = r.0; path = chdir_path path }))

-- The caller's buffer of `len` bytes; `none` is a panic, the first byte of an empty one.
pub f_getcwd : Cwd → ℕ → (ℕ → ℕ) → Option (ℕ → ℕ)
f_getcwd cwd len buf =
    let n = find_nul 256 0 cwd.path in
    let copy_len = min n len in
    let copied : ℕ → ℕ = λ j. if ltb j copy_len then cwd.path j else buf j in
    if ltb 0 n
    then some (if ltb copy_len len then update copied copy_len 0 else copied)
    else if len == 0
    then none
    else some (if ltb 1 len then update (update buf 0 b'/') 1 0 else update buf 0 b'/')
