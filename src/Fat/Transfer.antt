-- ===== src/Fat/Transfer.antt =====
-- Reading and writing an open file: `f_read` and `f_write` of src/hal/fat32.rs. The state is the
-- disk, the file object and the caller's buffer. `VOL` is the argument `vol`.
pub mod Content
pub mod Cursor
pub mod Round
pub mod Read
pub mod Advance
pub mod Write
pub mod Within
pub mod Filled
use planck_os.Prelude.{
  ℕ, zero, suc, ◌+◌, ◌-◌, ◌*◌, ◌/◌, ◌%◌, min, Bool, true, false, not, ◌&&◌, Option, none, some,
  ◌==◌, ltb, leb, if◌then◌else◌,
}
use planck_os.Fat.{
  Disk, Volume, File, FError, M, Run, hang, ok, err, pure, fail, ◌>>=◌, ◌>>◌, add32, sub32, denied,
  not_enabled, read_sector, write_sector, Sector,
}
use planck_os.Fat.Table.{
  read_fat_entry, write_fat_entry, find_free_cluster, cluster_to_lba, in_chain, end_of_chain,
}

pub record Io : Type 0 where
  pub disk : Disk
  pub file : File
  pub buf : ℕ → ℕ

abbrev pub has_bit : ℕ → ℕ → Bool
has_bit flags bit = not (flags / bit % 2 == 0)

abbrev pub fa_read : ℕ
fa_read = 1

abbrev pub fa_write : ℕ
fa_write = 2

abbrev pub fa_create_new : ℕ
fa_create_new = 4

abbrev pub fa_create_always : ℕ
fa_create_always = 8

abbrev pub fa_open_always : ℕ
fa_open_always = 16

-- `with_vol`
abbrev pub with_vol : {A : Type 0} → Option Volume → (Volume → M Disk A) → M Disk A
with_vol none f = fail not_enabled
with_vol (some v) f = f v

-- `match with_vol(f) { Ok(a) => a, Err(e) => { file.error = e; return Err(e); } }`
unfoldable pub on_vol : {A : Type 0} → Option Volume → (Volume → M Disk A) → M Io A
on_vol vol f s = elim (with_vol vol f s.disk) [
  | ok a d ↦ ok a (record s { disk = d })
  | err e d ↦ err e (record s { disk = d; file = record s.file { error = e } })
  | hang ↦ hang
]

abbrev pub get : M Io Io
get s = ok s s

abbrev pub set_file : File → M Io (Unit {0})
set_file f s = ok tt (record s { file = f })

-- `file.error = FError::Denied; return Err(FError::Denied)`
abbrev pub deny : {A : Type 0} → M Io A
deny s = err denied (record s { file = record s.file { error = denied } })

-- `buf[read..read + to_copy].copy_from_slice(&sector_buf[from..from + to_copy])`
abbrev pub copy_in : (ℕ → ℕ) → ℕ → ℕ → Sector → ℕ → (ℕ → ℕ)
copy_in buf read to_copy sector from =
    λ j. if leb read j && ltb j (read + to_copy) then sector (from + (j - read)) else buf j

abbrev pub bump16 : ℕ → ℕ → ℕ
bump16 a b = (a + b) % 65536

-- The sector under the file's cursor.
abbrev pub file_lba : Volume → File → ℕ
file_lba v f = add32 (cluster_to_lba v f.current_cluster) f.sector_in_cluster

abbrev pub cursor_copy : File → ℕ → ℕ → ℕ
cursor_copy f total done = min (512 - f.byte_in_sector) (total - done)

-- One copy of `f_read`, before the cursor advances to the next sector.
abbrev pub read_step : Io → Sector → ℕ → ℕ → Io
read_step s sector to_read read =
    let f = s.file in
    let to_copy = cursor_copy f to_read read in
    record s {
      buf = copy_in s.buf read to_copy sector f.byte_in_sector;
      file = record f {
        byte_in_sector = bump16 f.byte_in_sector to_copy;
        position = add32 f.position to_copy;
      };
    }

abbrev pub next_sector : File → File
next_sector f = record f { byte_in_sector = 0; sector_in_cluster = bump16 f.sector_in_cluster 1 }

-- "Advance to next sector/cluster": whether the loop goes on.
pub advance_read : Option Volume → M Io Bool
advance_read vol = do
  s ← get
  if ltb s.file.byte_in_sector 512 then pure true else (do
    set_file (next_sector s.file)
    spc ← on_vol vol (λ v. pure v.sectors_per_cluster)
    s1 ← get
    if ltb s1.file.sector_in_cluster spc then pure true else (do
      set_file (record s1.file { sector_in_cluster = 0 })
      next ← on_vol vol (λ v. read_fat_entry v s1.file.current_cluster)
      s2 ← get
      if leb end_of_chain next
          then set_file (record s2.file { current_cluster = 0 }) >> pure false
          else set_file (record s2.file { current_cluster = next }) >> pure true))

pub read_loop : ℕ → Option Volume → ℕ → ℕ → M Io ℕ
read_loop zero vol to_read read = λ _. hang
read_loop (suc fuel) vol to_read read =
    if ltb read to_read
    then (do
      s ← get
      sector ← on_vol vol (λ v. read_sector (file_lba v s.file))
      (λ s1. ok tt (read_step s1 sector to_read read))
      more ← advance_read vol
      if more
          then read_loop fuel vol to_read (read + cursor_copy s.file to_read read)
          else pure (read + cursor_copy s.file to_read read))
    else pure read

-- `len` is `buf.len()`.
pub f_read : Option Volume → ℕ → M Io ℕ
f_read vol len = do
  s ← get
  let to_read = min len (sub32 s.file.size s.file.position)
  if not (has_bit s.file.flags fa_read) then deny else if to_read == 0 then pure 0 else (do
    _ ← on_vol vol (λ v. pure (v.sectors_per_cluster * 512))
    read_loop (suc to_read) vol to_read 0)

-- `find_free_cluster`, and its entry set to the end of a chain.
pub take_cluster : Option Volume → M Io ℕ
take_cluster vol = do
  clu ← on_vol vol find_free_cluster
  on_vol vol (λ v. write_fat_entry v clu 0x0FFFFFFF)
  pure clu

abbrev pub write_step : Io → ℕ → ℕ → Io
write_step s to_write written =
    let f = s.file in
    let space = cursor_copy f to_write written in
    let end = add32 f.position space in
    record s {
      file = record f {
        byte_in_sector = bump16 f.byte_in_sector space;
        position = end;
        size = if ltb f.size end then end else f.size;
        modified = true;
      };
    }

pub advance_write : Option Volume → M Io (Unit {0})
advance_write vol = do
  s ← get
  if ltb s.file.byte_in_sector 512 then pure tt else (do
    set_file (next_sector s.file)
    spc ← on_vol vol (λ v. pure v.sectors_per_cluster)
    s1 ← get
    if ltb s1.file.sector_in_cluster spc then pure tt else (do
      set_file (record s1.file { sector_in_cluster = 0 })
      next ← on_vol vol (λ v. read_fat_entry v s1.file.current_cluster)
      if leb end_of_chain next
          then (do
            new_clu ← take_cluster vol
            s2 ← get
            on_vol vol (λ v. write_fat_entry v s2.file.current_cluster new_clu)
            s3 ← get
            set_file (record s3.file { current_cluster = new_clu }))
          else (do s2 ← get; set_file (record s2.file { current_cluster = next }))))

-- The loop over the caller's bytes `src`: read, modify, write a sector.
pub write_loop : ℕ → Option Volume → ℕ → (ℕ → ℕ) → ℕ → M Io ℕ
write_loop zero vol to_write src written = λ _. hang
write_loop (suc fuel) vol to_write src written =
    if ltb written to_write
    then (do
      s ← get
      let space = cursor_copy s.file to_write written
      let from = s.file.byte_in_sector
      sector ← on_vol vol (λ v. read_sector (file_lba v s.file))
      on_vol vol (λ v. write_sector (file_lba v s.file) (copy_in sector from space src written))
      (λ s1. ok tt (write_step s1 to_write written))
      advance_write vol
      write_loop fuel vol to_write src (written + space))
    else pure written

-- "Allocate first cluster if needed".
pub first_cluster : Option Volume → M Io (Unit {0})
first_cluster vol = do
  s ← get
  if s.file.current_cluster == 0
      then (do
        new_clu ← take_cluster vol
        s1 ← get
        set_file (record s1.file { start_cluster = new_clu; current_cluster = new_clu }))
      else pure tt

pub f_write : Option Volume → ℕ → (ℕ → ℕ) → M Io ℕ
f_write vol len src = do
  s ← get
  if not (has_bit s.file.flags fa_write)
      then deny
      else if len == 0
      then pure 0
      else (do first_cluster vol; write_loop (suc len) vol len src 0)
