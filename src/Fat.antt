-- ===== src/Fat.antt =====
-- The data of src/hal/fat32.rs and of the block device below it (src/hal/block.rs), and the monad
-- in which its functions run. A sector and a cluster buffer are functions from an offset to a byte.
-- The device is a disk whose sectors may each refuse to be read or written. Loops along a cluster
-- chain run on fuel; `hang` is the outcome of a loop that has not ended when it is used up.
pub mod Outcome
pub mod Table
pub mod Directory
pub mod Transfer
pub mod Manage
pub mod Entries
pub mod Text
pub mod Labels
mod Tests
use planck_os.Prelude.{ℕ, ◌+◌, ◌-◌, ◌*◌, ◌/◌, ◌%◌, Bool, true, if◌then◌else◌, ◌≡◌, update}

pub data FError : Type 0 where
  fine disk_err no_file no_path not_found denied exists invalid write_protected : FError
  mkfs_aborted timeout locked not_enabled too_many_open_files invalid_parameter : FError

abbrev pub Sector : Type 0
Sector = ℕ → ℕ

-- `dyn BlockDevice`: `read_sector` and `write_sector` return whether they succeeded.
pub record Disk : Type 0 where
  pub sectors : ℕ → Sector
  pub readable : ℕ → Bool
  pub writable : ℕ → Bool
  pub sector_count : ℕ

-- `FatVolume` without the device and the buffer.
pub record Volume : Type 0 where
  pub sectors_per_cluster : ℕ
  pub reserved_sectors : ℕ
  pub num_fats : ℕ
  pub sectors_per_fat : ℕ
  pub root_cluster : ℕ
  pub data_region_lba : ℕ
  pub fat_region_lba : ℕ

pub record File : Type 0 where
  pub size : ℕ
  pub position : ℕ
  pub start_cluster : ℕ
  pub current_cluster : ℕ
  pub sector_in_cluster : ℕ
  pub byte_in_sector : ℕ
  pub flags : ℕ
  pub dir_sector : ℕ
  pub dir_offset : ℕ
  pub modified : Bool
  pub error : FError

-- The outcome of a function that updates a state and may fail; an error keeps the updates so far.
pub data Run (S A : Type 0) : Type 0 where
  ok : A → S → Run S A
  err : FError → S → Run S A
  hang : Run S A

abbrev pub M : Type 0 → Type 0 → Type 0
M S A = S → Run S A

abbrev pub pure : {S A : Type 0} → A → M S A
pure a s = ok a s

abbrev pub fail : {S A : Type 0} → FError → M S A
fail e s = err e s

infixl 5 ◌>>=◌ ◌>>◌
abbrev pub ◌>>=◌ : {S A B : Type 0} → M S A → (A → M S B) → M S B
◌>>=◌ m k s = elim (m s) [ ok a s' ↦ k a s' | err e s' ↦ err e s' | hang ↦ hang ]

abbrev pub ◌>>◌ : {S A B : Type 0} → M S A → M S B → M S B
m >> k = m >>= λ _. k

-- `u32` arithmetic.
abbrev pub add32 : ℕ → ℕ → ℕ
add32 a b = (a + b) % 4294967296

abbrev pub sub32 : ℕ → ℕ → ℕ
sub32 a b = (a + 4294967296 - b) % 4294967296

abbrev pub mul32 : ℕ → ℕ → ℕ
mul32 a b = a * b % 4294967296

-- A failed read or write is `DiskErr` in every caller.
unfoldable pub read_sector : ℕ → M Disk Sector
read_sector lba d = if d.readable lba then ok (d.sectors lba) d else err disk_err d

unfoldable pub write_sector : ℕ → Sector → M Disk (Unit {0})
write_sector lba buf d =
    if d.writable lba
    then ok tt (record d { sectors = update d.sectors lba buf })
    else err disk_err d

-- `u16::from_le_bytes` and `u32::from_le_bytes` of bytes.
abbrev pub from_le16 : ℕ → ℕ → ℕ
from_le16 a b = a + 256 * b

abbrev pub from_le32 : ℕ → ℕ → ℕ → ℕ → ℕ
from_le32 a b c d = a + 256 * b + 65536 * c + 16777216 * d

-- `buf[off..off + 4].copy_from_slice(&x.to_le_bytes())`, and two bytes of a `u16`.
abbrev pub put32 : Sector → ℕ → ℕ → Sector
put32 buf off x =
    update
      (update (update (update buf off (x % 256)) (off + 1) (x / 256 % 256)) (off + 2)
        (x / 65536 % 256))
      (off + 3) (x / 16777216 % 256)

abbrev pub put16 : Sector → ℕ → ℕ → Sector
put16 buf off x = update (update buf off (x % 256)) (off + 1) (x / 256 % 256)

-- The rest of a `do` block runs on from a step that succeeds, and stops at one that fails.
pub bind_ok :
    {S A B : Type 0} (m : M S A) (k : A → M S B) (s : S) {a : A} {s' : S}
    → m s ≡ ok a s'
    → (m >>= k) s ≡ k a s'
bind_ok m k s e = rw (e, ◌>>=◌)

pub bind_err :
    {S A B : Type 0} (m : M S A) (k : A → M S B) (s : S) {x : FError} {s' : S}
    → m s ≡ err x s'
    → (m >>= k) s ≡ err x s'
bind_err m k s e = rw (e, ◌>>=◌)

pub read_sector-ok :
    (lba : ℕ) (d : Disk) → d.readable lba ≡ true → read_sector lba d ≡ ok (d.sectors lba) d
unfolding read_sector
read_sector-ok lba d h = rw h

pub write_sector-ok :
    (lba : ℕ) (buf : Sector) (d : Disk)
    → d.writable lba ≡ true
    → write_sector lba buf d ≡ ok tt (record d { sectors = update d.sectors lba buf })
unfolding write_sector
write_sector-ok lba buf d h = rw h
