-- ===== src/Fat/Table/Reading.antt =====
-- Reading the file allocation table of src/hal/fat32.rs gives the entry and leaves the disk as it is.
use planck_os.Prelude.{ℕ, ◌%◌, ap}
use planck_os.Fat.{Disk, Volume, pure, read_sector}
use planck_os.Fat.Outcome.{Ends, Ends-bind, Gives, read_sector-Gives}
use planck_os.Fat.Table.Entry.{fat_at}
use planck_os.Fat.Table.{read_fat_entry, fat_sector, fat_offset, entry_at}

pub read_fat_entry-Gives :
    (v : Volume) (c : ℕ) (d : Disk) → Gives d (fat_at v d c) (read_fat_entry v c d)
unfolding read_fat_entry Ends
read_fat_entry-Gives v c d =
    Ends-bind _ _ _ (read_sector (fat_sector v c) d)
      (λ buf. pure (entry_at buf (fat_offset c) % 268435456)) (read_sector-Gives (fat_sector v c) d)
      (λ a s h. (ap (λ buf. entry_at buf (fat_offset c) % 268435456) h.0, h.1))
