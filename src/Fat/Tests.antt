-- ===== src/Fat/Tests.antt =====
-- The theorems of src/hal/fat32.rs at a volume with one copy of a table of one sector, in which the
-- clusters 2 and 3 form a chain.
use planck_os.Prelude.{
  ℕ, max, ◌+◌, ◌-◌, ◌*◌, ◌%◌, ◌≤◌, ◌<◌, ◌≡◌, refl, true, false, some, [], ◌∷◌, arith, if◌then◌else◌,
  ◌==◌, min, update,
}
use planck_os.Prelude.{◌⊎◌}
use planck_os.Fat.{Disk, Volume, File, ok, fine, put32, Sector, from_le32}
use planck_os.Fat.Directory.{entry_of, start_cluster_of}
use planck_os.Fat.Text.{f_sync}
use planck_os.Fat.Text.Sync.{f_sync-entry}
use planck_os.Fat.Entries.{f_opendir}
use planck_os.Fat.Entries.Opening.{dir_at, f_opendir-name}
use planck_os.Fat.Outcome.{Ends}
use planck_os.Fat.Table.{
  read_cluster, write_cluster, cluster_to_lba, write_fat_entry, find_free_cluster, free_chain,
}
use planck_os.Fat.Table.Entry.{IsTable, IsReady, InTable, fat_at, write_fat_entry-fat_at}
use planck_os.Fat.Table.Free.{Searched, find_free_cluster-Searched}
use planck_os.Fat.Table.Chain.{contains, free_chain-Chain}
use planck_os.Fat.Table.Cluster.{Beside, read_cluster-write_cluster}
use planck_os.Fat.Transfer.{Io, f_read, f_write}
use planck_os.Fat.Transfer.Within.{Succeeds, IsOpen, Filled}
use planck_os.Fat.Transfer.Filled.{f_write-Filled}
use planck_os.Fat.Transfer.Cursor.{Reports}
use planck_os.Fat.Transfer.Round.{Progress}
use planck_os.Fat.Transfer.Read.{f_read-Ends}

abbrev vol : Volume
vol = record {
  sectors_per_cluster = 1;
  reserved_sectors = 32;
  num_fats = 1;
  sectors_per_fat = 1;
  root_cluster = 2;
  data_region_lba = 33;
  fat_region_lba = 32;
}

abbrev disk : Disk
disk = record {
  sectors = λ lba. if lba == 32 then put32 (put32 (λ j. 0) 8 3) 12 0x0FFFFFFF else λ j. lba;
  readable = λ lba. true;
  writable = λ lba. true;
  sector_count = 100;
}

vol-IsTable : IsTable vol
vol-IsTable = record { copies = omega arith; fits = omega arith; small = omega arith }

disk-IsReady : IsReady vol disk
disk-IsReady = record { reads = λ lba a b. refl; writes = λ lba a b. refl }

write_fat_entry-fat_at_example :
    (d' : Disk) × (write_fat_entry vol 5 7 disk ≡ ok tt d')
    × IsReady vol d'
    × ((j : ℕ) → InTable vol j → fat_at vol d' j ≡ update (fat_at vol disk) 5 (7 % 268435456) j)
    × ((lba : ℕ) → lba < 32 → d'.sectors lba ≡ disk.sectors lba)
    × ((lba : ℕ) → 32 + 1 * 1 ≤ lba → d'.sectors lba ≡ disk.sectors lba)
write_fat_entry-fat_at_example =
    write_fat_entry-fat_at vol disk 5 7 vol-IsTable disk-IsReady (omega arith)

find_free_cluster-Searched_example :
    Searched (fat_at vol disk) 2 (1 * 128) (find_free_cluster vol disk) disk
find_free_cluster-Searched_example =
    find_free_cluster-Searched vol disk vol-IsTable disk-IsReady (omega arith)

free_chain-Chain_example :
    (d' : Disk) × (free_chain 3 vol 2 disk ≡ ok tt d')
    × IsReady vol d'
    × ((j : ℕ)
        → InTable vol j
        → fat_at vol d' j ≡ (if contains j (2 ∷ 3 ∷ []) then 0 else fat_at vol disk j))
free_chain-Chain_example =
    free_chain-Chain vol vol-IsTable 3 2 (2 ∷ 3 ∷ []) disk disk-IsReady (omega arith)
      (refl, refl, omega arith, refl, (refl, refl, omega arith, refl, refl))

read_cluster-write_cluster_example :
    (d' : Disk) × (out : ℕ → ℕ) × (write_cluster vol 3 (λ j. j) disk ≡ ok tt d')
    × (read_cluster vol 3 (λ j. 0) d' ≡ ok out d')
    × ((off : ℕ) → off < 1 * 512 → out off ≡ off)
    × Beside disk d' (cluster_to_lba vol 3) (cluster_to_lba vol 3 + 1)
read_cluster-write_cluster_example =
    read_cluster-write_cluster vol 3 (λ j. j) (λ j. 0) disk (omega arith) (λ k h. refl)
      (λ k h. refl)

-- A file of 600 bytes, 500 of which have been read.
abbrev open_file : File
open_file = record {
  size = 600;
  position = 500;
  start_cluster = 2;
  current_cluster = 2;
  sector_in_cluster = 0;
  byte_in_sector = 500;
  flags = 3;
  dir_sector = 2;
  dir_offset = 0;
  modified = false;
  error = fine;
}

abbrev io : Io
io = record { disk = disk; file = open_file; buf = λ j. 0 }

f_read-Ends_example :
    Ends
      (λ n t. Progress vol io (min 50 (600 - 500)) 0 (min 1 (min 50 (600 - 500))) n t)
      (Reports disk)
      (f_read (some vol) 50 io)
f_read-Ends_example =
    f_read-Ends vol 50 io (omega arith) (omega arith) (omega arith) (omega arith) (omega arith)

io-IsOpen : IsOpen vol io
io-IsOpen = record {
  low = omega arith;
  few = omega arith;
  reads = λ q h. refl;
  writes = λ q h. refl;
  cursor = omega arith;
  sector = omega arith;
}

f_write-Filled_example :
    Succeeds
      (λ n t.
        (n ≡ 5)
        × Filled vol io (λ j. j) 0 5 t
        × (t.file.position ≡ 500 + 5)
        × (t.file.size ≡ max 600 (500 + 5))
        × (t.file.modified ≡ true))
      (f_write (some vol) 5 (λ j. j) io)
f_write-Filled_example =
    f_write-Filled vol 5 (λ j. j) io refl (λ h. omega arith) (omega arith) (omega arith)
      (omega arith) io-IsOpen

abbrev changed : Io
changed = record {
  disk = disk;
  file = record {
    size = 700;
    position = 700;
    start_cluster = 3;
    current_cluster = 3;
    sector_in_cluster = 0;
    byte_in_sector = 0;
    flags = 2;
    dir_sector = 2;
    dir_offset = 1;
    modified = true;
    error = fine;
  };
  buf = λ j. 0;
}

f_sync-entry_example :
    (sc : Sector) × (f_sync (some vol) changed
      ≡ ok (some tt) (record changed {
        disk = record disk { sectors = update disk.sectors 33 sc };
        file = record changed.file { modified = false };
      }))
    × (let e = entry_of sc 32 in from_le32 (e 0x1C) (e 0x1D) (e 0x1E) (e 0x1F) ≡ 700)
    × (start_cluster_of (entry_of sc 32) ≡ 3)
    × ((j : ℕ)
        → (j < 32 + 0x14) ⊎ (((32 + 0x16 ≤ j) × (j < 32 + 0x1A)) ⊎ (32 + 0x20 ≤ j))
        → sc j ≡ disk.sectors 33 j)
f_sync-entry_example =
    f_sync-entry vol changed refl (omega arith) (omega arith) (omega arith) refl refl

f_opendir-name_example : f_opendir 3 (some vol) (b'S' ∷ b'U' ∷ b'B' ∷ []) disk ≡ ok (dir_at 2) disk
f_opendir-name_example = f_opendir-name 3 vol b'S' (b'U' ∷ b'B' ∷ []) disk refl
