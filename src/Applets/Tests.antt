-- ===== src/Applets/Tests.antt =====
-- The theorems of src/applets at small inputs: a file system whose disk is what is left of a source
-- and what a destination holds.
use planck_os.Prelude.{
  ℕ, ◌≤◌, ◌<◌, ◌≡◌, ◌≢◌, refl, Bool, true, false, none, some, ◌==◌, if◌then◌else◌, List, [], ◌∷◌,
  ◌++◌, length, take, arith, inl, inr, Bool-cases, drop,
}
use planck_os.Prelude.{codes, replicate, map}
use planck_os.Fat.{Disk, File, Volume, fine, ok, err, no_path}
use planck_os.Applets.{FileSystem, Console}
use planck_os.Applets.Ls.{LsEntry, no_flags, sort_entries}
use planck_os.Applets.Ls.Order.{out_of_order}
use planck_os.Applets.Ls.Sort.{sort_entries-sorted}
use planck_os.Applets.Ls.Layout.{size_buf}
use planck_os.Applets.Cp.{Copying, copy_loop}
use planck_os.Applets.OnFat.{fat}
use planck_os.Applets.Cp.Copied.{Copied, copy_loop-whole}
unfoldable use planck_os.Applets.Cp.Transferred.{fat-Transfers}
use planck_os.Applets.Mk.{create_path}
unfoldable use planck_os.Applets.Mk.{trim_end}
unfoldable use planck_os.Applets.Ls.Layout.{size_digits}
use planck_os.Applets.Mk.Parents.{create_path_total}
use planck_os.Applets.Out.{dump_row, shown}
use planck_os.Applets.Out.Rows.{read_bytes, dump_row-back}

abbrev ascii : List ℕ → Bool
ascii s = true

abbrev padded : List ℕ → List ℕ
padded name = take 13 (name ++ replicate 13 0)

abbrev entries : ℕ → LsEntry
entries i =
    if i == 0
    then record { name = padded (codes "A.TXT"); size = 30; is_dir = false }
    else if i == 1
    then record { name = padded (codes "SUB"); size = 0; is_dir = true }
    else record { name = padded (codes "B"); size = 20; is_dir = false }

sort_entries-sorted_example :
    ((p : ℕ) × (p < 3) × (sort_entries ascii no_flags entries 3 p ≡ 2))
    × (out_of_order ascii no_flags
          (entries (sort_entries ascii no_flags entries 3 0))
          (entries (sort_entries ascii no_flags entries 3 1))
        ≡ false)
sort_entries-sorted_example =
    sort_entries-sorted ascii no_flags entries 3 2 0 1 (omega arith) (omega arith) (omega arith)

names_short : (k : ℕ) → length (entries k).name ≤ 13
names_short k = elim (Bool-cases (k == 0)) [
  | inl e ↦ rw e (omega arith)
  | inr e ↦ elim (Bool-cases (k == 1)) [
    | inl d ↦ rw (e, d) (omega arith)
    | inr d ↦ rw (e, d) (omega arith)
  ]
]

-- The column of sizes ends in a NUL, and a size of nine digits loses its first.
size_column : size_buf 123456789 ≡ codes "23456789" ++ (0 ∷ [])
unfolding size_digits
size_column = refl

abbrev fs : FileSystem (List ℕ × List ℕ) Bool Bool
fs = record {
  f_stat = λ path d. err no_path d;
  f_opendir = λ path d. err no_path d;
  f_readdir = λ at. ok none at;
  f_unlink = λ path d. err no_path d;
  f_mkdir = λ path d. err no_path d;
  f_open = λ path flags d. err no_path d;
  f_read = λ n at. ok (take n (at.0.0)) ((drop n (at.0.0), at.0.1), at.1);
  f_write = λ bytes at. ok (length bytes) ((at.0.0, at.0.1 ++ bytes), at.1);
  f_sync = λ at. ok tt at;
  f_lseek = λ offset at. ok tt at;
  f_size = λ file. 0;
}

abbrev vol : Volume
vol = record {
  sectors_per_cluster = 1;
  reserved_sectors = 32;
  num_fats = 1;
  sectors_per_fat = 1;
  root_cluster = 2;
  data_region_lba = 33;
  fat_region_lba = 32;
}

-- A file of 40 bytes, opened for both.
abbrev file : File
file = record {
  size = 40;
  position = 0;
  start_cluster = 2;
  current_cluster = 2;
  sector_in_cluster = 0;
  byte_in_sector = 0;
  flags = 3;
  dir_sector = 2;
  dir_offset = 0;
  modified = false;
  error = fine;
}

abbrev copying : Copying Disk File
copying = record {
  disk = record {
    sectors = λ lba j. 0;
    readable = λ lba. true;
    writable = λ lba. true;
    sector_count = 100;
  };
  src = file;
  dst = record file { current_cluster = 3; start_cluster = 3; size = 0 };
  out = [];
}

copy_loop-whole_example :
    Copied (fat 10 (some vol)) copying (copy_loop (fat 10 (some vol)) 50 copying)
unfolding fat-Transfers
copy_loop-whole_example =
    copy_loop-whole (fat 10 (some vol)) (fat-Transfers 10 vol (omega arith)) 50 copying
      (omega arith, omega arith, omega arith, omega arith) (omega arith) (omega arith) (omega arith)

abbrev console : Console (List ℕ × List ℕ)
console = record { disk = ([], []); out = [] }

path-short : length (trim_end (codes "a/b/c/")) < 20
unfolding trim_end
path-short = omega arith

create_path_total_example : create_path fs 20 (codes "a/b/c/") true console ≢ none
create_path_total_example =
    create_path_total fs (λ path d. cc) (λ path d. cc) (λ path flags d. cc) 20 (codes "a/b/c/") true
      console path-short

dump_row-back_example :
    (read_bytes 3 (drop 10 (dump_row 0x200 (0 ∷ 255 ∷ b'A' ∷ []))) ≡ 0 ∷ 255 ∷ b'A' ∷ [])
    × (drop 60 (dump_row 0x200 (0 ∷ 255 ∷ b'A' ∷ []))
        ≡ map shown (0 ∷ 255 ∷ b'A' ∷ []) ++ (b'|' ∷ b'\n' ∷ []))
dump_row-back_example =
    dump_row-back 0x200 (0 ∷ 255 ∷ b'A' ∷ []) (omega arith, (omega arith, (omega arith, tt)))
      (omega arith)
