-- ===== src/Fat/Manage.antt =====
-- The operations of src/hal/fat32.rs that take a path, seek or resize: mounting, `f_open`,
-- `f_lseek`, `f_truncate`, `f_expand`, `f_unlink`, `f_chmod`, `f_utime` and `f_getfree`. `fuel`
-- bounds every walk along a cluster chain.
use planck_os.Prelude.{
  ℕ, zero, suc, ◌+◌, ◌-◌, ◌*◌, ◌/◌, ◌%◌, max, Bool, true, false, not, ◌&&◌, ◌||◌, Option, none,
  some, ◌==◌, ltb, leb, if◌then◌else◌, update, List, length,
}
use planck_os.Fat.{
  Disk, Volume, File, M, hang, err, pure, fail, ◌>>=◌, ◌>>◌, add32, sub32, mul32, fine, disk_err,
  exists, no_file, invalid, mkfs_aborted, read_sector, from_le16, from_le32, put16,
}
use planck_os.Fat.Table.{
  read_fat_entry, write_fat_entry, find_free_cluster, count_free_clusters, max_cluster,
  end_of_chain, free_chain, read_cluster, write_cluster,
}
use planck_os.Fat.Directory.{
  entry_of, find_entry_in_dir, read_entry_data, resolve_path, find_slot, put_name, start_cluster_of,
}
use planck_os.Fat.Transfer.{
  Io, has_bit, fa_write, fa_create_new, fa_create_always, fa_open_always, with_vol, on_vol, get,
  set_file, deny, take_cluster,
}

-- `u8::is_power_of_two`, over the powers below 256.
abbrev pub is_power_of_two : ℕ → Bool
is_power_of_two n =
    (n == 1)
    || ((n == 2)
        || ((n == 4) || ((n == 8) || ((n == 16) || ((n == 32) || ((n == 64) || (n == 128)))))))

-- `f_mount` returns the volume that it stores in `VOL`; the log lines are left out.
pub f_mount : M Disk Volume
f_mount d =
    if d.sector_count == 0
    then err disk_err d
    else (do
      buf ← read_sector 0
      let spc = buf 0x0D
      let reserved = from_le16 (buf 0x0E) (buf 0x0F)
      let fatsz = from_le32 (buf 0x24) (buf 0x25) (buf 0x26) (buf 0x27)
      if not (buf 0x1FE == 0x55) || not (buf 0x1FF == 0xAA)
          then fail mkfs_aborted
          else if not (from_le16 (buf 0x0B) (buf 0x0C) == 512)
          then fail invalid
          else if (spc == 0) || not (is_power_of_two spc)
          then fail invalid
          else if not (from_le16 (buf 0x11) (buf 0x12) == 0) || (fatsz == 0)
          then fail invalid
          else pure (record {
            sectors_per_cluster = spc;
            reserved_sectors = reserved;
            num_fats = buf 0x10;
            sectors_per_fat = fatsz;
            root_cluster = from_le32 (buf 0x2C) (buf 0x2D) (buf 0x2E) (buf 0x2F);
            data_region_lba = add32 reserved (mul32 (buf 0x10) fatsz);
            fat_region_lba = reserved;
          }))
        d

abbrev pub new_file : ℕ → ℕ → ℕ → ℕ → ℕ → ℕ → Bool → File
new_file size start current flags dir_cluster dir_index modified = record {
  size = size;
  position = 0;
  start_cluster = start;
  current_cluster = current;
  sector_in_cluster = 0;
  byte_in_sector = 0;
  flags = flags;
  dir_sector = dir_cluster;
  dir_offset = dir_index;
  modified = modified;
  error = fine;
}

-- The branch of `f_open` for an existing entry.
pub open_existing : ℕ → Volume → ℕ → ℕ → ℕ → M Disk File
open_existing fuel v flags parent_cluster entry_idx =
    if has_bit flags fa_create_new then fail exists else (do
      entry ← read_entry_data v parent_cluster entry_idx
      let start = start_cluster_of entry
      let size = from_le32 (entry 0x1C) (entry 0x1D) (entry 0x1E) (entry 0x1F)
      if has_bit flags fa_create_always
          then (do
            free_chain fuel v start
            pure (new_file 0 start 0 flags parent_cluster entry_idx false))
          else pure (new_file size start start flags parent_cluster entry_idx false))

-- The two halves of a cluster number in an entry.
abbrev pub put_start : (ℕ → ℕ) → ℕ → ℕ → (ℕ → ℕ)
put_start buf off clu =
    put16 (put16 buf (off + 0x1A) (clu % 65536)) (off + 0x14) (clu / 65536 % 65536)

-- The branch for a missing entry: a cluster, a slot, the entry.
pub open_new : ℕ → Volume → ℕ → ℕ → List ℕ → M Disk File
open_new fuel v flags dir_cluster name =
    if not (
      has_bit flags fa_create_new
      || (has_bit flags fa_create_always || has_bit flags fa_open_always))
    then fail no_file
    else (do
      new_cluster ← find_free_cluster v
      write_fat_entry v new_cluster 0x0FFFFFFF
      (dest_cluster, dest_off, buf) ← find_slot fuel v dir_cluster
      write_cluster v dest_cluster (
          put_start (update (put_name buf dest_off name) (dest_off + 0x0B) 0x20) dest_off
            new_cluster)
      pure (new_file 0 new_cluster new_cluster flags dest_cluster (dest_off / 32) true))

pub f_open : ℕ → Option Volume → List ℕ → ℕ → M Disk File
f_open fuel vol path flags = with_vol vol (λ v. do
  (dir_cluster, name) ← resolve_path fuel v path
  found ← find_entry_in_dir fuel v dir_cluster name
  elim found [
    | some (parent_cluster, entry_idx) ↦ open_existing fuel v flags parent_cluster entry_idx
    | none ↦ open_new fuel v flags dir_cluster name
  ])

-- The walk of `f_lseek`: `none` if the chain ends before `left` more clusters.
pub seek_chain : ℕ → Option Volume → ℕ → M Io (Option ℕ)
seek_chain zero vol clu = pure (some clu)
seek_chain (suc left) vol clu = do
  next ← on_vol vol (λ v. read_fat_entry v clu)
  if leb end_of_chain next then pure none else seek_chain left vol next

pub f_lseek : Option Volume → ℕ → M Io (Unit {0})
f_lseek vol offset = do
  s ← get
  if ltb s.file.size offset && not (has_bit s.file.flags fa_write)
      then deny
      else if offset == s.file.position
      then pure tt
      else (do
        cluster_size ← on_vol vol (λ v. pure (v.sectors_per_cluster * 512))
        target ← seek_chain (offset / cluster_size) vol s.file.start_cluster
        s1 ← get
        elim target [
          | none ↦ set_file (record s1.file {
            current_cluster = 0;
            sector_in_cluster = 0;
            byte_in_sector = 0;
            position = offset / cluster_size;
          })
          | some clu ↦ set_file (record s1.file {
            current_cluster = clu;
            sector_in_cluster = offset % cluster_size / 512 % 65536;
            byte_in_sector = offset % cluster_size % 512;
            position = offset;
          })
        ])

-- The cluster a file now ends at is marked so.
pub end_chain : Option Volume → ℕ → M Io (Unit {0})
end_chain vol clu =
    if leb 2 clu then on_vol vol (λ v. write_fat_entry v clu 0x0FFFFFFF) else pure tt

-- The loop of `f_truncate` is that of `free_chain`, with the error kept in the file.
pub f_truncate : ℕ → Option Volume → M Io (Unit {0})
f_truncate fuel vol = do
  s ← get
  if not (has_bit s.file.flags fa_write) then deny else (do
    clu ← on_vol vol (λ v. read_fat_entry v s.file.current_cluster)
    on_vol vol (λ v. free_chain fuel v clu)
    s1 ← get
    end_chain vol s1.file.current_cluster
    s2 ← get
    set_file (record s2.file { size = s2.file.position; modified = true }))

-- `f_expand`: the length of the chain from `clu` on, its last cluster, and `left` new clusters.
pub count_chain : ℕ → Option Volume → ℕ → ℕ → M Io (ℕ × ℕ)
count_chain zero vol clu count = λ _. hang
count_chain (suc fuel) vol clu count = do
  next ← on_vol vol (λ v. read_fat_entry v clu)
  if leb end_of_chain next then pure (count, clu) else count_chain fuel vol next (add32 count 1)

pub append_clusters : ℕ → Option Volume → ℕ → M Io (Unit {0})
append_clusters zero vol tail = pure tt
append_clusters (suc left) vol tail = do
  new_clu ← take_cluster vol
  on_vol vol (λ v. write_fat_entry v tail new_clu)
  append_clusters left vol new_clu

-- The number of clusters that `f_expand` adds and the cluster it adds them to.
pub to_add : ℕ → ℕ → ℕ → ℕ
to_add cluster_size size count = max (sub32 (add32 size cluster_size) 1 / cluster_size) 1 - count

abbrev pub grown : Io → ℕ → File
grown s size = record s.file { size = size; modified = true }

-- The last part of `f_expand`, with `start` the file's first cluster.
pub expand_chain : ℕ → Option Volume → ℕ → ℕ → ℕ → M Io (Unit {0})
expand_chain fuel vol start cluster_size size =
    if start == 0
    then (do
      new_clu ← take_cluster vol
      s ← get
      set_file (record s.file { start_cluster = new_clu; current_cluster = new_clu })
      append_clusters (to_add cluster_size size 0 - 1) vol new_clu
      s1 ← get
      set_file (grown s1 size))
    else (do
      (count, tail) ← count_chain fuel vol start 1
      if to_add cluster_size size count == 0 then pure tt else (do
        append_clusters (to_add cluster_size size count) vol tail
        s1 ← get
        set_file (grown s1 size)))

pub f_expand : ℕ → Option Volume → ℕ → M Io (Unit {0})
f_expand fuel vol size = do
  s ← get
  if not (has_bit s.file.flags fa_write) then deny else (do
    cluster_size ← on_vol vol (λ v. pure (v.sectors_per_cluster * 512))
    if leb size s.file.size
        then pure tt
        else expand_chain fuel vol s.file.start_cluster cluster_size size)

pub f_getfree : Option Volume → M Disk (ℕ × ℕ)
f_getfree vol =
    with_vol vol (λ v. do free ← count_free_clusters v; pure (free, sub32 (max_cluster v) 2))

-- What the path operations do first: the directory and the entry of an existing path.
pub locate : ℕ → Volume → List ℕ → M Disk (ℕ × ℕ)
locate fuel v path = do
  (parent, name) ← resolve_path fuel v path
  found ← find_entry_in_dir fuel v parent name
  elim found [ none ↦ fail no_file | some e ↦ pure e ]

pub f_chmod : ℕ → Option Volume → List ℕ → ℕ → M Disk (Unit {0})
f_chmod fuel vol path attrs = with_vol vol (λ v. do
  (entry_cluster, entry_idx) ← locate fuel v path
  buf ← read_cluster v entry_cluster (λ j. 0)
  write_cluster v entry_cluster (update buf (entry_idx * 32 + 0x0B) (attrs / 16 * 16)))

pub f_utime : ℕ → Option Volume → List ℕ → ℕ → ℕ → M Disk (Unit {0})
f_utime fuel vol path time date = with_vol vol (λ v. do
  (entry_cluster, entry_idx) ← locate fuel v path
  buf ← read_cluster v entry_cluster (λ j. 0)
  write_cluster v entry_cluster
      (put16 (put16 buf (entry_idx * 32 + 0x16) time) (entry_idx * 32 + 0x18) date))

-- From the entry on: it is marked as deleted, then its chain is freed.
pub unlink_entry : ℕ → Volume → ℕ → ℕ → M Disk (Unit {0})
unlink_entry fuel v entry_cluster entry_idx = do
  buf ← read_cluster v entry_cluster (λ j. 0)
  write_cluster v entry_cluster (update buf (entry_idx * 32) 0xE5)
  free_chain fuel v (start_cluster_of (entry_of buf (entry_idx * 32)))

pub f_unlink : ℕ → Option Volume → List ℕ → M Disk (Unit {0})
f_unlink fuel vol path = with_vol vol (λ v. do
  (parent, name) ← resolve_path fuel v path
  if length name == 0 then fail invalid else (do
    found ← find_entry_in_dir fuel v parent name
    elim found [
      | none ↦ fail no_file
      | some (entry_cluster, entry_idx) ↦ unlink_entry fuel v entry_cluster entry_idx
    ]))
