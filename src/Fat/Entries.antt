-- ===== src/Fat/Entries.antt =====
-- The operations of src/hal/fat32.rs on directory entries: `f_stat`, `f_mkdir`, `f_rename`, and the
-- enumeration of a directory by `f_opendir`, `f_readdir` and `f_findfirst`. `fuel` bounds every
-- walk along a cluster chain and the entries that `f_readdir` skips.
pub mod Opening
use planck_os.Prelude.{
  ℕ, zero, suc, ◌+◌, ◌-◌, ◌*◌, ◌/◌, min, Bool, true, false, not, ◌&&◌, ◌||◌, Option, none, some,
  ◌==◌, ltb, leb, if◌then◌else◌, update, List, [], length, get_or, take,
}
use planck_os.Fat.{
  Disk, Volume, M, hang, ok, err, pure, fail, ◌>>=◌, ◌>>◌, no_file, invalid, exists, not_enabled,
  from_le16, from_le32,
}
use planck_os.Fat.Table.{
  read_fat_entry, write_fat_entry, find_free_cluster, end_of_chain, read_cluster, write_cluster,
}
use planck_os.Fat.Directory.{
  Entry, entry_of, find_entry_in_dir, read_entry_data, resolve_path, find_slot, position, put_name,
  start_cluster_of, read_dir_entry_name, match_pattern, is_skipped,
}
use planck_os.Fat.Transfer.{with_vol}
use planck_os.Fat.Manage.{put_start, locate}

pub record FileInfo : Type 0 where
  pub size : ℕ
  pub attributes : ℕ
  pub start_cluster : ℕ
  pub write_time : ℕ
  pub write_date : ℕ

-- `ATTR_DIRECTORY`
abbrev pub attr_directory : ℕ
attr_directory = 0x10

abbrev pub info_of : Entry → FileInfo
info_of entry = record {
  size = from_le32 (entry 0x1C) (entry 0x1D) (entry 0x1E) (entry 0x1F);
  attributes = entry 0x0B;
  start_cluster = start_cluster_of entry;
  write_time = from_le16 (entry 0x16) (entry 0x17);
  write_date = from_le16 (entry 0x18) (entry 0x19);
}

abbrev pub root_info : Volume → FileInfo
root_info v = record {
  size = 0;
  attributes = attr_directory;
  start_cluster = v.root_cluster;
  write_time = 0;
  write_date = 0;
}

pub f_stat : ℕ → Option Volume → List ℕ → M Disk FileInfo
f_stat fuel vol path = with_vol vol (λ v. do
  (parent, name) ← resolve_path fuel v path
  if length name == 0 then pure (root_info v) else (do
    found ← find_entry_in_dir fuel v parent name
    elim found [
      | none ↦ fail no_file
      | some (entry_cluster, entry_idx) ↦ do
        entry ← read_entry_data v entry_cluster entry_idx
        pure (info_of entry)
    ]))

-- `buf[lo..hi].fill(b)`
abbrev pub fill : (ℕ → ℕ) → ℕ → ℕ → ℕ → (ℕ → ℕ)
fill buf lo hi b = λ j. if leb lo j && ltb j hi then b else buf j

-- The first cluster of a new directory: its entries "." and "..".
abbrev pub dot_entries : ℕ → ℕ → (ℕ → ℕ)
dot_entries new_cluster parent_cluster =
    let one = fill (update (λ j. 0) 0 b'.') 1 11 b' ' in
    let two = put_start (update one 0x0B attr_directory) 0 new_cluster in
    let dots = fill (update (update two 32 b'.') 33 b'.') 34 43 b' ' in
    put_start (update dots (32 + 0x0B) attr_directory) 32 parent_cluster

-- The length of a name before its dot, at most eight.
abbrev pub base_end : Option ℕ → List ℕ → ℕ
base_end none name = min (length name) 8
base_end (some d) name = min d 8

-- The byte `k` of the eleven that `f_mkdir` writes for a name, over the byte `old` of the slot.
abbrev pub mkdir_byte : List ℕ → ℕ → ℕ → ℕ
mkdir_byte name old k =
    if ltb k 8
    then (if ltb k (base_end (position b'.' 0 name) name) then get_or name k b' ' else b' ')
    else elim (position b'.' 0 name) [
      | none ↦ if ltb 8 (length name) then b' ' else old
      | some d ↦ get_or name (d + 1 + (k - 8)) b' '
    ]

abbrev pub put_mkdir_name : (ℕ → ℕ) → ℕ → List ℕ → (ℕ → ℕ)
put_mkdir_name buf off name =
    λ j. if leb off j && ltb j (off + 11) then mkdir_byte name (buf j) (j - off) else buf j

-- `f_mkdir` from the point where the name is known to be free.
pub make_dir : ℕ → Volume → ℕ → List ℕ → M Disk (Unit {0})
make_dir fuel v parent_cluster name = do
  new_cluster ← find_free_cluster v
  write_fat_entry v new_cluster 0x0FFFFFFF
  write_cluster v new_cluster (dot_entries new_cluster parent_cluster)
  (slot_cluster, off, buf) ← find_slot fuel v parent_cluster
  write_cluster v slot_cluster
      (put_start (update (put_mkdir_name buf off name) (off + 0x0B) attr_directory) off new_cluster)

pub f_mkdir : ℕ → Option Volume → List ℕ → M Disk (Unit {0})
f_mkdir fuel vol path = with_vol vol (λ v. do
  (parent_cluster, name) ← resolve_path fuel v path
  if (length name == 0) || ltb 11 (length name) then fail invalid else (do
    found ← find_entry_in_dir fuel v parent_cluster name
    elim found [ some _ ↦ fail exists | none ↦ make_dir fuel v parent_cluster name ]))

-- The entry under its new name: the eleven bytes of the name, then the rest of the old entry.
abbrev pub put_renamed : (ℕ → ℕ) → ℕ → List ℕ → Entry → (ℕ → ℕ)
put_renamed buf off name entry =
    let named = put_name buf off name in
    λ j. if leb (off + 0x0B) j && ltb j (off + 32) then entry (j - off) else named j

-- `f_rename` from the point where the new name is known to be free.
pub move_entry : ℕ → Volume → ℕ → ℕ → ℕ → List ℕ → Entry → M Disk (Unit {0})
move_entry fuel v entry_cluster entry_idx new_parent new_name entry = do
  (dest_cluster, dest_off, dest_buf) ← find_slot fuel v new_parent
  write_cluster v dest_cluster (put_renamed dest_buf dest_off new_name entry)
  old_buf ← read_cluster v entry_cluster (λ j. 0)
  write_cluster v entry_cluster (update old_buf (entry_idx * 32) 0xE5)

pub f_rename : ℕ → Option Volume → List ℕ → List ℕ → M Disk (Unit {0})
f_rename fuel vol old_path new_path = with_vol vol (λ v. do
  (entry_cluster, entry_idx) ← locate fuel v old_path
  buf ← read_cluster v entry_cluster (λ j. 0)
  (new_parent, new_name) ← resolve_path fuel v new_path
  if length new_name == 0 then fail invalid else (do
    found ← find_entry_in_dir fuel v new_parent new_name
    elim found [
      | some _ ↦ fail exists
      | none ↦
          move_entry fuel v entry_cluster entry_idx new_parent new_name
            (entry_of buf (entry_idx * 32))
    ]))

pub record Dir : Type 0 where
  pub start_cluster : ℕ
  pub current_cluster : ℕ
  pub sector_in_cluster : ℕ
  pub entry_index : ℕ
  pub ended : Bool
  pub pattern : List ℕ

pub f_opendir : ℕ → Option Volume → List ℕ → M Disk Dir
f_opendir fuel vol path = with_vol vol (λ v. do
  (dir_cluster, _) ← resolve_path fuel v path
  pure (record {
    start_cluster = dir_cluster;
    current_cluster = dir_cluster;
    sector_in_cluster = 0;
    entry_index = 0;
    ended = false;
    pattern = [];
  }))

-- `pattern` stands for the first `pat_len` bytes of the array.
pub f_findfirst : ℕ → Option Volume → List ℕ → List ℕ → M Disk Dir
f_findfirst fuel vol path pattern = do
  dir ← f_opendir fuel vol path
  pure (record dir { pattern = take (min (length pattern) 11) pattern })

-- The state of `f_readdir`: the disk and the directory object.
pub record Cursor : Type 0 where
  pub disk : Disk
  pub dir : Dir

abbrev pub on_disk : {A : Type 0} → M Disk A → M Cursor A
on_disk m s = elim (m s.disk) [
  | ok a d ↦ ok a (record s { disk = d })
  | err e d ↦ err e (record s { disk = d })
  | hang ↦ hang
]

abbrev pub the_dir : M Cursor Dir
the_dir s = ok s.dir s

abbrev pub set_dir : Dir → M Cursor (Unit {0})
set_dir dir s = ok tt (record s { dir = dir })

-- "If we've exhausted current cluster, move to next": whether there is one.
pub turn_cluster : Volume → M Cursor Bool
turn_cluster v = do
  dir ← the_dir
  if ltb dir.entry_index (v.sectors_per_cluster * 512 / 32) then pure true else (do
    set_dir (record dir { entry_index = 0; sector_in_cluster = 0 })
    next ← on_disk (read_fat_entry v dir.current_cluster)
    now ← the_dir
    if leb end_of_chain next
        then set_dir (record now { ended = true }) >> pure false
        else set_dir (record now { current_cluster = next }) >> pure true)

-- An entry that is listed.
abbrev pub listed : Dir → Entry → Option (List ℕ)
listed dir entry =
    if (entry 0 == 0xE5) || is_skipped (entry 0x0B)
    then none
    else elim (read_dir_entry_name entry) [
      | none ↦ none
      | some name ↦ if match_pattern name dir.pattern then some name else none
    ]

-- The loop of `f_readdir`: the next name, or `none` at the end of the directory.
pub readdir_loop : ℕ → Volume → M Cursor (Option (List ℕ))
readdir_loop zero v = λ _. hang
readdir_loop (suc fuel) v = do
  dir ← the_dir
  if dir.ended then pure none else (do
    go_on ← turn_cluster v
    if not go_on then pure none else (do
      here ← the_dir
      buf ← on_disk (read_cluster v here.current_cluster (λ j. 0))
      set_dir (record here { entry_index = here.entry_index + 1 })
      if entry_of buf (here.entry_index * 32) 0 == 0
          then set_dir (record here { entry_index = here.entry_index + 1; ended = true })
            >> pure none
          else elim (listed here (entry_of buf (here.entry_index * 32))) [
            | some name ↦ pure (some name)
            | none ↦ readdir_loop fuel v
          ]))

pub f_readdir : ℕ → Option Volume → M Cursor (Option (List ℕ))
f_readdir fuel none = fail not_enabled
f_readdir fuel (some v) = readdir_loop fuel v
