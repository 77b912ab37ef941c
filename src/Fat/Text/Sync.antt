-- ===== src/Fat/Text/Sync.antt =====
-- What `f_sync` of src/hal/fat32.rs leaves in the directory.
use planck_os.Prelude.{
  ℕ, ◌+◌, ◌*◌, ◌^◌, ◌≤◌, ◌<◌, ◌≡◌, ◌⊎◌, refl, ◌∙◌, true, false, some, arith, update, ltb_of_le,
}
use planck_os.Fat.{
  Volume, File, ok, Sector, from_le32, bind_ok, pure, ◌>>◌, read_sector, write_sector, ◌>>=◌,
}
use planck_os.Fat.Table.{cluster_to_lba}
use planck_os.Fat.Directory.{entry_of, start_cluster_of}
use planck_os.Fat.Transfer.{Io, get, set_file}
unfoldable use planck_os.Fat.Transfer.{on_vol}
use planck_os.Fat.Text.{put_entry, write_back, f_sync}

-- The fields of a directory's entry.
put_entry-size :
    (f : File) (off : ℕ) (sc : Sector)
    → f.size < 2 ^ 32
    → let e = entry_of (put_entry f off sc) off in
      from_le32 (e 0x1C) (e 0x1D) (e 0x1E) (e 0x1F) ≡ f.size
put_entry-size f off sc h = ground arith

put_entry-start :
    (f : File) (off : ℕ) (sc : Sector)
    → f.start_cluster < 2 ^ 32
    → start_cluster_of (entry_of (put_entry f off sc) off) ≡ f.start_cluster
put_entry-start f off sc h = ground arith

put_entry-rest :
    (f : File) (off : ℕ) (sc : Sector) (j : ℕ)
    → (j < off + 0x14) ⊎ (((off + 0x16 ≤ j) × (j < off + 0x1A)) ⊎ (off + 0x20 ≤ j))
    → put_entry f off sc j ≡ sc j
put_entry-rest f off sc j h = ground arith

on_vol-read_sector :
    (v : Volume) (lba : ℕ) (s : Io)
    → s.disk.readable lba ≡ true
    → on_vol (some v) (λ w. read_sector lba) s ≡ ok (s.disk.sectors lba) s
unfolding on_vol read_sector
on_vol-read_sector v lba s r = rw (r, on_vol, read_sector) refl

on_vol-write_sector :
    (v : Volume) (lba : ℕ) (sc : Sector) (s : Io)
    → s.disk.writable lba ≡ true
    → on_vol (some v) (λ w. write_sector lba sc) s
      ≡ ok tt (record s { disk = record s.disk { sectors = update s.disk.sectors lba sc } })
unfolding on_vol write_sector
on_vol-write_sector v lba sc s w = rw (w, on_vol, write_sector) refl

-- The writing, for an entry in the sector.
write_back-entry :
    (v : Volume) (lba off : ℕ) (sc : Sector) (s : Io)
    → off + 0x20 ≤ 512
    → s.disk.writable lba ≡ true
    → write_back (some v) lba off sc s
      ≡ ok (some tt) (record s {
        disk = record s.disk { sectors = update s.disk.sectors lba (put_entry s.file off sc) };
        file = record s.file { modified = false };
      })
unfolding write_back
write_back-entry v lba off sc s h w = rw (ltb_of_le 512 (off + 0x20) h) (
    bind_ok (on_vol (some v) (λ x. write_sector lba (put_entry s.file off sc)))
      (λ u. get >>= λ s1. set_file (record s1.file { modified = false }) >> pure (some tt)) s
      (on_vol-write_sector v lba (put_entry s.file off sc) s w))

-- A file that was modified, whose entry is among the first 16 of its directory's cluster and whose
-- size and first cluster have 32 bits, over a disk that lets the entry's sector be read and
-- written: after `f_sync` the entry states the file's size and first cluster, every other byte of
-- the sector and every other sector is as it was, and the file counts as not modified.
pub f_sync-entry :
    (v : Volume) (s : Io)
    → s.file.modified ≡ true
    → s.file.dir_offset < 16
    → s.file.size < 2 ^ 32
    → s.file.start_cluster < 2 ^ 32
    → s.disk.readable (cluster_to_lba v s.file.dir_sector) ≡ true
    → s.disk.writable (cluster_to_lba v s.file.dir_sector) ≡ true
    → let lba = cluster_to_lba v s.file.dir_sector in
      let off = s.file.dir_offset * 32 in
      (sc : Sector) × (f_sync (some v) s
        ≡ ok (some tt) (record s {
          disk = record s.disk { sectors = update s.disk.sectors lba sc };
          file = record s.file { modified = false };
        }))
      × (let e = entry_of sc off in from_le32 (e 0x1C) (e 0x1D) (e 0x1E) (e 0x1F) ≡ s.file.size)
      × (start_cluster_of (entry_of sc off) ≡ s.file.start_cluster)
      × ((j : ℕ)
          → (j < off + 0x14) ⊎ (((off + 0x16 ≤ j) × (j < off + 0x1A)) ⊎ (off + 0x20 ≤ j))
          → sc j ≡ s.disk.sectors lba j)
unfolding f_sync on_vol
f_sync-entry v s m o z c r w =
    let lba = cluster_to_lba v s.file.dir_sector in
    let off = s.file.dir_offset * 32 in
    let old = s.disk.sectors lba in
    let s' : Io = record s { file = record s.file { modified = true } } in
    (
      put_entry s.file off old,
      rw m (
          bind_ok (on_vol (some v) (λ w. read_sector lba)) (λ sc. write_back (some v) lba off sc) s'
            (on_vol-read_sector v lba s' r)
          ∙ write_back-entry v lba off old s' (omega arith) w),
      put_entry-size s.file off old z,
      put_entry-start s.file off old c,
      λ j h. put_entry-rest s.file off old j h,
    )
