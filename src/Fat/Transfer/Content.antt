-- ===== src/Fat/Transfer/Content.antt =====
-- What a file of src/hal/fat32.rs holds from its cursor on: the bytes of the sectors along the
-- chain of its clusters, described without the code's cursor.
use planck_os.Prelude.{
  ℕ, zero, suc, ◌+◌, ◌/◌, ◌%◌, ◌≡◌, ◌<◌, refl, sym, ap, ◌∙◌, ltb, if◌then◌else◌, true, false, arith,
}
use planck_os.Fat.{Disk, Volume, File}
use planck_os.Fat.Table.{cluster_to_lba}
use planck_os.Fat.Table.Entry.{fat_at}
use planck_os.Fat.Transfer.{bump16}

-- The `n`-th sector from the sector `sec` of a cluster on: within a cluster sector follows upon
-- sector, and behind its last one comes the first of the cluster that its entry names.
unfoldable pub sector_after : Volume → Disk → ℕ → ℕ → ℕ → ℕ
sector_after v d clu sec zero = (cluster_to_lba v clu + sec) % 4294967296
sector_after v d clu sec (suc n) =
    let inside = sector_after v d clu (sec + 1) n in
    let behind = sector_after v d (fat_at v d clu) 0 n in
    if ltb (sec + 1) v.sectors_per_cluster then inside else behind

-- The byte `i` bytes behind the file's cursor.
abbrev pub file_byte : Volume → Disk → File → ℕ → ℕ
file_byte v d f i =
    d.sectors
      (sector_after v d f.current_cluster f.sector_in_cluster ((f.byte_in_sector + i) / 512))
      ((f.byte_in_sector + i) % 512)

place :
    (v : Volume) (d : Disk) (clu sec : ℕ) {n n' c c' : ℕ}
    → n ≡ n'
    → c ≡ c'
    → d.sectors (sector_after v d clu sec n) c ≡ d.sectors (sector_after v d clu sec n') c'
place v d clu sec {n = n} {c' = c'} row column =
    ap (λ k. d.sectors (sector_after v d clu sec n) k) column
    ∙ ap (λ r. d.sectors (sector_after v d clu sec r) c') row

-- A cursor behind its sector stands for one at the start of the next.
cross :
    (v : Volume) (d : Disk) (f : File) (clu sec i : ℕ)
    → f.byte_in_sector ≡ 512
    → ((n : ℕ)
        → sector_after v d f.current_cluster f.sector_in_cluster (suc n)
          ≡ sector_after v d clu sec n)
    → file_byte v d
        (record f { byte_in_sector = 0; sector_in_cluster = sec; current_cluster = clu })
        i
      ≡ file_byte v d f i
cross v d f clu sec i e step =
    let row : (f.byte_in_sector + i) / 512 ≡ suc ((0 + i) / 512) = omega (arith, e) in
    let column : (f.byte_in_sector + i) % 512 ≡ (0 + i) % 512 = omega (arith, e) in
    ap (λ l. d.sectors l ((0 + i) % 512)) (sym (step ((0 + i) / 512)))
    ∙ place v d f.current_cluster f.sector_in_cluster (sym row) (sym column)

pub file_byte-inside :
    (v : Volume) (d : Disk) (f : File) (i : ℕ)
    → f.byte_in_sector ≡ 512
    → f.sector_in_cluster < 65535
    → ltb (bump16 f.sector_in_cluster 1) v.sectors_per_cluster ≡ true
    → file_byte v d
        (record f { byte_in_sector = 0; sector_in_cluster = bump16 f.sector_in_cluster 1 })
        i
      ≡ file_byte v d f i
unfolding sector_after
file_byte-inside v d f i e low h =
    let same : bump16 f.sector_in_cluster 1 ≡ f.sector_in_cluster + 1 = omega arith in
    cross v d f f.current_cluster (bump16 f.sector_in_cluster 1) i e
      (λ n. rw same (rw (rw same at h) refl))

pub file_byte-behind :
    (v : Volume) (d : Disk) (f : File) (i : ℕ)
    → f.byte_in_sector ≡ 512
    → f.sector_in_cluster < 65535
    → ltb (bump16 f.sector_in_cluster 1) v.sectors_per_cluster ≡ false
    → file_byte v d
        (record f {
          byte_in_sector = 0;
          sector_in_cluster = 0;
          current_cluster = fat_at v d f.current_cluster;
        })
        i
      ≡ file_byte v d f i
unfolding sector_after
file_byte-behind v d f i e low h =
    let same : bump16 f.sector_in_cluster 1 ≡ f.sector_in_cluster + 1 = omega arith in
    cross v d f (fat_at v d f.current_cluster) 0 i e (λ n. rw (rw same at h) refl)

-- The cursor's own sector holds the next bytes.
pub file_byte-here :
    (v : Volume) (d : Disk) (f : File) (i : ℕ)
    → f.byte_in_sector + i < 512
    → file_byte v d f i
      ≡ d.sectors
          ((cluster_to_lba v f.current_cluster + f.sector_in_cluster) % 4294967296)
          (f.byte_in_sector + i)
unfolding sector_after
file_byte-here v d f i h =
    let row : (f.byte_in_sector + i) / 512 ≡ 0 = omega arith in
    let column : (f.byte_in_sector + i) % 512 ≡ f.byte_in_sector + i = omega arith in
    place v d f.current_cluster f.sector_in_cluster row column
