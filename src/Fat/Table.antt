-- ===== src/Fat/Table.antt =====
-- The file allocation table: `read_fat_entry`, `write_fat_entry`, `find_free_cluster`,
-- `count_free_clusters`, the loop that frees a chain, and the cluster transfers of
-- src/hal/fat32.rs.
pub mod Entry
pub mod Free
pub mod Chain
pub mod Reading
pub mod Running
pub mod Cluster
use planck_os.Prelude.{
  ℕ, zero, suc, ◌+◌, ◌-◌, ◌*◌, ◌/◌, ◌%◌, Bool, ◌&&◌, ◌==◌, ltb, leb, if◌then◌else◌,
}
use planck_os.Fat.{
  Disk, Sector, Volume, M, Run, ok, err, hang, pure, fail, ◌>>=◌, ◌>>◌, add32, sub32, mul32,
  read_sector, write_sector, from_le32, put32, mkfs_aborted,
}

abbrev pub end_of_chain : ℕ
end_of_chain = 0xFFFFFF8

abbrev pub cluster_to_lba : Volume → ℕ → ℕ
cluster_to_lba v cluster = add32 v.data_region_lba (mul32 (sub32 cluster 2) v.sectors_per_cluster)

abbrev pub fat_sector : Volume → ℕ → ℕ
fat_sector v cluster = add32 v.fat_region_lba (mul32 cluster 4 / 512)

abbrev pub fat_offset : ℕ → ℕ
fat_offset cluster = mul32 cluster 4 % 512

abbrev pub entry_at : Sector → ℕ → ℕ
entry_at buf off = from_le32 (buf off) (buf (off + 1)) (buf (off + 2)) (buf (off + 3))

pub read_fat_entry : Volume → ℕ → M Disk ℕ
read_fat_entry v cluster = do
  buf ← read_sector (fat_sector v cluster)
  pure (entry_at buf (fat_offset cluster) % 268435456)

-- The loop over the copies of the table, `left` of them from `fat_idx` on.
pub write_copies : ℕ → ℕ → Volume → ℕ → Sector → M Disk (Unit {0})
write_copies zero fat_idx v sector buf = pure tt
write_copies (suc left) fat_idx v sector buf = do
  write_sector
      (sub32 (add32 (add32 v.fat_region_lba (mul32 fat_idx v.sectors_per_fat)) sector)
        v.fat_region_lba)
      buf
  write_copies left (fat_idx + 1) v sector buf

-- The upper four bits of an entry are kept.
abbrev pub merge_entry : ℕ → ℕ → ℕ
merge_entry old val = old / 268435456 * 268435456 + val % 268435456

pub write_fat_entry : Volume → ℕ → ℕ → M Disk (Unit {0})
write_fat_entry v cluster val = do
  buf ← read_sector (fat_sector v cluster)
  write_copies v.num_fats 0 v (fat_sector v cluster)
      (put32 buf (fat_offset cluster) (merge_entry (entry_at buf (fat_offset cluster)) val))

abbrev pub max_cluster : Volume → ℕ
max_cluster v = mul32 v.sectors_per_fat 512 / 4

-- `for c in 2..max_cluster`, `left` rounds from `c` on.
pub find_free_from : ℕ → ℕ → Volume → M Disk ℕ
find_free_from zero c v = fail mkfs_aborted
find_free_from (suc left) c v = do
  entry ← read_fat_entry v c
  if entry == 0 then pure c else find_free_from left (c + 1) v

pub find_free_cluster : Volume → M Disk ℕ
find_free_cluster v = find_free_from (max_cluster v - 2) 2 v

pub count_free_from : ℕ → ℕ → ℕ → Volume → M Disk ℕ
count_free_from zero c count v = pure count
count_free_from (suc left) c count v = do
  entry ← read_fat_entry v c
  count_free_from left (c + 1) (if entry == 0 then add32 count 1 else count) v

pub count_free_clusters : Volume → M Disk ℕ
count_free_clusters v = count_free_from (max_cluster v - 2) 2 0 v

abbrev pub in_chain : ℕ → Bool
in_chain clu = leb 2 clu && ltb clu end_of_chain

-- `while clu >= 2 && clu < 0xFFFFFF8 { next = entry; entry = 0; clu = next }`
pub free_chain : ℕ → Volume → ℕ → M Disk (Unit {0})
free_chain zero v clu = λ _. hang
free_chain (suc fuel) v clu =
    if in_chain clu
    then (do next ← read_fat_entry v clu; write_fat_entry v clu 0; free_chain fuel v next)
    else pure tt

-- The sectors of a cluster, `left` of them from `i` on, into or out of a buffer.
pub read_sectors : ℕ → ℕ → ℕ → (ℕ → ℕ) → M Disk (ℕ → ℕ)
read_sectors zero i lba buf = pure buf
read_sectors (suc left) i lba buf = do
  sector ← read_sector (add32 lba i)
  read_sectors left (i + 1) lba (λ off. if off / 512 == i then sector (off % 512) else buf off)

pub write_sectors : ℕ → ℕ → ℕ → (ℕ → ℕ) → M Disk (Unit {0})
write_sectors zero i lba buf = pure tt
write_sectors (suc left) i lba buf = do
  write_sector (add32 lba i) (λ off. buf (i * 512 + off))
  write_sectors left (i + 1) lba buf

pub read_cluster : Volume → ℕ → (ℕ → ℕ) → M Disk (ℕ → ℕ)
read_cluster v cluster buf = read_sectors v.sectors_per_cluster 0 (cluster_to_lba v cluster) buf

pub write_cluster : Volume → ℕ → (ℕ → ℕ) → M Disk (Unit {0})
write_cluster v cluster buf = write_sectors v.sectors_per_cluster 0 (cluster_to_lba v cluster) buf
