-- ===== src/Fat/Table/Running.antt =====
-- No operation of src/hal/fat32.rs on a single entry of the table, nor the search for a free
-- cluster, runs forever, whatever the disk holds and whichever sectors it refuses.
use planck_os.Prelude.{ℕ, zero, suc, ◌+◌, ◌-◌, ◌==◌}
use planck_os.Fat.{Disk, Volume, Sector, read_sector}
use planck_os.Fat.Outcome.{Ends, Ends-if, Halts, Halts-bind, read_sector-Halts, write_sector-Halts}
use planck_os.Fat.Table.{
  read_fat_entry, write_fat_entry, write_copies, find_free_from, find_free_cluster, fat_sector,
  max_cluster,
}

pub read_fat_entry-Halts : (v : Volume) (c : ℕ) (d : Disk) → Halts (read_fat_entry v c d)
unfolding read_fat_entry Ends
read_fat_entry-Halts v c d =
    Halts-bind (read_sector (fat_sector v c) d) _ (read_sector-Halts (fat_sector v c) d) (λ a t. tt)

write_copies-Halts :
    (left idx : ℕ) (v : Volume) (sector : ℕ) (buf : Sector) (d : Disk)
    → Halts (write_copies left idx v sector buf d)
unfolding write_copies Ends
write_copies-Halts zero idx v sector buf d = tt
write_copies-Halts (suc left) idx v sector buf d =
    Halts-bind _ _ (write_sector-Halts _ buf d)
      (λ a t. write_copies-Halts left (idx + 1) v sector buf t)

pub write_fat_entry-Halts : (v : Volume) (c val : ℕ) (d : Disk) → Halts (write_fat_entry v c val d)
unfolding write_fat_entry Ends
write_fat_entry-Halts v c val d =
    Halts-bind (read_sector (fat_sector v c) d) _ (read_sector-Halts (fat_sector v c) d)
      (λ a t. write_copies-Halts v.num_fats 0 v (fat_sector v c) _ t)

find_free_from-Halts : (left c : ℕ) (v : Volume) (d : Disk) → Halts (find_free_from left c v d)
unfolding find_free_from Ends
find_free_from-Halts zero c v d = tt
find_free_from-Halts (suc left) c v d =
    Halts-bind (read_fat_entry v c d) _ (read_fat_entry-Halts v c d)
      (λ a t. Ends-if _ _ (a == 0) _ _ t (λ _. tt) (λ _. find_free_from-Halts left (c + 1) v t))

pub find_free_cluster-Halts : (v : Volume) (d : Disk) → Halts (find_free_cluster v d)
unfolding find_free_cluster
find_free_cluster-Halts v d = find_free_from-Halts (max_cluster v - 2) 2 v d
