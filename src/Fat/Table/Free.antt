-- ===== src/Fat/Table/Free.antt =====
-- The searches of src/hal/fat32.rs for free clusters: `find_free_cluster`, `count_free_clusters`.
use planck_os.Prelude.{
  ℕ, zero, suc, ◌+◌, ◌-◌, ◌*◌, ◌≤◌, ◌<◌, ◌≡◌, ◌≢◌, ◌⊎◌, refl, ◌∙◌, ap, ◌==◌, if◌then◌else◌, arith,
  Bool-cases, inl, inr, ==→eq, ==→ne, ℕ_discrete,
}
use planck_os.Fat.{Disk, Volume, Run, ok, err, pure, add32, bind_ok, mkfs_aborted}
use planck_os.Fat.Table.{
  read_fat_entry, find_free_from, find_free_cluster, count_free_from, count_free_clusters,
  max_cluster,
}
use planck_os.Fat.Table.Entry.{IsTable, IsReady, fat_at, read_fat_entry-ok}

-- What the search returns, of a table `f` and `left` clusters from `c` on.
abbrev pub Searched : (ℕ → ℕ) → ℕ → ℕ → Run Disk ℕ → Disk → Type 0
Searched f c last run d =
    ((k : ℕ) × (run ≡ ok k d)
      × (c ≤ k)
      × (k < last)
      × (f k ≡ 0)
      × ((j : ℕ) → c ≤ j → j < k → f j ≢ 0))
    ⊎ ((run ≡ err mkfs_aborted d) × ((j : ℕ) → c ≤ j → j < last → f j ≢ 0))

extend :
    (f : ℕ → ℕ) (c last : ℕ) (run run' : Run Disk ℕ) (d : Disk)
    → run ≡ run'
    → f c ≢ 0
    → Searched f (c + 1) last run' d
    → Searched f c last run d
extend f c last run run' d e ne (inl (k, eq, low, high, zero_, before)) = inl (
  k,
  e ∙ eq,
  omega arith,
  high,
  zero_,
  λ j a b. elim (ℕ_discrete j c) [ yes same ↦ rw same ne | no other ↦ before j (omega arith) b ],
)
extend f c last run run' d e ne (inr (eq, all)) = inr (
  e ∙ eq,
  λ j a b. elim (ℕ_discrete j c) [ yes same ↦ rw same ne | no other ↦ all j (omega arith) b ],
)

-- How many of `left` clusters from `c` on have a zero entry in the table `f`.
abbrev pub free_count : (ℕ → ℕ) → ℕ → ℕ → ℕ
free_count f zero c = 0
free_count f (suc left) c = (if f c == 0 then 1 else 0) + free_count f left (c + 1)

module _ (v : Volume) (d : Disk) (t : IsTable v) (r : IsReady v d) where
  find_free_from-Searched :
      (left c : ℕ)
      → c + left ≤ v.sectors_per_fat * 128
      → Searched (fat_at v d) c (c + left) (find_free_from left c v d) d
  unfolding find_free_from
  find_free_from-Searched zero c h = inr (refl, λ j a b. absurd (omega arith))
  find_free_from-Searched (suc left) c h =
      let step =
        bind_ok (read_fat_entry v c)
          (λ entry. if entry == 0 then pure c else find_free_from left (c + 1) v) d
          (read_fat_entry-ok v d c t r (omega arith)) in
      elim (Bool-cases (fat_at v d c == 0)) [
        | inl z ↦ inl (
          c,
          step ∙ rw z,
          omega arith,
          omega arith,
          ==→eq (fat_at v d c) 0 z,
          λ j a b. absurd (omega arith),
        )
        | inr nz ↦
            let sum : c + 1 + left ≡ c + suc left = omega arith in
            extend (fat_at v d) c (c + suc left) (find_free_from (suc left) c v d)
              (find_free_from left (c + 1) v d) d (step ∙ rw nz) (==→ne (fat_at v d c) 0 nz)
              (rw sum at (find_free_from-Searched left (c + 1) (omega arith)))
      ]

  count_free_from-eq :
      (left c count : ℕ)
      → c + left ≤ v.sectors_per_fat * 128
      → count + left < 4294967296
      → count_free_from left c count v d ≡ ok (count + free_count (fat_at v d) left c) d
  unfolding count_free_from
  count_free_from-eq zero c count h k = ap (λ n. ok n d) (omega arith)
  count_free_from-eq (suc left) c count h k =
      let step =
        bind_ok (read_fat_entry v c)
          (λ entry. count_free_from left (c + 1) (if entry == 0 then add32 count 1 else count) v) d
          (read_fat_entry-ok v d c t r (omega arith)) in
      elim (Bool-cases (fat_at v d c == 0)) [
        | inl z ↦
            step
            ∙ rw z (
                count_free_from-eq left (c + 1) (add32 count 1) (omega arith) (omega arith)
                ∙ ap (λ n. ok n d) (omega arith))
        | inr nz ↦
            step
            ∙ rw nz (
                count_free_from-eq left (c + 1) count (omega arith) (omega arith)
                ∙ ap (λ n. ok n d) (omega arith))
      ]

-- On a volume with at least one copy of the table, whose tables, of at least one sector and fewer
-- than 2 ^ 32 bytes each (so that the product of sectors and 512 does not wrap), lie below sector
-- 2 ^ 31 and can be read and written, the search returns the first cluster from 2 on with a zero entry, or `MkfsAborted` if no
-- cluster of the table from 2 on has one. It changes nothing.
pub find_free_cluster-Searched :
    (v : Volume) (d : Disk)
    → IsTable v
    → IsReady v d
    → 1 ≤ v.sectors_per_fat
    → Searched (fat_at v d) 2 (v.sectors_per_fat * 128) (find_free_cluster v d) d
unfolding find_free_cluster
find_free_cluster-Searched v d t r h =
    let rounds : 2 + (max_cluster v - 2) ≡ v.sectors_per_fat * 128 = omega (arith, t.small) in
    rw rounds at (find_free_from-Searched v d t r (max_cluster v - 2) 2 (omega arith))

-- On a volume with at least one copy of the table, whose tables, of at least one sector and fewer
-- than 2 ^ 32 bytes each (so that the product of sectors and 512 does not wrap), lie below sector
-- 2 ^ 31 and can be read and written, the count of `f_getfree` is the number of zero entries of the table's clusters from 2
-- on. It changes nothing.
pub count_free_clusters-eq :
    (v : Volume) (d : Disk)
    → IsTable v
    → IsReady v d
    → 1 ≤ v.sectors_per_fat
    → count_free_clusters v d ≡ ok (free_count (fat_at v d) (max_cluster v - 2) 2) d
unfolding count_free_clusters
count_free_clusters-eq v d t r h =
    count_free_from-eq v d t r (max_cluster v - 2) 2 0 (omega (arith, t.small))
      (omega (arith, t.small))
    ∙ ap (λ n. ok n d) (omega arith)
