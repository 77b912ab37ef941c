-- ===== src/Fat/Table/Cluster.antt =====
-- `read_cluster` and `write_cluster` of src/hal/fat32.rs on the sectors of a cluster.
use planck_os.Prelude.{
  ℕ, zero, suc, ◌+◌, ◌*◌, ◌/◌, ◌%◌, ◌≤◌, ◌<◌, ◌≡◌, ◌≢◌, ◌⊎◌, refl, ◌∙◌, sym, ap, true, ◌==◌,
  if◌then◌else◌, update, arith, update_self, update_ne, ne→==, Bool-cases, ==→eq, ==→ne, inl, inr,
}
use planck_os.Fat.{
  Disk, Sector, Volume, ok, read_sector, write_sector, add32, bind_ok, read_sector-ok,
  write_sector-ok,
}
use planck_os.Fat.Table.{read_sectors, write_sectors, read_cluster, write_cluster, cluster_to_lba}

-- The sectors of a range are those that hold the buffer from its start on.
abbrev pub Holds : Disk → ℕ → ℕ → ℕ → (ℕ → ℕ) → Type 0
Holds d lba i last buf = (k j : ℕ) → i ≤ k → k < last → d.sectors (lba + k) j ≡ buf (k * 512 + j)

-- Outside a range of sectors the disk is as before.
abbrev pub Beside : Disk → Disk → ℕ → ℕ → Type 0
Beside d d' low high = (k : ℕ) → (k < low) ⊎ (high ≤ k) → d'.sectors k ≡ d.sectors k

nudge :
    (lba i left k : ℕ)
    → (k < lba + i) ⊎ (lba + i + suc left ≤ k)
    → (k < lba + (i + 1)) ⊎ (lba + (i + 1) + left ≤ k)
nudge lba i left k (inl h) = inl (omega arith)
nudge lba i left k (inr h) = inr (omega arith)

off_by : (a left k : ℕ) → (k < a) ⊎ (a + suc left ≤ k) → k ≢ a
off_by a left k (inl h) = omega arith
off_by a left k (inr h) = omega arith

write_at :
    (lba i : ℕ) (buf : Sector) (d : Disk)
    → lba + i < 4294967296
    → d.writable (lba + i) ≡ true
    → write_sector (add32 lba i) buf d
      ≡ ok tt (record d { sectors = update d.sectors (lba + i) buf })
write_at lba i buf d h w =
    let here : add32 lba i ≡ lba + i = omega arith in rw here (write_sector-ok (lba + i) buf d w)

read_at :
    (lba i : ℕ) (d : Disk)
    → lba + i < 4294967296
    → d.readable (lba + i) ≡ true
    → read_sector (add32 lba i) d ≡ ok (d.sectors (lba + i)) d
read_at lba i d h r =
    let here : add32 lba i ≡ lba + i = omega arith in rw here (read_sector-ok (lba + i) d r)

write_sectors-ok :
    (left i lba : ℕ) (buf : ℕ → ℕ) (d : Disk)
    → lba + i + left < 4294967296
    → ((k : ℕ) → i ≤ k → k < i + left → d.writable (lba + k) ≡ true)
    → (d' : Disk) × (write_sectors left i lba buf d ≡ ok tt d')
      × (d'.readable ≡ d.readable)
      × Holds d' lba i (i + left) buf
      × Beside d d' (lba + i) (lba + i + left)
unfolding write_sectors
write_sectors-ok zero i lba buf d h w =
    (d, refl, refl, λ k j a b. absurd (omega arith), λ k s. refl)
write_sectors-ok (suc left) i lba buf d h w =
    let sector : Sector = λ off. buf (i * 512 + off) in
    let d1 = record d { sectors = update d.sectors (lba + i) sector } in
    let (d', run, same, holds, beside) =
      write_sectors-ok left (i + 1) lba buf d1 (omega arith)
        (λ k a b. w k (omega arith) (omega arith)) in
    (
      d',
      bind_ok (write_sector (add32 lba i) sector) (λ _. write_sectors left (i + 1) lba buf) d
            (write_at lba i sector d (omega arith) (w i (omega arith) (omega arith)))
          ∙ run,
      same,
      (λ k j a b. elim (Bool-cases (k == i)) [
        | inl e ↦
            let here = ==→eq k i e in
            ap (λ f. f j)
              (beside (lba + k) (inl (omega arith))
                ∙ ap (update d.sectors (lba + i) sector) (ap (λ x. lba + x) here)
                ∙ update_self d.sectors (lba + i) sector)
            ∙ ap (λ x. buf (x * 512 + j)) (sym here)
        | inr e ↦ let apart = ==→ne k i e in holds k j (omega arith) (omega arith)
      ]),
      (λ k s.
          beside k (nudge lba i left k s)
          ∙ update_ne d.sectors (lba + i) k sector (off_by (lba + i) left k s)),
    )

read_sectors-ok :
    (left i lba : ℕ) (buf : ℕ → ℕ) (d : Disk)
    → lba + i + left < 4294967296
    → ((k : ℕ) → i ≤ k → k < i + left → d.readable (lba + k) ≡ true)
    → (out : ℕ → ℕ) × (read_sectors left i lba buf d ≡ ok out d)
      × ((off : ℕ) → off / 512 < i → out off ≡ buf off)
      × ((off : ℕ)
          → i ≤ off / 512
          → off / 512 < i + left
          → out off ≡ d.sectors (lba + off / 512) (off % 512))
unfolding read_sectors
read_sectors-ok zero i lba buf d h r = (buf, refl, λ off a. refl, λ off a b. absurd (omega arith))
read_sectors-ok (suc left) i lba buf d h r =
    let sector = d.sectors (lba + i) in
    let buf1 : ℕ → ℕ = λ off. if off / 512 == i then sector (off % 512) else buf off in
    let (out, run, before, after) =
      read_sectors-ok left (i + 1) lba buf1 d (omega arith)
        (λ k a b. r k (omega arith) (omega arith)) in
    (
      out,
      bind_ok (read_sector (add32 lba i))
            (λ sector.
              read_sectors left (i + 1) lba
                (λ off. if off / 512 == i then sector (off % 512) else buf off))
            d (read_at lba i d (omega arith) (r i (omega arith) (omega arith)))
          ∙ run,
      (λ off a. before off (omega arith) ∙ rw (ne→== (off / 512) i (omega arith)) refl),
      (λ off a b. elim (Bool-cases (off / 512 == i)) [
        | inl e ↦
            before off (omega (arith, ==→eq (off / 512) i e))
            ∙ rw e refl
            ∙ ap (λ x. d.sectors (lba + x) (off % 512)) (sym (==→eq (off / 512) i e))
        | inr e ↦ let apart = ==→ne (off / 512) i e in after off (omega arith) (omega arith)
      ]),
    )

whole : (off : ℕ) → off / 512 * 512 + off % 512 ≡ off
whole off = omega arith

shifted : (lba n k : ℕ) → (k < lba) ⊎ (lba + n ≤ k) → (k < lba + 0) ⊎ (lba + 0 + n ≤ k)
shifted lba n k (inl h) = inl (omega arith)
shifted lba n k (inr h) = inr (omega arith)

-- On a disk that lets the sectors of a cluster be read and written, which lie below sector 2 ^ 32,
-- `write_cluster` succeeds and changes no other sector, and `read_cluster` then gives back the
-- bytes that were written, into whatever buffer, and leaves the disk as it is.
pub read_cluster-write_cluster :
    (v : Volume) (c : ℕ) (buf old : ℕ → ℕ) (d : Disk)
    → cluster_to_lba v c + v.sectors_per_cluster < 4294967296
    → ((k : ℕ) → k < v.sectors_per_cluster → d.readable (cluster_to_lba v c + k) ≡ true)
    → ((k : ℕ) → k < v.sectors_per_cluster → d.writable (cluster_to_lba v c + k) ≡ true)
    → (d' : Disk) × (out : ℕ → ℕ) × (write_cluster v c buf d ≡ ok tt d')
      × (read_cluster v c old d' ≡ ok out d')
      × ((off : ℕ) → off < v.sectors_per_cluster * 512 → out off ≡ buf off)
      × Beside d d' (cluster_to_lba v c) (cluster_to_lba v c + v.sectors_per_cluster)
unfolding read_cluster write_cluster
read_cluster-write_cluster v c buf old d h r w =
    let lba = cluster_to_lba v c in
    let n = v.sectors_per_cluster in
    let (d', run, same, holds, beside) =
      write_sectors-ok n 0 lba buf d (omega arith) (λ k a b. w k (omega arith)) in
    let (out, run', before, after) =
      read_sectors-ok n 0 lba old d' (omega arith)
        (λ k a b. ap (λ f. f (lba + k)) same ∙ r k (omega arith)) in
    (
      d',
      out,
      run,
      run',
      (λ off a.
          after off (omega arith) (omega arith)
          ∙ holds (off / 512) (off % 512) (omega arith) (omega arith)
          ∙ ap buf (whole off)),
      (λ k s. beside k (shifted lba n k s)),
    )
