-- ===== src/Fat/Table/Entry.antt =====
-- `read_fat_entry` and `write_fat_entry` of src/hal/fat32.rs implement a map from clusters to
-- 28-bit entries.
use planck_os.Prelude.{
  ℕ, zero, suc, ◌+◌, ◌*◌, ◌/◌, ◌%◌, ◌≤◌, ◌<◌, ◌≡◌, ◌≢◌, ◌⊎◌, refl, ◌∙◌, sym, ap, true, update,
  arith, inl, inr, update_ne, update_self, dec_lt, ℕ_discrete, eq→==, ne→==,
}
use planck_os.Fat.{
  Disk, Sector, Volume, ok, pure, add32, sub32, mul32, read_sector, write_sector, put32, bind_ok,
  read_sector-ok, write_sector-ok,
}
use planck_os.Fat.Table.{
  fat_sector, fat_offset, entry_at, read_fat_entry, write_fat_entry, write_copies, merge_entry,
}

-- A volume with at least one copy of the table, whose tables lie below sector 2^31 and have fewer
-- than 2^32 bytes each, so that four times the number of a cluster of the table does not wrap.
pub record IsTable (v : Volume) : Type 0 where
  pub copies : 1 ≤ v.num_fats
  pub fits : v.fat_region_lba + v.num_fats * v.sectors_per_fat < 2147483648
  pub small : v.sectors_per_fat * 512 < 4294967296

-- The sectors of the tables can be read and written.
pub record IsReady (v : Volume) (d : Disk) : Type 0 where
  pub reads :
      (lba : ℕ)
      → v.fat_region_lba ≤ lba
      → lba < v.fat_region_lba + v.num_fats * v.sectors_per_fat
      → d.readable lba ≡ true
  pub writes :
      (lba : ℕ)
      → v.fat_region_lba ≤ lba
      → lba < v.fat_region_lba + v.num_fats * v.sectors_per_fat
      → d.writable lba ≡ true

-- The entry of a cluster, as `read_fat_entry` returns it.
abbrev pub fat_at : Volume → Disk → ℕ → ℕ
fat_at v d c = entry_at (d.sectors (fat_sector v c)) (fat_offset c) % 268435456

abbrev pub InTable : Volume → ℕ → Type 0
InTable v c = c < v.sectors_per_fat * 128

entry_at-put32_self : (buf : Sector) (off x : ℕ) → entry_at (put32 buf off x) off ≡ x % 4294967296
entry_at-put32_self buf off x = ground arith

entry_at-put32_ne :
    (buf : Sector) (off off' x : ℕ)
    → (off + 4 ≤ off')
    → entry_at (put32 buf off x) off' ≡ entry_at buf off'
entry_at-put32_ne buf off off' x h = ground arith

entry_at-put32_gt :
    (buf : Sector) (off off' x : ℕ)
    → (off' + 4 ≤ off)
    → entry_at (put32 buf off x) off' ≡ entry_at buf off'
entry_at-put32_gt buf off off' x h = ground arith

entry_at-put32 :
    (buf : Sector) (off off' x : ℕ)
    → (off + 4 ≤ off') ⊎ (off' + 4 ≤ off)
    → entry_at (put32 buf off x) off' ≡ entry_at buf off'
entry_at-put32 buf off off' x (inl h) = entry_at-put32_ne buf off off' x h
entry_at-put32 buf off off' x (inr h) = entry_at-put32_gt buf off off' x h

-- Two clusters of one sector have their entries apart.
offsets_apart :
    (off off' c j : ℕ)
    → off ≡ 4 * (c % 128)
    → off' ≡ 4 * (j % 128)
    → c / 128 ≡ j / 128
    → c ≢ j
    → (off + 4 ≤ off') ⊎ (off' + 4 ≤ off)
offsets_apart off off' c j e e' row ne = elim (dec_lt off off') [
  | yes lt ↦ inl (omega arith)
  | no ge ↦ inr (omega arith)
]

module _ (v : Volume) (t : IsTable v) where
  first_copy : v.sectors_per_fat ≤ v.num_fats * v.sectors_per_fat
  first_copy = grind (arith, t.copies)

  pub fat_sector-eq : (c : ℕ) → InTable v c → fat_sector v c ≡ v.fat_region_lba + c / 128
  fat_sector-eq c h = omega (arith, t.fits, t.small, first_copy)

  pub fat_offset-eq : (c : ℕ) → InTable v c → fat_offset c ≡ 4 * (c % 128)
  fat_offset-eq c h = omega (arith, t.small)

  sector-below : (c : ℕ) → InTable v c → c / 128 < v.sectors_per_fat
  sector-below c h = omega arith

  -- Where the copy `i` of a sector lies.
  abbrev copy_lba : ℕ → ℕ → ℕ
  copy_lba i sector =
      sub32 (add32 (add32 v.fat_region_lba (mul32 i v.sectors_per_fat)) sector) v.fat_region_lba

  copy-le :
      (i : ℕ)
      → i < v.num_fats
      → i * v.sectors_per_fat + v.sectors_per_fat ≤ v.num_fats * v.sectors_per_fat
  copy-le i h = grind arith

  copy_lba-eq :
      (i c row : ℕ)
      → row ≡ v.fat_region_lba + c / 128
      → i < v.num_fats
      → InTable v c
      → copy_lba i row ≡ row + i * v.sectors_per_fat
  copy_lba-eq i c row e h k =
      let wide : i * v.sectors_per_fat < 4294967296 = omega (arith, copy-le i h, t.fits) in
      omega (arith, copy-le i h, t.fits, sector-below c k)

  -- What writing the copies from `i` on leaves.
  record Wrote (d d' : Disk) (a : ℕ) (buf : Sector) (left : ℕ) : Type 0 where
    ready : IsReady v d'
    low : (lba : ℕ) → lba < a + v.sectors_per_fat → lba ≢ a → d'.sectors lba ≡ d.sectors lba
    high :
        (lba : ℕ)
        → v.fat_region_lba + v.num_fats * v.sectors_per_fat ≤ lba
        → d'.sectors lba ≡ d.sectors lba
    first : 1 ≤ left → d'.sectors a ≡ buf

  write_copies-Wrote :
      (left i c row : ℕ) (buf : Sector) (d : Disk)
      → row ≡ v.fat_region_lba + c / 128
      → i + left ≡ v.num_fats
      → InTable v c
      → IsReady v d
      → (d' : Disk) × (write_copies left i v row buf d ≡ ok tt d')
        × Wrote d d' (row + i * v.sectors_per_fat) buf left
  unfolding write_copies
  write_copies-Wrote zero i c row buf d e sum k r = (
    d,
    refl,
    record {
      ready = r;
      low = λ lba h ne. refl;
      high = λ lba h. refl;
      first = λ h. absurd (omega arith);
    },
  )
  write_copies-Wrote (suc left) i c row buf d e sum k r =
      let a = row + i * v.sectors_per_fat in
      let lba_eq = copy_lba-eq i c row e (omega arith) k in
      let limit = copy-le i (omega arith) in
      let inside = sector-below c k in
      let d1 : Disk = record d { sectors = update d.sectors a buf } in
      let (d', run, w) =
        write_copies-Wrote left (i + 1) c row buf d1 e (omega arith) k
          (record { reads = r.reads; writes = r.writes }) in
      let next : row + (i + 1) * v.sectors_per_fat ≡ a + v.sectors_per_fat = omega arith in
      (
        d',
        rw lba_eq (
            bind_ok (write_sector a buf) (λ _. write_copies left (i + 1) v row buf) d
              (write_sector-ok a buf d (r.writes a (omega arith) (omega arith)))
            ∙ run),
        record {
          ready = w.ready;
          low =
              λ lba h ne. w.low lba (omega arith) (omega arith) ∙ update_ne d.sectors a lba buf ne;
          high = λ lba h. w.high lba h ∙ update_ne d.sectors a lba buf (omega arith);
          first = λ h. w.low a (omega arith) (omega arith) ∙ update_self d.sectors a buf;
        },
      )

-- On a volume with readable and writable tables, reading an entry returns the table's value and
-- changes nothing.
pub read_fat_entry-ok :
    (v : Volume) (d : Disk) (c : ℕ)
    → IsTable v
    → IsReady v d
    → InTable v c
    → read_fat_entry v c d ≡ ok (fat_at v d c) d
unfolding read_fat_entry
read_fat_entry-ok v d c t r k =
    let row = fat_sector-eq v t c k in
    let wide = first_copy v t in
    bind_ok (read_sector (fat_sector v c)) (λ buf. pure (entry_at buf (fat_offset c) % 268435456)) d
      (read_sector-ok (fat_sector v c) d (
        r.reads (fat_sector v c) (omega (arith, row))
          (omega (arith, row, sector-below v t c k, wide))))

-- The entries after the sector of cluster `c` is replaced in the first copy.
entries_after :
    (v : Volume) (t : IsTable v) (d d' : Disk) (c val j : ℕ)
    → InTable v c
    → InTable v j
    → ((lba : ℕ)
        → lba < fat_sector v c + 0 * v.sectors_per_fat + v.sectors_per_fat
        → lba ≢ fat_sector v c + 0 * v.sectors_per_fat
        → d'.sectors lba ≡ d.sectors lba)
    → d'.sectors (fat_sector v c)
      ≡ put32
          (d.sectors (fat_sector v c))
          (fat_offset c)
          (merge_entry (entry_at (d.sectors (fat_sector v c)) (fat_offset c)) val)
    → fat_at v d' j ≡ update (fat_at v d) c (val % 268435456) j
entries_after v t d d' c val j k kj low first =
    let buf = d.sectors (fat_sector v c) in
    let x = merge_entry (entry_at buf (fat_offset c)) val in
    let row = fat_sector-eq v t c k in
    let rowj = fat_sector-eq v t j kj in
    let off = fat_offset-eq v t c k in
    let offj = fat_offset-eq v t j kj in
    elim (ℕ_discrete j c) [
      | yes same ↦
          rw same
            (rw (first, eq→== c c refl) (omega (arith, entry_at-put32_self buf (fat_offset c) x)))
      | no other ↦ elim (ℕ_discrete (fat_sector v j) (fat_sector v c)) [
        | yes same ↦ rw (ne→== j c other) (
            ap (λ (b : Sector). entry_at b (fat_offset j) % 268435456) (ap d'.sectors same ∙ first)
            ∙ ap (λ n. n % 268435456)
                (entry_at-put32 buf (fat_offset c) (fat_offset j) x (
                  offsets_apart (fat_offset c) (fat_offset j) c j off offj
                    (omega (arith, row, rowj, same)) (λ e. other (sym e))))
            ∙ ap (λ (b : Sector). entry_at b (fat_offset j) % 268435456) (sym (ap d.sectors same)))
        | no far ↦ rw (ne→== j c other) (
            ap (λ (b : Sector). entry_at b (fat_offset j) % 268435456)
              (low (fat_sector v j) (omega (arith, row, rowj, sector-below v t j kj))
                (omega arith)))
      ]
    ]

-- On a volume with at least one copy of the table, whose tables lie below sector 2 ^ 31, have fewer
-- than 2 ^ 32 bytes each (so that four times a cluster's number does not wrap) and can be read and
-- written, writing the entry of a cluster of the table succeeds. It sets the low 28 bits of that
-- entry, keeps every other cluster's entry, leaves the tables readable and writable, and changes no
-- sector outside them. Entries are those of the first copy.
pub write_fat_entry-fat_at :
    (v : Volume) (d : Disk) (c val : ℕ)
    → IsTable v
    → IsReady v d
    → InTable v c
    → (d' : Disk) × (write_fat_entry v c val d ≡ ok tt d')
      × IsReady v d'
      × ((j : ℕ) → InTable v j → fat_at v d' j ≡ update (fat_at v d) c (val % 268435456) j)
      × ((lba : ℕ) → lba < v.fat_region_lba → d'.sectors lba ≡ d.sectors lba)
      × ((lba : ℕ)
          → v.fat_region_lba + v.num_fats * v.sectors_per_fat ≤ lba
          → d'.sectors lba ≡ d.sectors lba)
unfolding write_fat_entry
write_fat_entry-fat_at v d c val t r k =
    let row = fat_sector-eq v t c k in
    let wide = first_copy v t in
    let below = sector-below v t c k in
    let old = d.sectors (fat_sector v c) in
    let buf = put32 old (fat_offset c) (merge_entry (entry_at old (fat_offset c)) val) in
    let (d', run, w) =
      write_copies-Wrote v t v.num_fats 0 c (fat_sector v c) buf d row (omega arith) k r in
    let zero_copy : fat_sector v c ≡ fat_sector v c + 0 * v.sectors_per_fat = omega arith in
    (
      d',
      bind_ok (read_sector (fat_sector v c))
            (λ old'.
              write_copies v.num_fats 0 v (fat_sector v c)
                (put32 old' (fat_offset c) (merge_entry (entry_at old' (fat_offset c)) val)))
            d
            (read_sector-ok (fat_sector v c) d
              (r.reads (fat_sector v c) (omega (arith, row)) (omega (arith, row, below, wide))))
          ∙ run,
      w.ready,
      (λ j hj.
          entries_after v t d d' c val j k hj w.low (ap d'.sectors zero_copy ∙ w.first t.copies)),
      (λ lba h. w.low lba (omega (arith, row)) (omega (arith, row))),
      w.high,
    )
