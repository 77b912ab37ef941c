-- ===== src/Fat/Transfer/Within.antt =====
-- What `f_write` of src/hal/fat32.rs puts on the disk in a round that stays within a cluster.
use planck_os.Prelude.{
  ℕ, ◌+◌, ◌-◌, ◌*◌, ◌%◌, true, false, ◌&&◌, ◌⊎◌, some, ltb, leb, if◌then◌else◌, ◌≡◌, ◌≢◌, refl, sym,
  ◌∙◌, ◌<◌, ◌≤◌, ltb→lt, le_of_ltb, ap, arith, inl, inr, ℕ_discrete, update, update_self, update_ne,
}
use planck_os.Prelude.{Bool-cases}
use mathlib.Core.Path.{subst}
use planck_os.Fat.{Disk, Volume, M, Run, hang, ok, err, Sector}
use planck_os.Fat.Outcome.{Ends, Ends-if}
use planck_os.Fat.Table.{cluster_to_lba}
use planck_os.Fat.Transfer.{Io, on_vol, file_lba, cursor_copy, copy_in, write_step, advance_write}

-- The run gives a value and a state of `P`, and no error.
abbrev pub Succeeds : {S A : Type 0} → (A → S → Type 0) → Run S A → Type 0
Succeeds P r = Ends P (λ _ _. ⊥) r

pub on_vol-Succeeds :
    {A : Type 0} (v : Volume) (f : Volume → M Disk A) (s : Io) (a : A) (d : Disk)
    → f v s.disk ≡ ok a d
    → Succeeds (λ x t. (x ≡ a) × (t ≡ record s { disk = d })) (on_vol (some v) f s)
unfolding on_vol Ends
on_vol-Succeeds v f s a d e =
    subst
      (λ r.
        Succeeds (λ x t. (x ≡ a) × (t ≡ record s { disk = d }))
          (elim r [
            | ok a d ↦ ok a (record s { disk = d })
            | err e d ↦ err e (record s { disk = d; file = record s.file { error = e } })
            | hang ↦ hang
          ]))
      (sym e) (refl, refl)

-- The first sector of the file's cluster, and how many bytes into the cluster the cursor is.
abbrev pub first_lba : Volume → Io → ℕ
first_lba v s = cluster_to_lba v s.file.current_cluster

abbrev pub offset_of : Io → ℕ
offset_of s = 512 * s.file.sector_in_cluster + s.file.byte_in_sector

-- The sectors of the file's cluster can be read and written.
pub record IsOpen (v : Volume) (s : Io) : Type 0 where
  pub low : first_lba v s + v.sectors_per_cluster < 4294967296
  pub few : v.sectors_per_cluster < 256
  pub reads : (q : ℕ) → q < v.sectors_per_cluster → s.disk.readable (first_lba v s + q) ≡ true
  pub writes : (q : ℕ) → q < v.sectors_per_cluster → s.disk.writable (first_lba v s + q) ≡ true
  pub cursor : s.file.byte_in_sector < 512
  pub sector : s.file.sector_in_cluster < v.sectors_per_cluster

-- The `n` bytes from `from` on in the file's cluster are those of the caller from `start` on; every
-- other byte of the disk is as it was.
pub record Filled (v : Volume) (s : Io) (src : ℕ → ℕ) (start n : ℕ) (t : Io) : Type 0 where
  pub cluster :
      (q j : ℕ)
      → q < v.sectors_per_cluster
      → j < 512
      → t.disk.sectors (first_lba v s + q) j ≡ (
          if leb (offset_of s) (512 * q + j) && ltb (512 * q + j) (offset_of s + n)
          then src (start + (512 * q + j - offset_of s))
          else s.disk.sectors (first_lba v s + q) j)
  pub others :
      (lba : ℕ)
      → (lba < first_lba v s) ⊎ (first_lba v s + v.sectors_per_cluster ≤ lba)
      → t.disk.sectors lba ≡ s.disk.sectors lba

-- The cursor stands for the same place, within its sector and its cluster.
pub record Same (v : Volume) (s t : Io) : Type 0 where
  pub disk : t.disk ≡ s.disk
  pub cluster : t.file.current_cluster ≡ s.file.current_cluster
  pub offset : offset_of t ≡ offset_of s
  pub cursor : t.file.byte_in_sector < 512
  pub sector : t.file.sector_in_cluster < v.sectors_per_cluster

pub advance_write-Same :
    (v : Volume) (s : Io)
    → s.file.byte_in_sector ≤ 512
    → v.sectors_per_cluster < 256
    → offset_of s < 512 * v.sectors_per_cluster
    → Succeeds (λ _ t. Same v s t) (advance_write (some v) s)
unfolding advance_write on_vol Ends
advance_write-Same v s h few inside =
    Ends-if _ _ (ltb s.file.byte_in_sector 512) _ _ s
      (λ e. record {
        disk = refl;
        cluster = refl;
        offset = refl;
        cursor = ltb→lt _ _ e;
        sector = omega arith;
      })
      (λ e.
        let full : s.file.byte_in_sector ≡ 512 =
          omega (arith, le_of_ltb s.file.byte_in_sector 512 e) in
        Ends-if _ _ (ltb ((s.file.sector_in_cluster + 1) % 65536) v.sectors_per_cluster) _ _ _
          (λ g. record {
            disk = refl;
            cluster = refl;
            offset = omega (arith, full);
            cursor = omega arith;
            sector = ltb→lt _ _ g;
          })
          (λ g. absurd (
            omega (
              arith,
              full,
              le_of_ltb ((s.file.sector_in_cluster + 1) % 65536) v.sectors_per_cluster g,
            ))))

-- Two spans of the caller's bytes, one behind the other, are one.
combine :
    (x x' p k done total : ℕ) (src : ℕ → ℕ) (w y old : ℕ)
    → x' ≡ x + k
    → k ≤ total - done
    → w ≡ (if leb x' p && ltb p (x' + (total - (done + k))) then src (done + k + (p - x')) else y)
    → y ≡ (if leb x p && ltb p (x + k) then src (done + (p - x)) else old)
    → w ≡ (if leb x p && ltb p (x + (total - done)) then src (done + (p - x)) else old)
combine x x' p k done total src w y old e l f g = elim (Bool-cases (leb x' p)) [
  | inl h ↦
      let later : done + k + (p - x') ≡ done + (p - x) = ground arith in
      let early : ltb p (x + k) ≡ false = ground arith in let known = ap src later in ground arith
  | inr h ↦ ground arith
]

-- The bytes of a round.
module _ (v : Volume) (s : Io) (src : ℕ → ℕ) (total done : ℕ) (o : IsOpen v s)
    (l : done < total) where
  abbrev k : ℕ
  k = cursor_copy s.file total done

  abbrev here : ℕ
  here = first_lba v s + s.file.sector_in_cluster

  abbrev new : Sector
  new = copy_in (s.disk.sectors here) s.file.byte_in_sector k src done

  abbrev pub s1 : Io
  s1 = record s { disk = record s.disk { sectors = update s.disk.sectors here new } }

  pub lba_here : file_lba v s.file ≡ here
  lba_here = omega (arith, o.low, o.sector)

  abbrev merged : ℕ → ℕ → ℕ
  merged q j =
      if leb (offset_of s) (512 * q + j) && ltb (512 * q + j) (offset_of s + k)
      then src (done + (512 * q + j - offset_of s))
      else s.disk.sectors (first_lba v s + q) j

  own : (j : ℕ) → j < 512 → new j ≡ merged s.file.sector_in_cluster j
  own j b = ground arith

  other :
      (q j : ℕ)
      → q ≢ s.file.sector_in_cluster
      → j < 512
      → s.disk.sectors (first_lba v s + q) j ≡ merged q j
  other q j n b = ground (arith, o.cursor)

  round-cluster :
      (q j : ℕ)
      → q < v.sectors_per_cluster
      → j < 512
      → s1.disk.sectors (first_lba v s + q) j ≡ merged q j
  round-cluster q j a b = elim (ℕ_discrete q s.file.sector_in_cluster) [
    | yes e ↦
        subst (λ q. s1.disk.sectors (first_lba v s + q) j ≡ merged q j) (sym e)
          (ap (λ (f : Sector). f j) (update_self s.disk.sectors here new) ∙ own j b)
    | no n ↦
        ap (λ (f : Sector). f j)
          (update_ne s.disk.sectors here (first_lba v s + q) new (omega (arith, n)))
        ∙ other q j n b
  ]

  module _ (t u : Io) (m : Same v (write_step s1 total done) t) where
    -- A round, and the rest of the loop from the moved cursor.
    pub join :
        Filled v t src (done + k) (total - (done + k)) u → Filled v s src done (total - done) u
    join f = record {
      cluster = λ q j a b. at_byte q j a b;
      others = λ lba h.
          f.others lba (moved_away lba h)
          ∙ ap (λ (d : Disk). d.sectors lba) m.disk
          ∙ update_ne s.disk.sectors here lba new (apart lba h);
    }
      where
        same_lba : first_lba v t ≡ first_lba v s
        same_lba = ap (cluster_to_lba v) m.cluster

        moved : offset_of t ≡ offset_of s + k
        moved = omega (arith, m.offset, o.cursor)

        moved_away :
            (lba : ℕ)
            → (lba < first_lba v s) ⊎ (first_lba v s + v.sectors_per_cluster ≤ lba)
            → (lba < first_lba v t) ⊎ (first_lba v t + v.sectors_per_cluster ≤ lba)
        moved_away lba (inl h) = inl (omega (arith, same_lba))
        moved_away lba (inr h) = inr (omega (arith, same_lba))

        apart :
            (lba : ℕ)
            → (lba < first_lba v s) ⊎ (first_lba v s + v.sectors_per_cluster ≤ lba)
            → lba ≢ here
        apart lba (inl h) e = omega arith
        apart lba (inr h) e = omega (arith, o.sector)

        at_byte :
            (q j : ℕ)
            → q < v.sectors_per_cluster
            → j < 512
            → u.disk.sectors (first_lba v s + q) j ≡ (
                if leb (offset_of s) (512 * q + j)
                  && ltb (512 * q + j) (offset_of s + (total - done))
                then src (done + (512 * q + j - offset_of s))
                else s.disk.sectors (first_lba v s + q) j)
        at_byte q j a b =
            let later = f.cluster q j a b in
            let before = ap (λ (d : Disk). d.sectors (first_lba v s + q) j) m.disk in
            let lba : first_lba v t + q ≡ first_lba v s + q = omega (arith, same_lba) in
            combine (offset_of s) (offset_of t) (512 * q + j) k done total src _
              (t.disk.sectors (first_lba v t + q) j) (s.disk.sectors (first_lba v s + q) j) moved
              (omega (arith, o.cursor)) (ap (λ x. u.disk.sectors x j) (sym lba) ∙ later)
              (ap (λ x. t.disk.sectors x j) lba ∙ before ∙ round-cluster q j a b)

    -- The file is still open, for the rest of the bytes.
    pub opened : IsOpen v t
    opened = record {
      low = omega (arith, o.low, ap (cluster_to_lba v) m.cluster);
      few = o.few;
      reads = λ q a.
          ap (λ (d : Disk). d.readable (first_lba v t + q)) m.disk
          ∙ ap (λ x. s.disk.readable (x + q)) (ap (cluster_to_lba v) m.cluster)
          ∙ o.reads q a;
      writes = λ q a.
          ap (λ (d : Disk). d.writable (first_lba v t + q)) m.disk
          ∙ ap (λ x. s.disk.writable (x + q)) (ap (cluster_to_lba v) m.cluster)
          ∙ o.writes q a;
      cursor = m.cursor;
      sector = m.sector;
    }

-- Nothing is left to write.
pub nothing-Filled :
    (v : Volume) (s : Io) (src : ℕ → ℕ) (done n : ℕ) → n ≡ 0 → Filled v s src done n s
nothing-Filled v s src done n e = record {
  cluster = λ q j a b. ground arith;
  others = λ lba h. refl;
}
