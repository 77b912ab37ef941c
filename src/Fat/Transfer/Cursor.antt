-- ===== src/Fat/Transfer/Cursor.antt =====
-- What `advance_read` of src/hal/fat32.rs does to the cursor of a file, over whatever the sectors and
-- the file table hold.
use planck_os.Prelude.{
  ℕ, Bool, true, false, some, ltb, leb, if◌then◌else◌, ◌≡◌, refl, ◌<◌, ◌≤◌, ltb→lt, le_of_ltb, ap,
  arith,
}
use planck_os.Fat.{Disk, Volume, FError, M, Run, hang, ok, err, pure, ◌>>=◌, ◌>>◌}
use planck_os.Fat.Outcome.{Ends, Ends-bind, Ends-if, Gives, pure-Gives}
use planck_os.Fat.Table.{read_fat_entry, end_of_chain}
use planck_os.Fat.Table.Reading.{read_fat_entry-Gives}
use planck_os.Fat.Table.Entry.{fat_at}
use planck_os.Fat.Transfer.{Io, on_vol, get, set_file, bump16, next_sector, advance_read}
use planck_os.Fat.Transfer.Content.{file_byte, file_byte-inside, file_byte-behind}

-- A failure that is kept in the file, on a disk left as it is.
abbrev pub Reports : Disk → FError → Io → Type 0
Reports d e t = (t.disk ≡ d) × (t.file.error ≡ e)

on_run-Gives :
    {A : Type 0} (s : Io) (a : A) (r : Run Disk A)
    → Gives s.disk a r
    → Ends
        (λ x t. (x ≡ a) × (t ≡ s))
        (Reports s.disk)
        (elim r [
          | ok a d ↦ ok a (record s { disk = d })
          | err e d ↦ err e (record s { disk = d; file = record s.file { error = e } })
          | hang ↦ hang
        ])
unfolding Ends
on_run-Gives s a (ok x d) h = (h.0, ap (λ x. record s { disk = x }) h.1)
on_run-Gives s a (err e d) h = (h, refl)
on_run-Gives s a hang h = h

pub on_vol-Gives :
    {A : Type 0} (v : Volume) (f : Volume → M Disk A) (s : Io) (a : A)
    → Gives s.disk a (f v s.disk)
    → Ends (λ x t. (x ≡ a) × (t ≡ s)) (Reports s.disk) (on_vol (some v) f s)
unfolding on_vol
on_vol-Gives v f s a h = on_run-Gives s a (f v s.disk) h

-- `advance_read` has changed nothing but the cursor; the cursor is within its sector and its
-- cluster, and where the loop goes on, in front of the same bytes.
pub record Moved (v : Volume) (s : Io) (more : Bool) (t : Io) : Type 0 where
  pub disk : t.disk ≡ s.disk
  pub buf : t.buf ≡ s.buf
  pub position : t.file.position ≡ s.file.position
  pub size : t.file.size ≡ s.file.size
  pub within : t.file.byte_in_sector < 512
  pub inside : t.file.sector_in_cluster < v.sectors_per_cluster
  pub ahead : more ≡ true → (i : ℕ) → file_byte v s.disk t.file i ≡ file_byte v s.disk s.file i

module _ (v : Volume) (s : Io) (end_of_sector : s.file.byte_in_sector ≡ 512)
    (low : s.file.sector_in_cluster < v.sectors_per_cluster)
    (few : v.sectors_per_cluster < 256) where
  abbrev s1 : Io
  s1 = record s { file = next_sector s.file }

  abbrev s2 : Io
  s2 = record s { file = record (next_sector s.file) { sector_in_cluster = 0 } }

  -- The chain's next cluster becomes the current one, or the loop stops.
  turn :
      ltb (bump16 s.file.sector_in_cluster 1) v.sectors_per_cluster ≡ false
      → let next = fat_at v s.disk s.file.current_cluster in
        Ends
          (λ more t. Moved v s more t)
          (Reports s.disk)
          ((if leb end_of_chain next
              then set_file (record s2.file { current_cluster = 0 }) >> pure false
              else set_file (record s2.file { current_cluster = next }) >> pure true)
            s2)
  unfolding Ends
  turn h =
      let next = fat_at v s.disk s.file.current_cluster in
      Ends-if _ _ (leb end_of_chain next) _ _ s2
        (λ _. record {
          disk = refl;
          buf = refl;
          position = refl;
          size = refl;
          within = omega arith;
          inside = omega arith;
          ahead = λ e. absurd (cc e);
        })
        (λ _. record {
          disk = refl;
          buf = refl;
          position = refl;
          size = refl;
          within = omega arith;
          inside = omega arith;
          ahead = λ e i. file_byte-behind v s.disk s.file i end_of_sector (omega arith) h;
        })

  -- Past the last sector of a cluster: the entry of the cluster is read.
  to_cluster :
      ltb (bump16 s.file.sector_in_cluster 1) v.sectors_per_cluster ≡ false
      → Ends
          (λ more t. Moved v s more t)
          (Reports s.disk)
          ((do
            set_file (record s1.file { sector_in_cluster = 0 })
            next ← on_vol (some v) (λ v. read_fat_entry v s1.file.current_cluster)
            s2 ← get
            if leb end_of_chain next
                then set_file (record s2.file { current_cluster = 0 }) >> pure false
                else set_file (record s2.file { current_cluster = next }) >> pure true)
            s1)
  to_cluster h =
      Ends-bind _ _ _ (on_vol (some v) (λ v. read_fat_entry v s.file.current_cluster) s2) _
        (on_vol-Gives v (λ v. read_fat_entry v s.file.current_cluster) s2
          (fat_at v s.disk s.file.current_cluster)
          (read_fat_entry-Gives v s.file.current_cluster s.disk))
        (λ next t e. rw (e.0, e.1) (turn h))

  sector_end :
      Ends
        (λ more t. Moved v s more t)
        (Reports s.disk)
        ((if ltb s1.file.sector_in_cluster v.sectors_per_cluster then pure true else (do
          set_file (record s1.file { sector_in_cluster = 0 })
          next ← on_vol (some v) (λ v. read_fat_entry v s1.file.current_cluster)
          s2 ← get
          if leb end_of_chain next
              then set_file (record s2.file { current_cluster = 0 }) >> pure false
              else set_file (record s2.file { current_cluster = next }) >> pure true))
          s1)
  unfolding Ends
  sector_end =
      Ends-if _ _ (ltb s1.file.sector_in_cluster v.sectors_per_cluster) _ _ s1
        (λ h. record {
          disk = refl;
          buf = refl;
          position = refl;
          size = refl;
          within = omega arith;
          inside = ltb→lt _ _ h;
          ahead = λ e i. file_byte-inside v s.disk s.file i end_of_sector (omega arith) h;
        })
        to_cluster

within_sector :
    (v : Volume) (s : Io)
    → s.file.sector_in_cluster < v.sectors_per_cluster
    → ltb s.file.byte_in_sector 512 ≡ true
    → Ends (λ more t. Moved v s more t) (Reports s.disk) (pure true s)
unfolding Ends
within_sector v s low e = record {
  disk = refl;
  buf = refl;
  position = refl;
  size = refl;
  within = ltb→lt s.file.byte_in_sector 512 e;
  inside = low;
  ahead = λ _ i. refl;
}

pub advance_read_lem :
    (v : Volume) (s : Io)
    → s.file.byte_in_sector ≤ 512
    → s.file.sector_in_cluster < v.sectors_per_cluster
    → v.sectors_per_cluster < 256
    → Ends (λ more t. Moved v s more t) (Reports s.disk) (advance_read (some v) s)
unfolding advance_read
advance_read_lem v s h low few =
    let s1 : Io = record s { file = next_sector s.file } in
    Ends-if _ _ (ltb s.file.byte_in_sector 512) _ _ s (λ e. within_sector v s low e)
      (λ e.
        Ends-bind _ _ _ (on_vol (some v) (λ v. pure v.sectors_per_cluster) s1) _
          (on_vol-Gives v (λ v. pure v.sectors_per_cluster) s1 v.sectors_per_cluster
            (pure-Gives v.sectors_per_cluster s.disk))
          (λ spc t q.
            rw (q.0, q.1)
              (sector_end v s (omega (arith, le_of_ltb s.file.byte_in_sector 512 e)) low few)))
