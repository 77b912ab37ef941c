-- ===== src/Fat/Transfer/Advance.antt =====
-- The steps of `f_write` in src/hal/fat32.rs between two sectors: they take and link clusters, and
-- leave the position and the size of the file as they are.
use planck_os.Prelude.{
  Option, none, some, ◌==◌, ltb, leb, if◌then◌else◌, ◌≡◌, refl, ◌∙◌, ◌<◌, ◌≤◌, ltb→lt, arith,
}
use planck_os.Fat.{Disk, Volume, File, FError, M, Run, hang, ok, err, pure, ◌>>=◌, ◌>>◌}
use planck_os.Fat.Outcome.{Ends, Ends-bind, Ends-if, Halts}
use planck_os.Fat.Table.{read_fat_entry, write_fat_entry, find_free_cluster, end_of_chain}
use planck_os.Fat.Table.Running.{
  read_fat_entry-Halts, write_fat_entry-Halts, find_free_cluster-Halts,
}
use planck_os.Fat.Transfer.{
  Io, with_vol, on_vol, get, set_file, next_sector, take_cluster, advance_write, first_cluster,
}

-- A failure that is kept in the file.
abbrev pub Kept : FError → Io → Type 0
Kept e t = t.file.error ≡ e

on_run-Halts :
    {A : Type 0} (s : Io) (r : Run Disk A)
    → Halts r
    → Ends
        (λ _ t. t.file ≡ s.file)
        Kept
        (elim r [
          | ok a d ↦ ok a (record s { disk = d })
          | err e d ↦ err e (record s { disk = d; file = record s.file { error = e } })
          | hang ↦ hang
        ])
unfolding Ends
on_run-Halts s (ok a d) h = refl
on_run-Halts s (err e d) h = refl
on_run-Halts s hang h = h

with_vol-Halts :
    {A : Type 0} (vol : Option Volume) (f : Volume → M Disk A) (d : Disk)
    → ((v : Volume) → Halts (f v d))
    → Halts (with_vol vol f d)
unfolding Ends
with_vol-Halts none f d h = tt
with_vol-Halts (some v) f d h = h v

pub on_vol-Halts :
    {A : Type 0} (vol : Option Volume) (f : Volume → M Disk A) (s : Io)
    → ((v : Volume) → Halts (f v s.disk))
    → Ends (λ _ t. t.file ≡ s.file) Kept (on_vol vol f s)
unfolding on_vol
on_vol-Halts vol f s h = on_run-Halts s (with_vol vol f s.disk) (with_vol-Halts vol f s.disk h)

take_cluster-Ends :
    (vol : Option Volume) (s : Io) → Ends (λ _ t. t.file ≡ s.file) Kept (take_cluster vol s)
unfolding take_cluster Ends
take_cluster-Ends vol s =
    Ends-bind (λ _ t. t.file ≡ s.file) _ _ (on_vol vol find_free_cluster s) _
      (on_vol-Halts vol find_free_cluster s (λ v. find_free_cluster-Halts v s.disk))
      (λ clu t e.
        Ends-bind (λ _ u. u.file ≡ t.file) _ _
          (on_vol vol (λ v. write_fat_entry v clu 0x0FFFFFFF) t) _
          (on_vol-Halts vol (λ v. write_fat_entry v clu 0x0FFFFFFF) t
            (λ v. write_fat_entry-Halts v clu 0x0FFFFFFF t.disk))
          (λ _ u q. q ∙ e))

-- The position, the size and the mark of a change are those of the file `f`, and the cursor is
-- within its sector.
abbrev pub Steady : File → File → Type 0
Steady f g =
    (g.position ≡ f.position)
    × (g.size ≡ f.size)
    × (g.modified ≡ f.modified)
    × (g.byte_in_sector < 512)

Steady-eq : (f g h : File) → Steady f g → h ≡ g → Steady f h
Steady-eq f g h s e = rw e s

-- At the end of the chain a cluster is taken and linked to the current one.
link :
    (vol : Option Volume) (f : File) (s : Io)
    → Steady f s.file
    → Ends
        (λ _ t. Steady f t.file)
        Kept
        ((do
          new_clu ← take_cluster vol
          s2 ← get
          on_vol vol (λ v. write_fat_entry v s2.file.current_cluster new_clu)
          s3 ← get
          set_file (record s3.file { current_cluster = new_clu }))
          s)
unfolding Ends
link vol f s h =
    Ends-bind (λ _ t. t.file ≡ s.file) _ _ (take_cluster vol s) _ (take_cluster-Ends vol s)
      (λ clu t e.
        Ends-bind (λ _ u. u.file ≡ t.file) _ _
          (on_vol vol (λ v. write_fat_entry v t.file.current_cluster clu) t) _
          (on_vol-Halts vol (λ v. write_fat_entry v t.file.current_cluster clu) t
            (λ v. write_fat_entry-Halts v t.file.current_cluster clu t.disk))
          (λ _ u q. Steady-eq f s.file u.file h (q ∙ e)))

-- Past the last sector of a cluster: the entry of the cluster is read.
to_cluster_write :
    (vol : Option Volume) (f : File) (s1 : Io)
    → Steady f s1.file
    → Ends
        (λ _ t. Steady f t.file)
        Kept
        ((do
          set_file (record s1.file { sector_in_cluster = 0 })
          next ← on_vol vol (λ v. read_fat_entry v s1.file.current_cluster)
          if leb end_of_chain next
              then (do
                new_clu ← take_cluster vol
                s2 ← get
                on_vol vol (λ v. write_fat_entry v s2.file.current_cluster new_clu)
                s3 ← get
                set_file (record s3.file { current_cluster = new_clu }))
              else (do s2 ← get; set_file (record s2.file { current_cluster = next })))
          s1)
unfolding Ends
to_cluster_write vol f s1 h =
    let s2 = record s1 { file = record s1.file { sector_in_cluster = 0 } } in
    Ends-bind (λ _ t. t.file ≡ s2.file) _ _
      (on_vol vol (λ v. read_fat_entry v s1.file.current_cluster) s2) _
      (on_vol-Halts vol _ s2 (λ v. read_fat_entry-Halts v s1.file.current_cluster s2.disk))
      (λ next t e.
        let k = Steady-eq f s2.file t.file h e in
        Ends-if _ _ (leb end_of_chain next) _ _ t (λ _. link vol f t k) (λ _. k))

Steady-tt :
    (f : File) (s : Io)
    → Steady f s.file
    → Ends (λ (_ : Unit {0}) t. Steady f t.file) Kept (pure tt s)
unfolding Ends
Steady-tt f s h = h

pure-Halts : {A : Type 0} (a : A) (d : Disk) → Halts (pure a d)
unfolding Ends
pure-Halts a d = tt

pub advance_write_lem :
    (vol : Option Volume) (s : Io)
    → s.file.byte_in_sector ≤ 512
    → Ends (λ _ t. Steady s.file t.file) Kept (advance_write vol s)
unfolding advance_write
advance_write_lem vol s h =
    let s1 = record s { file = next_sector s.file } in
    Ends-if _ _ (ltb s.file.byte_in_sector 512) _ _ s
      (λ e. Steady-tt s.file s (refl, refl, refl, ltb→lt s.file.byte_in_sector 512 e))
      (λ _.
        Ends-bind (λ _ t. t.file ≡ s1.file) _ _ (on_vol vol (λ v. pure v.sectors_per_cluster) s1) _
          (on_vol-Halts vol _ s1 (λ v. pure-Halts v.sectors_per_cluster s.disk))
          (λ spc t e.
            let k = Steady-eq s.file s1.file t.file (refl, refl, refl, omega arith) e in
            Ends-if _ _ (ltb t.file.sector_in_cluster spc) _ _ t (λ _. Steady-tt s.file t k)
              (λ _. to_cluster_write vol s.file t k)))

set_first :
    (vol : Option Volume) (s : Io)
    → s.file.byte_in_sector < 512
    → Ends
        (λ _ t. Steady s.file t.file)
        Kept
        ((do
          new_clu ← take_cluster vol
          s1 ← get
          set_file (record s1.file { start_cluster = new_clu; current_cluster = new_clu }))
          s)
unfolding Ends
set_first vol s b =
    Ends-bind (λ _ t. t.file ≡ s.file) _ _ (take_cluster vol s) _ (take_cluster-Ends vol s)
      (λ clu t e. Steady-eq s.file s.file t.file (refl, refl, refl, b) e)

pub first_cluster-Ends :
    (vol : Option Volume) (s : Io)
    → s.file.byte_in_sector < 512
    → Ends (λ _ t. Steady s.file t.file) Kept (first_cluster vol s)
unfolding first_cluster
first_cluster-Ends vol s b =
    Ends-if _ _ (s.file.current_cluster == 0) _ _ s (λ _. set_first vol s b)
      (λ _. Steady-tt s.file s (refl, refl, refl, b))
