-- ===== src/Applets/Cp/Transferred.antt =====
-- The reads and writes of `cp` of src/applets/cp/mod.rs on a FAT32 volume of src/hal/fat32.rs.
use planck_os.Prelude.{
  ℕ, ◌-◌, ◌≤◌, ◌<◌, ◌≢◌, refl, some, List, [], ◌∷◌, length, arith, length-slice, get_or,
}
use planck_os.Fat.{Disk, Volume, File, FError, Run, ok, err, hang}
use planck_os.Fat.Outcome.{Ends}
use planck_os.Fat.Transfer.{Io, f_read, f_write}
use planck_os.Fat.Transfer.Read.{f_read-Ends}
use planck_os.Fat.Transfer.Write.{f_write-Ends}
unfoldable use planck_os.Applets.OnFat.{fat}
use planck_os.Applets.Cp.Copied.{Transfers}

pub on_file-Ends :
    {A B : Type 0} (P : A → Io → Type 0) (Q : FError → Io → Type 0) (P' : B → Disk × File → Type 0)
    (f : A → (ℕ → ℕ) → B) (r : Run Io A)
    → ((a : A) (io : Io) → P a io → P' (f a io.buf) (io.disk, io.file))
    → Ends P Q r
    → Ends P'
        (λ e at. Unit {0})
        (elim r [
          | ok a io ↦ ok (f a io.buf) (io.disk, io.file)
          | err e io ↦ err e (io.disk, io.file)
          | hang ↦ hang
        ])
unfolding Ends
on_file-Ends P Q P' f (ok a io) g h = g a io h
on_file-Ends P Q P' f (err e io) g h = tt
on_file-Ends P Q P' f hang g h = h

pub length-pos : (xs : List ℕ) → xs ≢ [] → 0 < length xs
length-pos [] h = absurd (h refl)
length-pos (x ∷ xs) h = omega arith

-- On a mounted volume of fewer than 256 sectors in a cluster, `f_read` and `f_write` are such reads
-- and writes: of a source whose cursor is within its sector and its cluster, and its position
-- within its size, what is left lies between the two, and a destination whose cursor is within its
-- sector has room up to position 2 ^ 32 - 1.
unfoldable pub fat-Transfers :
    (fuel : ℕ) (v : Volume) → v.sectors_per_cluster < 256 → Transfers (fat fuel (some v))
unfolding fat
fat-Transfers fuel v few = record {
  Source = λ f.
      (f.byte_in_sector < 512)
      × (f.sector_in_cluster < v.sectors_per_cluster)
      × (f.position ≤ f.size)
      × (f.size < 4294967296);
  Target = λ g. g.byte_in_sector < 512;
  left = λ f. f.size - f.position;
  room = λ g. 4294967295 - g.position;
  reads = λ d f h.
      let io : Io = record { disk = d; file = f; buf = λ j. 0 } in
      on_file-Ends _ _ _ _ (f_read (some v) 512 io)
        (λ n t p. (
          (
            p.within,
            p.inside,
            omega (arith, p.position, p.size, p.most, h.2),
            omega (arith, p.size, h.3),
          ),
          omega (arith, p.position, p.size, p.most, h.2, length-slice t.buf 0 n),
        ))
        (f_read-Ends v 512 io few h.1 h.0 h.2 h.3);
  writes = λ bytes d g h some_bytes fit.
      let io : Io = record { disk = d; file = g; buf = λ j. 0 } in
      on_file-Ends _ _ _ _ (f_write (some v) (length bytes) (λ j. get_or bytes j 0) io)
        (λ n t p. (p.4, omega (arith, p.1)))
        (f_write-Ends (some v) (length bytes) (λ j. get_or bytes j 0) io h
          (length-pos bytes some_bytes) (omega (arith, length-pos bytes some_bytes)));
}
