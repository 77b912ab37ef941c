-- ===== src/Fat/Transfer/Filled.antt =====
-- What `f_write` of src/hal/fat32.rs puts on the disk where it stays within a cluster.
use planck_os.Prelude.{
  ℕ, zero, suc, ◌+◌, ◌-◌, ◌*◌, max, true, not, some, ◌==◌, ltb, ◌≡◌, refl, ◌≢◌, ◌<◌, ◌≤◌, ltb→lt,
  ==→eq, le_of_ltb, arith, update,
}
use mathlib.Core.Path.{subst}
use planck_os.Fat.{
  FError, Volume, Run, hang, ok, err, read_sector, write_sector, read_sector-ok, write_sector-ok,
}
use planck_os.Fat.Outcome.{Ends, Ends-bind, Ends-if, Ends-map}
use planck_os.Fat.Transfer.{
  Io, on_vol, has_bit, fa_write, file_lba, cursor_copy, copy_in, write_step, advance_write,
  write_loop, first_cluster, f_write,
}
use planck_os.Fat.Transfer.Write.{f_write-Ends}
use planck_os.Fat.Transfer.Within.{
  Succeeds, on_vol-Succeeds, first_lba, offset_of, IsOpen, Filled, advance_write-Same, lba_here, s1,
  join, opened, nothing-Filled,
}

write_loop-Filled :
    (fuel : ℕ) (v : Volume) (total : ℕ) (src : ℕ → ℕ) (done : ℕ) (s : Io)
    → total - done < fuel
    → done ≤ total
    → offset_of s + (total - done) < 512 * v.sectors_per_cluster
    → IsOpen v s
    → Succeeds
        (λ n t. (n ≡ total) × Filled v s src done (total - done) t)
        (write_loop fuel (some v) total src done s)
unfolding write_loop Ends
write_loop-Filled zero v total src done s f l room o = omega arith
write_loop-Filled (suc fuel) v total src done s f l room o =
    Ends-if _ _ (ltb done total) _ _ s
      (λ e.
        let below = ltb→lt done total e in
        let n = cursor_copy s.file total done in
        let at = lba_here v s src total done o below in
        let here = first_lba v s + s.file.sector_in_cluster in
        let new = copy_in (s.disk.sectors here) s.file.byte_in_sector n src done in
        Ends-bind _ _ _ (on_vol (some v) (λ v. read_sector (file_lba v s.file)) s) _
          (on_vol-Succeeds v (λ v. read_sector (file_lba v s.file)) s (s.disk.sectors here) s.disk
            (rw at (read_sector-ok here s.disk (o.reads s.file.sector_in_cluster o.sector))))
          (λ sector t q.
            rw (q.0, q.1)
              (Ends-bind _ _ _ (on_vol (some v) (λ v. write_sector (file_lba v s.file) new) s) _
                (on_vol-Succeeds v (λ v. write_sector (file_lba v s.file) new) s tt
                  (record s.disk { sectors = update s.disk.sectors here new })
                  (rw at
                    (write_sector-ok here new s.disk (o.writes s.file.sector_in_cluster o.sector))))
                (λ _ t q. rw (q.1) (
                  Ends-bind _ _ _
                    (advance_write (some v) (write_step (s1 v s src total done o below) total done))
                    _
                    (advance_write-Same v (write_step (s1 v s src total done o below) total done)
                      (omega (arith, o.cursor)) o.few (omega (arith, o.cursor, below)))
                    (λ _ t m.
                      Ends-map _ _ (λ _ _. ⊥) _ (write_loop fuel (some v) total src (done + n) t)
                        (λ k u g. (g.0, join v s src total done o below t u m g.1)) (λ e u r. r)
                        (write_loop-Filled fuel v total src (done + n) t
                          (omega (arith, o.cursor, below)) (omega (arith, o.cursor, below))
                          (omega (arith, m.offset, o.cursor, below))
                          (opened v s src total done o below t t m))))))))
      (λ e. (
        omega (arith, le_of_ltb done total e),
        nothing-Filled v s src done (total - done) (omega (arith, le_of_ltb done total e)),
      ))

has_cluster :
    (v : Volume) (s : Io)
    → s.file.current_cluster ≢ 0
    → Succeeds (λ _ t. t ≡ s) (first_cluster (some v) s)
unfolding first_cluster Ends
has_cluster v s h =
    Ends-if _ _ (s.file.current_cluster == 0) _ _ s
      (λ e. absurd (h (==→eq s.file.current_cluster 0 e))) (λ _. refl)

stays_within :
    (v : Volume) (len : ℕ) (src : ℕ → ℕ) (s : Io)
    → has_bit s.file.flags fa_write ≡ true
    → s.file.current_cluster ≢ 0
    → 0 < len
    → offset_of s + len < 512 * v.sectors_per_cluster
    → IsOpen v s
    → Succeeds (λ n t. (n ≡ len) × Filled v s src 0 (len - 0) t) (f_write (some v) len src s)
unfolding f_write Ends
stays_within v len src s mode has some_byte room o =
    let loop =
      write_loop-Filled (suc len) v len src 0 s (omega arith) (omega arith) (omega arith) o in
    Ends-if _ _ (not (has_bit s.file.flags fa_write)) _ _ s (λ e. absurd (ground arith))
      (λ _.
        Ends-if _ _ (len == 0) _ _ s (λ e. absurd (omega (arith, ==→eq len 0 e)))
          (λ _.
            Ends-bind _ _ _ (first_cluster (some v) s) _ (has_cluster v s has)
              (λ _ t q. rw q loop)))

both-Succeeds :
    {S A : Type 0} (P P' P'' : A → S → Type 0) (Q : FError → S → Type 0) (r : Run S A)
    → ((a : A) (s : S) → P a s → P' a s → P'' a s)
    → Succeeds P r
    → Ends P' Q r
    → Succeeds P'' r
unfolding Ends
both-Succeeds P P' P'' Q (ok a s) f p q = f a s p q
both-Succeeds P P' P'' Q (err e s) f p q = p
both-Succeeds P P' P'' Q hang f p q = p

-- With a mounted volume of fewer than 256 sectors in a cluster, on a file that is open for writing
-- and has a cluster, whose sectors lie below 2 ^ 32 and can be read and written, and whose cursor
-- is within its sector and its cluster and whose position does not pass 2 ^ 32, writing at least
-- one byte up to before the end of the cluster succeeds: it gives `len`, the bytes of the cluster
-- from the cursor on are the `len` bytes of the caller, every other byte of the cluster and every
-- other sector is as it was, the position is moved by `len`, the size grows to it if it is beyond,
-- and the file is marked as changed.
pub f_write-Filled :
    (v : Volume) (len : ℕ) (src : ℕ → ℕ) (s : Io)
    → has_bit s.file.flags fa_write ≡ true
    → s.file.current_cluster ≢ 0
    → 0 < len
    → offset_of s + len < 512 * v.sectors_per_cluster
    → s.file.position + len < 4294967296
    → IsOpen v s
    → Succeeds
        (λ n t.
          (n ≡ len)
          × Filled v s src 0 len t
          × (t.file.position ≡ s.file.position + len)
          × (t.file.size ≡ max s.file.size (s.file.position + len))
          × (t.file.modified ≡ true))
        (f_write (some v) len src s)
f_write-Filled v len src s mode has some_byte room low o =
    both-Succeeds _ _ _ _ (f_write (some v) len src s)
      (λ n t p q. (p.0, subst (λ k. Filled v s src 0 k t) (omega arith) p.1, q.1, q.2, q.3))
      (stays_within v len src s mode has some_byte room o)
      (f_write-Ends (some v) len src s o.cursor some_byte low)
