-- ===== src/Fat/Transfer/Read.antt =====
-- What `f_read` of src/hal/fat32.rs reads, over whatever the sectors and the file table hold.
use planck_os.Prelude.{
  ℕ, zero, suc, ◌+◌, ◌-◌, ◌*◌, min, true, not, some, ◌==◌, ltb, if◌then◌else◌, ◌≡◌, refl, ◌∙◌, ◌<◌,
  ◌≤◌, ltb→lt, ==→eq, le_of_ltb, arith,
}
use planck_os.Fat.{Volume, pure, ◌>>=◌, sub32, read_sector}
use planck_os.Fat.Outcome.{Ends, Ends-bind, Ends-if, Ends-map, pure-Gives, read_sector-Gives}
use planck_os.Fat.Transfer.{
  Io, on_vol, has_bit, fa_read, file_lba, cursor_copy, read_step, advance_read, read_loop, f_read,
}
use planck_os.Fat.Transfer.Cursor.{Reports, on_vol-Gives, Moved, advance_read_lem}
use planck_os.Fat.Transfer.Round.{
  Progress, Cursor, none_read, step_bound, step_moves, join, stopped,
}

module _ (v : Volume) (s : Io) (to_read read : ℕ) (c : Cursor v s (to_read - read))
    (l : read < to_read) where
  abbrev k : ℕ
  k = cursor_copy s.file to_read read

  abbrev t0 : Io
  t0 = read_step s (s.disk.sectors (file_lba v s.file)) to_read read

  -- The part of a round after the copy, from the rest of the loop.
  after_copy :
      (fuel : ℕ)
      → v.sectors_per_cluster < 256
      → ((u : Io)
          → Cursor v u (to_read - (read + k))
          → Ends
              (λ made t. Progress v u to_read (read + k) (min (suc (read + k)) to_read) made t)
              (Reports u.disk)
              (read_loop fuel (some v) to_read (read + k) u))
      → Ends
          (λ made t. Progress v s to_read read (min (suc read) to_read) made t)
          (Reports s.disk)
          ((do
            more ← advance_read (some v)
            if more then read_loop fuel (some v) to_read (read + k) else pure (read + k))
            t0)
  unfolding Ends
  after_copy fuel few rest =
      Ends-bind _ _ _ (advance_read (some v) t0) _
        (advance_read_lem v t0
          (omega (arith, (step_moves v s to_read read c l).0, (step_bound v s to_read read c l).2))
          c.2 few)
        (λ more t m.
          Ends-if _ _ more _ _ t
            (λ e.
              let go : Moved v t0 true t = rw e at m in
              Ends-map _ _ (Reports t.disk) _ (read_loop fuel (some v) to_read (read + k) t)
                (λ made u q. join v s to_read read c l t go made u q) (λ e u r. (r.0 ∙ m.disk, r.1))
                (rest t (
                  m.within,
                  omega (
                    arith,
                    m.position,
                    (step_moves v s to_read read c l).1,
                    (step_bound v s to_read read c l).1,
                    c.1,
                  ),
                  m.inside,
                )))
            (λ _. stopped v s to_read read c l more t m))

read_loop-Ends :
    (fuel : ℕ) (v : Volume) (to_read read : ℕ) (s : Io)
    → to_read - read < fuel
    → read ≤ to_read
    → v.sectors_per_cluster < 256
    → Cursor v s (to_read - read)
    → Ends
        (λ n t. Progress v s to_read read (min (suc read) to_read) n t)
        (Reports s.disk)
        (read_loop fuel (some v) to_read read s)
unfolding read_loop Ends
read_loop-Ends zero v to_read read s f l few c = omega arith
read_loop-Ends (suc fuel) v to_read read s f l few c =
    Ends-if _ _ (ltb read to_read) _ _ s
      (λ e.
        let below = ltb→lt read to_read e in
        Ends-bind _ _ _ (on_vol (some v) (λ v. read_sector (file_lba v s.file)) s) _
          (on_vol-Gives v (λ v. read_sector (file_lba v s.file)) s
            (s.disk.sectors (file_lba v s.file)) (read_sector-Gives (file_lba v s.file) s.disk))
          (λ sector t q.
            rw (q.0, q.1)
              (after_copy v s to_read read c below fuel few (λ u cu.
                read_loop-Ends fuel v to_read _ u (omega (arith, below)) (omega (arith, below)) few
                  cu))))
      (λ e. none_read v s to_read read _ (c.0, c.2) l (omega (arith, le_of_ltb read to_read e)))

-- `f_read` ends, whatever the disk and the file hold, with a mounted volume of fewer than 256
-- sectors in a cluster, on a file whose cursor is within its sector and its cluster and whose
-- position is within its size, below 2 ^ 32. Either it gives a number `n`, at most the shorter of
-- the buffer and of the rest of the file and at least one where that is not empty: the first `n`
-- bytes of the buffer are the bytes of the file from the cursor on, in the sectors along the chain
-- of the table's entries, the others are as they were, the position is moved by `n`, the cursor is
-- within its sector and its cluster, and the size and the disk are as they were; or it fails with the error that it keeps in the file, and leaves
-- the disk as it is.
pub f_read-Ends :
    (v : Volume) (len : ℕ) (s : Io)
    → v.sectors_per_cluster < 256
    → s.file.sector_in_cluster < v.sectors_per_cluster
    → s.file.byte_in_sector < 512
    → s.file.position ≤ s.file.size
    → s.file.size < 4294967296
    → let rest = min len (s.file.size - s.file.position) in
      Ends (λ n t. Progress v s rest 0 (min 1 rest) n t) (Reports s.disk) (f_read (some v) len s)
unfolding f_read Ends
f_read-Ends v len s few inside b p w =
    let to_read = min len (sub32 s.file.size s.file.position) in
    let same : to_read ≡ min len (s.file.size - s.file.position) = omega arith in
    rw (← same) (
      Ends-if _ _ (not (has_bit s.file.flags fa_read)) _ _ s (λ _. (refl, refl))
        (λ _.
          Ends-if _ _ (to_read == 0) _ _ s
            (λ e.
              none_read v s to_read 0 _ (b, inside) (omega arith)
                (omega (arith, ==→eq to_read 0 e)))
            (λ _.
              Ends-bind _ _ _ (on_vol (some v) (λ v. pure (v.sectors_per_cluster * 512)) s) _
                (on_vol-Gives v (λ v. pure (v.sectors_per_cluster * 512)) s
                  (v.sectors_per_cluster * 512) (pure-Gives (v.sectors_per_cluster * 512) s.disk))
                (λ _ t q. rw (q.1) (
                  read_loop-Ends (suc to_read) v to_read 0 s (omega arith) (omega arith) few
                    (b, omega arith, inside))))))
