-- ===== src/Fat/Transfer/Write.antt =====
-- What `f_write` of src/hal/fat32.rs does to the file, over whatever the sectors and the file table
-- hold.
use planck_os.Prelude.{
  ℕ, zero, suc, ◌+◌, ◌-◌, max, true, not, Option, ◌==◌, ltb, if◌then◌else◌, ◌≡◌, refl, ◌∙◌, ◌<◌,
  ◌≤◌, ◌⊎◌, inl, inr, ltb→lt, le_of_ltb, ==→eq, arith,
}
use mathlib.Core.Path.{subst}
use planck_os.Fat.{Volume, File, ◌>>◌, read_sector, write_sector}
use planck_os.Fat.Outcome.{
  Ends, Ends-bind, Ends-if, Ends-map, read_sector-Halts, write_sector-Halts,
}
use planck_os.Fat.Transfer.{
  Io, on_vol, has_bit, fa_write, file_lba, cursor_copy, copy_in, write_step, advance_write,
  write_loop, first_cluster, f_write,
}
use planck_os.Fat.Transfer.Advance.{
  Kept, Steady, on_vol-Halts, advance_write_lem, first_cluster-Ends,
}

-- The loop has gone through all `to_write` bytes. The size covers the position, the file is marked
-- as changed, and the cursor is within its sector.
abbrev pub Written : File → ℕ → ℕ → ℕ → Io → Type 0
Written f to_write written n t =
    (n ≡ to_write)
    × (t.file.position ≡ f.position + (to_write - written))
    × (t.file.size ≡ max f.size t.file.position)
    × (t.file.modified ≡ true)
    × (t.file.byte_in_sector < 512)

-- What the loop needs of the file: the cursor is within its sector, the position does not wrap, and
-- a file of which nothing is left to write is as the loop leaves it.
abbrev pub Writable : File → ℕ → Type 0
Writable f left =
    (f.byte_in_sector < 512)
    × (f.position + left < 4294967296)
    × ((0 < left) ⊎ ((f.position ≤ f.size) × (f.modified ≡ true)))

grow : (size end end' : ℕ) → end ≡ end' → (if ltb size end then end else size) ≡ max size end'
grow size end end' e = ground arith

write_step-Steady :
    (s : Io) (to_write written : ℕ)
    → Writable s.file (to_write - written)
    → written < to_write
    → let t = write_step s to_write written in
      let k = cursor_copy s.file to_write written in
      (t.file.byte_in_sector ≤ 512)
      × (t.file.position ≡ s.file.position + k)
      × (t.file.size ≡ max s.file.size (s.file.position + k))
      × (0 < k)
      × (k ≤ to_write - written)
write_step-Steady s to_write written (b, p, r) l = (
  omega arith,
  omega arith,
  grow s.file.size _ (s.file.position + cursor_copy s.file to_write written) (omega arith),
  omega arith,
  omega arith,
)

-- The part of a round after the sector is written, from the rest of the loop.
after_write :
    (fuel : ℕ) (vol : Option Volume) (to_write : ℕ) (src : ℕ → ℕ) (written : ℕ) (s : Io)
    → Writable s.file (to_write - written)
    → written < to_write
    → let k = cursor_copy s.file to_write written in
      ((u : Io)
        → Writable u.file (to_write - (written + k))
        → Ends
            (λ n t. Written u.file to_write (written + k) n t)
            Kept
            (write_loop fuel vol to_write src (written + k) u))
      → Ends
          (λ n t. Written s.file to_write written n t)
          Kept
          ((do
            advance_write vol
            write_loop fuel vol to_write src (written + cursor_copy s.file to_write written))
            (write_step s to_write written))
after_write fuel vol to_write src written s c l rest =
    let k = cursor_copy s.file to_write written in
    let s1 = write_step s to_write written in
    let m = write_step-Steady s to_write written c l in
    Ends-bind (λ _ t. Steady s1.file t.file) _ _ (advance_write vol s1) _
      (advance_write_lem vol s1 m.0)
      (λ _ t h.
        Ends-map (λ n u. Written t.file to_write (written + k) n u) _ Kept _
          (write_loop fuel vol to_write src (written + k) t)
          (λ n u q. (
            q.0,
            omega (arith, q.1, h.0, m.1, m.4, l),
            omega (arith, q.1, q.2, h.0, h.1, m.1, m.2, l),
            q.3,
            q.4,
          ))
          (λ e u r. r)
          (rest t
            (h.3, omega (arith, h.0, m.1, m.4, c.1), inr (omega (arith, h.0, h.1, m.1, m.2), h.2))))

after_write_from :
    (fuel : ℕ) (vol : Option Volume) (to_write : ℕ) (src : ℕ → ℕ) (written : ℕ) (f : File) (s : Io)
    → s.file ≡ f
    → Writable f (to_write - written)
    → written < to_write
    → let k = cursor_copy f to_write written in
      ((u : Io)
        → Writable u.file (to_write - (written + k))
        → Ends
            (λ n t. Written u.file to_write (written + k) n t)
            Kept
            (write_loop fuel vol to_write src (written + k) u))
      → Ends
          (λ n t. Written f to_write written n t)
          Kept
          ((do
            advance_write vol
            write_loop fuel vol to_write src (written + cursor_copy f to_write written))
            (write_step s to_write written))
after_write_from fuel vol to_write src written f s e =
    subst
      (λ f.
        Writable f (to_write - written)
        → written < to_write
        → ((u : Io)
            → Writable u.file (to_write - (written + cursor_copy f to_write written))
            → Ends (λ n t. Written u.file to_write (written + cursor_copy f to_write written) n t)
                Kept
                (write_loop fuel vol to_write src (written + cursor_copy f to_write written) u))
        → Ends (λ n t. Written f to_write written n t) Kept
            ((do
              advance_write vol
              write_loop fuel vol to_write src (written + cursor_copy f to_write written))
              (write_step s to_write written)))
      e (after_write fuel vol to_write src written s)

-- Nothing is left to write.
at_end :
    (s : Io) (to_write written : ℕ)
    → written ≤ to_write
    → to_write ≤ written
    → Writable s.file (to_write - written)
    → Written s.file to_write written written s
at_end s to_write written a b (c, p, inl h) = absurd (omega arith)
at_end s to_write written a b (c, p, inr (h, m)) = (omega arith, omega arith, omega arith, m, c)

write_loop-Ends :
    (fuel : ℕ) (vol : Option Volume) (to_write : ℕ) (src : ℕ → ℕ) (written : ℕ) (s : Io)
    → to_write - written < fuel
    → written ≤ to_write
    → Writable s.file (to_write - written)
    → Ends
        (λ n t. Written s.file to_write written n t)
        Kept
        (write_loop fuel vol to_write src written s)
unfolding write_loop Ends
write_loop-Ends zero vol to_write src written s f l c = omega arith
write_loop-Ends (suc fuel) vol to_write src written s f l c =
    let k = cursor_copy s.file to_write written in
    let lba : Volume → ℕ = λ v. file_lba v s.file in
    Ends-if _ _ (ltb written to_write) _ _ s
      (λ e.
        Ends-bind (λ _ t. t.file ≡ s.file) _ _ (on_vol vol (λ v. read_sector (lba v)) s) _
          (on_vol-Halts vol (λ v. read_sector (lba v)) s (λ v. read_sector-Halts (lba v) s.disk))
          (λ sector t q.
            let buf = copy_in sector s.file.byte_in_sector k src written in
            Ends-bind (λ _ u. u.file ≡ t.file) _ _ (on_vol vol (λ v. write_sector (lba v) buf) t) _
              (on_vol-Halts vol (λ v. write_sector (lba v) buf) t
                (λ v. write_sector-Halts (lba v) buf t.disk))
              (λ _ u r.
                after_write_from fuel vol to_write src written s.file u (r ∙ q) c
                  (ltb→lt written to_write e)
                  (λ w cw.
                    write_loop-Ends fuel vol to_write src (written + k) w
                      (omega (arith, ltb→lt written to_write e))
                      (omega (arith, ltb→lt written to_write e)) cw))))
      (λ e. at_end s to_write written l (le_of_ltb written to_write e) c)

-- `f_write` ends, whatever the disk and the file hold, on a file whose cursor is within its sector,
-- for at least one byte, and where the position does not pass 2 ^ 32. Either it gives
-- `len`, moves the position by `len`, grows the size to the position if that
-- is beyond it, marks the file as changed and has the cursor within its sector; or it fails with the error that it keeps in the
-- file.
pub f_write-Ends :
    (vol : Option Volume) (len : ℕ) (src : ℕ → ℕ) (s : Io)
    → s.file.byte_in_sector < 512
    → 0 < len
    → s.file.position + len < 4294967296
    → Ends
        (λ n t.
          (n ≡ len)
          × (t.file.position ≡ s.file.position + len)
          × (t.file.size ≡ max s.file.size (s.file.position + len))
          × (t.file.modified ≡ true)
          × (t.file.byte_in_sector < 512))
        Kept
        (f_write vol len src s)
unfolding f_write Ends
f_write-Ends vol len src s b l p =
    Ends-if _ _ (not (has_bit s.file.flags fa_write)) _ _ s (λ _. refl)
      (λ _.
        Ends-if _ _ (len == 0) _ _ s (λ e. absurd (omega (arith, ==→eq len 0 e)))
          (λ _.
            Ends-bind (λ _ t. Steady s.file t.file) _ _ (first_cluster vol s) _
              (first_cluster-Ends vol s b)
              (λ _ t h.
                Ends-map (λ n u. Written t.file len 0 n u) _ Kept _
                  (write_loop (suc len) vol len src 0 t)
                  (λ n u q.
                    (q.0, omega (arith, q.1, h.0), omega (arith, q.1, q.2, h.0, h.1), q.3, q.4))
                  (λ e u r. r)
                  (write_loop-Ends (suc len) vol len src 0 t (omega arith) (omega arith)
                    (h.3, omega (arith, h.0), inl (omega arith))))))
