-- ===== src/Fat/Transfer/Round.antt =====
-- A round of the loop of `f_read` in src/hal/fat32.rs: the copy out of a sector, and the cursor
-- behind it.
use planck_os.Prelude.{
  ℕ, suc, ◌+◌, ◌-◌, ◌/◌, ◌%◌, min, Bool, true, ltb, ◌≡◌, refl, sym, ◌∙◌, ◌<◌, ◌≤◌, ltb→lt,
  le_of_ltb, ap, arith, inl, inr, Bool-cases,
}
use planck_os.Fat.{Volume}
use planck_os.Fat.Transfer.{Io, file_lba, cursor_copy, read_step}
use planck_os.Fat.Transfer.Content.{sector_after, file_byte, file_byte-here}
use planck_os.Fat.Transfer.Cursor.{Moved}

-- From `read` bytes on, the loop has made `n` bytes of the `to_read`, at least `least`, and the
-- position is ahead by as many. The buffer holds the bytes of the file from the cursor on, and is
-- as it was before the first and behind the last of them. The cursor is within its sector and its
-- cluster.
pub record Progress (v : Volume) (s : Io) (to_read read least n : ℕ) (t : Io) : Type 0 where
  pub disk : t.disk ≡ s.disk
  pub size : t.file.size ≡ s.file.size
  pub position : t.file.position + read ≡ s.file.position + n
  pub within : t.file.byte_in_sector < 512
  pub inside : t.file.sector_in_cluster < v.sectors_per_cluster
  pub most : n ≤ to_read
  pub made : least ≤ n
  pub bytes : (j : ℕ) → read ≤ j → j < n → t.buf j ≡ file_byte v s.disk s.file (j - read)
  pub before : (j : ℕ) → j < read → t.buf j ≡ s.buf j
  pub behind : (j : ℕ) → n ≤ j → t.buf j ≡ s.buf j

-- What the loop needs of the file and of the bytes that are left.
abbrev pub Cursor : Volume → Io → ℕ → Type 0
Cursor v s left =
    (s.file.byte_in_sector < 512)
    × (s.file.position + left < 4294967296)
    × (s.file.sector_in_cluster < v.sectors_per_cluster)

-- Nothing is read.
pub none_read :
    (v : Volume) (s : Io) (to_read read least : ℕ)
    → (s.file.byte_in_sector < 512) × (s.file.sector_in_cluster < v.sectors_per_cluster)
    → read ≤ to_read
    → least ≤ read
    → Progress v s to_read read least read s
none_read v s to_read read least c h k = record {
  within = c.0;
  inside = c.1;
  disk = refl;
  size = refl;
  position = refl;
  most = h;
  made = k;
  bytes = λ j a b. absurd (omega arith);
  before = λ j a. refl;
  behind = λ j a. refl;
}

module _ (v : Volume) (s : Io) (to_read read : ℕ) (c : Cursor v s (to_read - read))
    (l : read < to_read) where
  abbrev pub k : ℕ
  k = cursor_copy s.file to_read read

  abbrev pub s1 : Io
  s1 = read_step s (s.disk.sectors (file_lba v s.file)) to_read read

  pub step_bound : (0 < k) × (k ≤ to_read - read) × (s.file.byte_in_sector + k ≤ 512)
  step_bound = (omega arith, omega arith, omega arith)

  pub step_moves :
      (s1.file.byte_in_sector ≡ s.file.byte_in_sector + k)
      × (s1.file.position ≡ s.file.position + k)
  step_moves = (omega arith, omega arith)

  -- The copy of a round is of the next `k` bytes of the file.
  step_bytes : (j : ℕ) → read ≤ j → j < read + k → s1.buf j ≡ file_byte v s.disk s.file (j - read)
  step_bytes j a b =
      let copied : s1.buf j
          ≡ s.disk.sectors (file_lba v s.file) (s.file.byte_in_sector + (j - read)) =
        ground arith in
      copied ∙ sym (file_byte-here v s.disk s.file (j - read) (omega (arith, step_bound.2)))

  step_before : (j : ℕ) → j < read → s1.buf j ≡ s.buf j
  step_before j a = ground arith

  step_behind : (j : ℕ) → read + k ≤ j → s1.buf j ≡ s.buf j
  step_behind j a = ground arith

  -- The cursor behind the copy stands for the one before it, `k` bytes on.
  step_ahead :
      (i i' : ℕ) → i' ≡ k + i → file_byte v s1.disk s1.file i ≡ file_byte v s.disk s.file i'
  step_ahead i i' e =
      let same : s1.file.byte_in_sector + i ≡ s.file.byte_in_sector + i' =
        omega (arith, step_moves.0, e) in
      ap
        (λ x.
          s.disk.sectors
            (sector_after v s.disk s.file.current_cluster s.file.sector_in_cluster (x / 512))
            (x % 512))
        same

  module _ (t : Io) (m : Moved v s1 true t) where
    -- A round, and the rest of the loop from the moved cursor.
    pub join :
        (n : ℕ) (u : Io)
        → Progress v t to_read (read + k) (min (suc (read + k)) to_read) n u
        → Progress v s to_read read (min (suc read) to_read) n u
    join n u p = record {
      disk = p.disk ∙ m.disk;
      size = p.size ∙ m.size;
      position = omega (arith, p.position, m.position, step_moves.1);
      within = p.within;
      inside = p.inside;
      most = p.most;
      made = omega (arith, p.made, step_bound.0, step_bound.1, l);
      bytes = λ j a b. elim (Bool-cases (ltb j (read + k))) [
        | inl e ↦
            p.before j (ltb→lt j (read + k) e)
            ∙ ap (λ f. f j) m.buf
            ∙ step_bytes j a (ltb→lt j (read + k) e)
        | inr e ↦
            let far : read + k ≤ j = le_of_ltb j (read + k) e in
            p.bytes j far b
            ∙ ap (λ d. file_byte v d t.file (j - (read + k))) m.disk
            ∙ m.ahead refl (j - (read + k))
            ∙ step_ahead (j - (read + k)) (j - read) (omega (arith, far))
      ];
      before = λ j a. p.before j (omega arith) ∙ ap (λ f. f j) m.buf ∙ step_before j a;
      behind = λ j a.
          p.behind j a
          ∙ ap (λ f. f j) m.buf
          ∙ step_behind j (omega (arith, a, p.made, step_bound.1, l));
    }

  -- A round after which the loop stops.
  pub stopped :
      (more : Bool) (t : Io)
      → Moved v s1 more t
      → Progress v s to_read read (min (suc read) to_read) (read + k) t
  stopped more t m = record {
    disk = m.disk;
    size = m.size;
    position = omega (arith, m.position, step_moves.1);
    within = m.within;
    inside = m.inside;
    most = omega (arith, step_bound.1, l);
    made = omega (arith, step_bound.0);
    bytes = λ j a b. ap (λ f. f j) m.buf ∙ step_bytes j a b;
    before = λ j a. ap (λ f. f j) m.buf ∙ step_before j a;
    behind = λ j a. ap (λ f. f j) m.buf ∙ step_behind j a;
  }
