-- ===== src/Ata/Tests.antt =====
-- The theorems of src/hal/ata.rs at a drive that is busy at every other read.
use planck_os.Prelude.{
  ℕ, ◌+◌, ◌%◌, ◌≡◌, ◌⊎◌, ap, true, ◌==◌, if◌then◌else◌, [], arith, inl, inr, Bool-cases, ==→eq,
  ==→ne,
}
use planck_os.Ata.{Drive, Io, new, read_sector}
use planck_os.Ata.Sector.{Answers, answers, Read, read_sector-Read}

-- Busy, then ready with data.
abbrev drive : Drive
drive = record { status = λ n. if n % 2 == 0 then 0x80 else 0x48; words = λ n. n }

abbrev fresh : Io
fresh = record { status_reads = 0; data_reads = 0; other_reads = 0; out = [] }

status_parity : (k : ℕ) → (k % 2 ≡ 0) ⊎ (k % 2 ≡ 1)
status_parity k = elim (Bool-cases (k % 2 == 0)) [
  | inl e ↦ inl (==→eq (k % 2) 0 e)
  | inr e ↦ inr (ground (arith, ==→ne (k % 2) 0 e))
]

drive-Answers : Answers 2 drive
drive-Answers k = elim (status_parity k) [
  | inl e ↦
      let odd : (k + 1) % 2 ≡ 1 = omega (arith, e) in
      (1, omega arith, ap (λ r. answers (if r == 0 then 0x80 else 0x48)) odd)
  | inr e ↦
      let odd : (k + 0) % 2 ≡ 1 = omega (arith, e) in
      (0, omega arith, ap (λ r. answers (if r == 0 then 0x80 else 0x48)) odd)
]

read_sector-Read_example :
    Read drive
      (new 0x1F0 true)
      77
      (λ j. 0)
      fresh
      (read_sector 2 drive (new 0x1F0 true) 77 (λ j. 0) fresh)
read_sector-Read_example = read_sector-Read 2 drive (new 0x1F0 true) 77 (λ j. 0) fresh drive-Answers
