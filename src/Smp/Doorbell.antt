-- ===== src/Smp/Doorbell.antt =====
-- The doorbell of src/hal/smp.rs: `handle_ipi` runs on a core between any two accesses of the loop
-- of `ap_main64` on the same core. A step is one access of the loop to the flag, its log line, its
-- halt, or one run of the handler.
use planck_os.Prelude.{ℕ, ◌+◌, ◌%◌, ◌≤◌, ◌≡◌, refl, Bool, true, false, arith}
use planck_os.Prelude.{◌^◌}

-- Where the loop stands: at its top, behind `read_volatile` and behind `write_volatile` of
-- `take_ipi_flag`, which found the value, and in `hlt`.
pub data Place : Type 0 where
  top : Place
  flag_read : Bool → Place
  flag_cleared : Bool → Place
  halted : Place

-- `ipi_count` and `ipi_flag` of the core, and the lines that it has logged.
pub record Bell : Type 0 where
  pub place : Place
  pub ipi_count : ℕ
  pub ipi_flag : Bool
  pub logged : ℕ

abbrev pub fresh : Bell
fresh = record { place = top; ipi_count = 0; ipi_flag = false; logged = 0 }

-- The end of `hlt`: an interrupt.
abbrev pub awake : Place → Place
awake top = top
awake (flag_read v) = flag_read v
awake (flag_cleared v) = flag_cleared v
awake halted = top

abbrev pub handle_ipi : Bell → Bell
handle_ipi b = record b {
  place = awake b.place;
  ipi_count = (b.ipi_count + 1) % 2 ^ 64;
  ipi_flag = true;
}

pub data Step : Bell → Bell → Type 0 where
  ipi : (b : Bell) → Step b (handle_ipi b)
  read : (b : Bell) → b.place ≡ top → Step b (record b { place = flag_read b.ipi_flag })
  clear :
      (b : Bell) (v : Bool)
      → b.place ≡ flag_read v
      → Step b (record b { place = flag_cleared v; ipi_flag = false })
  log :
      (b : Bell)
      → b.place ≡ flag_cleared true
      → Step b (record b { place = top; logged = b.logged + 1 })
  halt : (b : Bell) → b.place ≡ flag_cleared false → Step b (record b { place = halted })

pub data Steps : Bell → Bell → Type 0 where
  done : (b : Bell) → Steps b b
  more : {a b c : Bell} → Steps a b → Step b c → Steps a c

abbrev pub ring : Bool → ℕ
ring true = 1
ring false = 0

-- The lines that the loop will still log for what has come so far, at most.
abbrev pub owed : Place → Bool → ℕ
owed top flag = ring flag
owed (flag_read true) flag = 1
owed (flag_read false) flag = ring flag
owed (flag_cleared v) flag = ring v + ring flag
owed halted flag = ring flag

owed-awake : (p : Place) (flag : Bool) → owed (awake p) true ≤ owed p flag + 1
owed-awake top flag = omega arith
owed-awake (flag_read true) flag = omega arith
owed-awake (flag_read false) flag = omega arith
owed-awake (flag_cleared v) flag = omega arith
owed-awake halted flag = omega arith

owed-read : (flag : Bool) → owed (flag_read flag) flag ≤ owed top flag
owed-read true = omega arith
owed-read false = omega arith

owed-clear : (v flag : Bool) → owed (flag_cleared v) false ≤ owed (flag_read v) flag
owed-clear true flag = omega arith
owed-clear false flag = omega arith

-- The interrupts among the steps of a run.
abbrev pub is_ipi : {a b : Bell} → Step a b → ℕ
is_ipi (ipi b) = 1
is_ipi (read b e) = 0
is_ipi (clear b v e) = 0
is_ipi (log b e) = 0
is_ipi (halt b e) = 0

abbrev pub interrupts : {a b : Bell} → Steps a b → ℕ
interrupts (done b) = 0
interrupts (more s t) = is_ipi t + interrupts s

Step-owed :
    {b c : Bell} (t : Step b c) (n : ℕ)
    → b.logged + owed b.place b.ipi_flag ≤ n
    → c.logged + owed c.place c.ipi_flag ≤ is_ipi t + n
Step-owed (ipi b) n h = omega (arith, owed-awake b.place b.ipi_flag)
Step-owed (read b e) n h = omega (arith, owed-read b.ipi_flag, rw e at h)
Step-owed (clear b v e) n h = omega (arith, owed-clear v b.ipi_flag, rw e at h)
Step-owed (log b e) n h = omega (arith, rw e at h)
Step-owed (halt b e) n h = omega (arith, rw e at h)

Step-counts :
    {b c : Bell} (t : Step b c) (n : ℕ)
    → b.ipi_count ≡ n % 2 ^ 64
    → c.ipi_count ≡ (is_ipi t + n) % 2 ^ 64
Step-counts (ipi b) n h = omega (arith, h)
Step-counts (read b e) n h = omega (arith, h)
Step-counts (clear b v e) n h = omega (arith, h)
Step-counts (log b e) n h = omega (arith, h)
Step-counts (halt b e) n h = omega (arith, h)

-- However interrupts fall between the accesses of the idle loop, from its start on, the handler's
-- counter is the number of interrupts of the run modulo 2 ^ 64, and the lines that the loop has
-- logged, with those that it owes for a flag that it has seen or will see, are never more than the
-- interrupts of the run.
pub Steps-bounded :
    (b : Bell) (s : Steps fresh b)
    → (b.ipi_count ≡ interrupts s % 2 ^ 64) × (b.logged + owed b.place b.ipi_flag ≤ interrupts s)
Steps-bounded b (done _) = (refl, omega arith)
Steps-bounded b (more s t) =
    let (counted, bounded) = Steps-bounded _ s in
    (Step-counts t (interrupts s) counted, Step-owed t (interrupts s) bounded)
