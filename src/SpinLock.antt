-- ===== src/SpinLock.antt =====
-- The lock of src/hal/memory.rs, `SpinLock`, taken by several cores. Each core has its interrupt
-- flag and its place in `lock` and `unlock`; a step is one access of one core to the shared words
-- or to its interrupt flag, and the steps of the cores interleave in any order. The hardware's
-- `compare_exchange` is one step.
pub mod Exclusion
mod Tests
use planck_os.Prelude.{ℕ, Bool, true, false, ◌≡◌, update}

-- Where a core stands: `idle` and `holding` are outside `lock` and `unlock`.
pub data Place : Type 0 where
  idle : Place
  flags_read : Bool → Place
  saved : Place
  spinning : Place
  holding : Place
  released : Place

pub record Core : Type 0 where
  pub place : Place
  pub interrupts : Bool

pub record State : Type 0 where
  pub flag : Bool
  pub saved_if : Bool
  pub cores : ℕ → Core

-- `SpinLock::new`, and cores that have not come to the lock.
abbrev pub new : (ℕ → Bool) → State
new interrupts = record {
  flag = false;
  saved_if = true;
  cores = λ i. record { place = idle; interrupts = interrupts i };
}

abbrev pub at : ℕ → Place → State → State
at i p s = record s { cores = update s.cores i (record (s.cores i) { place = p }) }

-- `cli` and `sti`: the core's interrupt flag, and the place that follows.
abbrev pub flag_at : ℕ → Place → Bool → State → State
flag_at i p b s = record s { cores = update s.cores i (record { place = p; interrupts = b }) }

-- `Step i s t`: the core `i` makes its next step.
pub data Step (i : ℕ) : State → State → Type 0 where
  pushfq :
      (s : State) → (s.cores i).place ≡ idle → Step i s (at i (flags_read (s.cores i).interrupts) s)
  save :
      (s : State) (b : Bool)
      → (s.cores i).place ≡ flags_read b
      → Step i s (at i saved (record s { saved_if = b }))
  cli : (s : State) → (s.cores i).place ≡ saved → Step i s (flag_at i spinning false s)
  acquire :
      (s : State)
      → (s.cores i).place ≡ spinning
      → s.flag ≡ false
      → Step i s (at i holding (record s { flag = true }))
  retry : (s : State) → (s.cores i).place ≡ spinning → s.flag ≡ true → Step i s s
  store :
      (s : State)
      → (s.cores i).place ≡ holding
      → Step i s (at i released (record s { flag = false }))
  restore :
      (s : State)
      → (s.cores i).place ≡ released
      → s.saved_if ≡ true
      → Step i s (flag_at i idle true s)
  leave : (s : State) → (s.cores i).place ≡ released → s.saved_if ≡ false → Step i s (at i idle s)

pub data Steps : State → State → Type 0 where
  done : (s : State) → Steps s s
  more : {s t u : State} (i : ℕ) → Steps s t → Step i t u → Steps s u
