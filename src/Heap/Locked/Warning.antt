-- ===== src/Heap/Locked/Warning.antt =====
-- When the allocator of src/hal/memory.rs warns of a failed allocation.
use planck_os.Prelude.{ℕ, ◌+◌, ◌-◌, ◌≡◌, ◌≢◌, ◌⊎◌, Bool, true, false, Option, some}
use planck_os.Prelude.{add64}
use planck_os.Heap.{State}
use planck_os.Heap.FirstFit.{NoWrap}

-- A pointer and no failure counted, or a null pointer and one failure.
pub data Served (s : State) : Option (State × ℕ) → Type 0 where
  served :
      (s' : State) (p : ℕ)
      → p ≢ 0
      → s'.core.oom_count ≡ s.core.oom_count
      → s'.core.align_fail_count ≡ s.core.align_fail_count
      → Served s (some (s', p))
  refused :
      (s' : State)
      → s'.core.oom_count ≡ add64 s.core.oom_count 1
      → s'.core.align_fail_count ≡ s.core.align_fail_count
      → Served s (some (s', 0))
  misaligned :
      (s' : State)
      → s'.core.oom_count ≡ s.core.oom_count
      → s'.core.align_fail_count ≡ add64 s.core.align_fail_count 1
      → Served s (some (s', 0))

-- The walk over the chunks of a segment does not wrap.
abbrev pub SegmentNoWrap : State → ℕ → Type 0
SegmentNoWrap s i = NoWrap s.mem ((s.core.segments i).base + 16) ((s.core.segments i).end - 16)

-- What the caller gets, with a warning exactly when the pointer is null.
pub record Warns (o : Option (State × ℕ × Bool)) : Type 0 where
  pub after : State
  pub pointer : ℕ
  pub warning : Bool
  pub ends : o ≡ some (after, pointer, warning)
  pub exact : ((pointer ≡ 0) × (warning ≡ true)) ⊎ ((pointer ≢ 0) × (warning ≡ false))
