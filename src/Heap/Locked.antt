-- ===== src/Heap/Locked.antt =====
-- The kernel's allocator of src/hal/memory.rs: the heap behind its lock, with the warning that it
-- logs when a counter of failures has moved. The lock itself is in SpinLock; here a call has it.
pub mod Warning
use planck_os.Prelude.{ℕ, Bool, not, Option, none, some, ◌==◌}
use planck_os.Prelude.{add64}
use planck_os.Heap.{State, Layout, init_region, alloc}
use planck_os.Heap.Free.{dealloc}

abbrev pub failures : State → ℕ
failures s = add64 s.core.oom_count s.core.align_fail_count

abbrev pub violations : State → ℕ
violations s = add64 s.core.bad_free_count s.core.double_free_count

-- `GlobalAlloc::alloc`: the state, the pointer, and whether the warning is logged.
pub locked_alloc : State → Layout → Option (State × ℕ × Bool)
locked_alloc s layout = elim (alloc s layout) [
  | none ↦ none
  | some r ↦ some (r.0, r.1, not (failures (r.0) == failures s))
]

-- `GlobalAlloc::dealloc`
pub locked_dealloc : State → ℕ → Option (State × Bool)
locked_dealloc s ptr = elim (dealloc s ptr) [
  | none ↦ none
  | some s' ↦ some (s', not (violations s' == violations s))
]

-- `memory::init`, after it has zeroed the kernel's own variables.
pub init : State → State
init s = init_region s 0x200000 0x600000
