-- ===== src/Heap/Tests.antt =====
-- The theorems of the heap at a region of 256 bytes, and runs of src/hal/heap.rs on it.
use planck_os.Prelude.{ℕ, ◌+◌, ◌%◌, ◌≤◌, ◌≡◌, refl, true, false, some, List, [], ◌∷◌, arith}
use planck_os.Heap.{Memory, State, Layout, init_region, new, alloc, chunk_size}
use planck_os.Heap.Tiles.{Chunk, chunk}
use planck_os.Heap.Alloc.{IsHeap, Found}
use planck_os.Heap.Serve.{after_fit, alloc-IsHeap, alloc-Full}
use planck_os.Heap.Init.{init_region-IsHeap}
use planck_os.Heap.Free.{dealloc, double_free, check_invariants}
use planck_os.Heap.Free.Freed.{freed}
use planck_os.Heap.Free.Dealloc.{dealloc-IsHeap}
use planck_os.Heap.Free.RoundTrip.{dealloc-alloc}
use planck_os.Heap.Free.Violations.{dealloc-dealloc}
use planck_os.Heap.Free.Check.{Accepted, check_invariants-IsHeap}

-- 16 to 272, over a memory of zeros.
abbrev fresh : State
fresh = init_region (record { core = new; mem = λ a. 0 }) 16 272

abbrev one_free : List Chunk
one_free = chunk 224 false ∷ []

abbrev forty : Layout
forty = record { size = 40; align = 8 }

abbrev huge : Layout
huge = record { size = 1000; align = 8 }

fresh-IsHeap : IsHeap fresh one_free
fresh-IsHeap = init_region-IsHeap (λ a. 0) 16 272 (omega arith) (omega arith)

init_region-IsHeap_example :
    IsHeap (init_region (record { core = new; mem = λ a. 0 }) 16 272) one_free
init_region-IsHeap_example = init_region-IsHeap (λ a. 0) 16 272 (omega arith) (omega arith)

alloc-IsHeap_example :
    (alloc fresh forty ≡ some (after_fit fresh 64 32, 48))
    × IsHeap (after_fit fresh 64 32) (chunk 64 true ∷ chunk 160 false ∷ [])
    × Found 64 32 one_free 32
    × (40 + 16 ≤ 64)
    × (48 % 16 ≡ 0)
unfolding init_region chunk_size
alloc-IsHeap_example = alloc-IsHeap fresh one_free forty 64 32 fresh-IsHeap (omega arith) refl refl

alloc-Full_example :
    alloc fresh huge ≡ some (record fresh { core = record fresh.core { oom_count = 1 } }, 0)
unfolding init_region chunk_size
alloc-Full_example = alloc-Full fresh one_free huge 1024 fresh-IsHeap (omega arith) refl (refl, tt)

abbrev one_used : List Chunk
one_used = chunk 64 true ∷ chunk 160 false ∷ []

abbrev busy : State
busy = after_fit fresh 64 32

busy-IsHeap : IsHeap busy one_used
unfolding init_region chunk_size
busy-IsHeap = (alloc-IsHeap fresh one_free forty 64 32 fresh-IsHeap (omega arith) refl refl).1

dealloc-IsHeap_example :
    (m : Memory) × (bytes : ℕ) × (dealloc busy 48 ≡ some (freed busy m bytes))
    × IsHeap (freed busy m bytes) one_free
unfolding init_region
dealloc-IsHeap_example = dealloc-IsHeap busy one_used one_free 0 busy-IsHeap refl

dealloc-alloc_example :
    (t u : State) × (alloc fresh forty ≡ some (t, 48))
    × (dealloc t 48 ≡ some u)
    × IsHeap u one_free
    × (u.core.free_bytes ≡ fresh.core.free_bytes)
    × (u.core.alloc_count ≡ fresh.core.alloc_count)
unfolding init_region chunk_size
dealloc-alloc_example =
    dealloc-alloc fresh one_free forty 64 32 fresh-IsHeap (omega arith) refl refl

dealloc-dealloc_example :
    (t : State) × (dealloc busy 48 ≡ some t)
    × (dealloc t 48 ≡ some (double_free t))
    × IsHeap t one_free
unfolding init_region
dealloc-dealloc_example = dealloc-dealloc busy one_used one_free 0 busy-IsHeap refl

check_invariants-IsHeap_example :
    ((cs : List Chunk) → IsHeap fresh cs → check_invariants fresh ≡ true)
    × (check_invariants fresh ≡ true → Accepted fresh.mem (fresh.core.segments 0))
unfolding init_region
check_invariants-IsHeap_example = check_invariants-IsHeap fresh refl

-- A run: allocate, write nothing, free, and the structural check in between.
run_check : check_invariants busy ≡ true
run_check = (check_invariants-IsHeap busy busy-IsHeap.one).0 one_used busy-IsHeap
