-- ===== src/Heap/Init.antt =====
-- What `HeapCore::init_region` of src/hal/heap.rs sets up.
use planck_os.Prelude.{ℕ, ◌+◌, ◌-◌, ◌%◌, ◌≤◌, ◌<◌, false, [], ◌∷◌, arith}
use planck_os.Heap.{Memory, init_region, new, align_up}
use planck_os.Heap.Tiles.{chunk}
use planck_os.Heap.Alloc.{IsHeap}

-- On a fresh core, a region that holds the fences and one chunk after rounding inwards becomes a
-- well-formed heap with a single free chunk between the fences.
pub init_region-IsHeap :
    (m : Memory) (base end : ℕ)
    → align_up base 16 + 64 ≤ end - end % 16
    → end < 18446744073709551616
    → IsHeap
        (init_region (record { core = new; mem = m }) base end)
        (chunk (end - end % 16 - align_up base 16 - 32) false ∷ [])
unfolding init_region
init_region-IsHeap m base end wide small = ground arith
