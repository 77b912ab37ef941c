-- ===== src/Heap/Free.antt =====
-- `HeapCore::dealloc` and `HeapCore::check_invariants` of src/hal/heap.rs.
pub mod Merge
pub mod Release
pub mod Freed
pub mod Dealloc
pub mod RoundTrip
pub mod Violations
pub mod Check
use planck_os.Prelude.{
  ℕ, zero, suc, ◌+◌, ◌-◌, ◌%◌, Bool, true, false, not, ◌&&◌, ◌||◌, Option, none, some, ltb, leb,
  ◌==◌, if◌then◌else◌, add64, sub64,
}
use planck_os.Heap.{
  Memory, Segment, State, size_of, flags_of, in_use_bit, prev_in_use_bit, set_header, prev_size_of,
  set_prev_size,
}

-- The search for the owning segment.
pub find_segment : ℕ → ℕ → (ℕ → Segment) → ℕ → Option Segment
find_segment zero idx segments chunk = none
find_segment (suc left) idx segments chunk =
    let seg = segments idx in
    let rest = find_segment left (idx + 1) segments chunk in
    if leb (seg.base + 16) chunk && ltb chunk (seg.end - 16) then some seg else rest

-- The variables of the forward loop: memory, the cursor `n` and `span_size`.
pub record Span : Type 0 where
  pub mem : Memory
  pub next : ℕ
  pub size : ℕ

-- The forward loop: absorbs the free chunks from `n` on. `none` is lack of fuel.
pub absorb : ℕ → ℕ → Span → Option Span
absorb zero seg_end s = none
absorb (suc fuel) seg_end s =
    let ns = size_of s.mem s.next in
    let rest =
      absorb fuel seg_end
        (record { mem = set_header s.mem s.next 0 0; next = s.next + ns; size = s.size + ns }) in
    if ltb s.next seg_end && (in_use_bit (flags_of s.mem s.next) == 0)
    then (if ltb ns 32 || not (ns % 16 == 0) then some s else rest)
    else some s

-- The last three writes: the span is free, its footer and its successor's flag are set.
pub finalize : Memory → ℕ → ℕ → ℕ → Memory
finalize m span span_size n =
    let m1 = set_prev_size m n span_size in
    let m2 = set_header m1 span span_size (prev_in_use_bit (flags_of m1 span)) in
    set_header m2 n (size_of m2 n) (in_use_bit (flags_of m2 n))

abbrev pub bad_free : State → State
bad_free s = record s { core = record s.core { bad_free_count = add64 s.core.bad_free_count 1 } }

abbrev pub double_free : State → State
double_free s = record s {
  core = record s.core { double_free_count = add64 s.core.double_free_count 1 };
}

-- From the forward loop on: `m` is the memory after the backward merge, `span` the span's chunk.
pub merge_forward : State → ℕ → Memory → ℕ → ℕ → ℕ → ℕ → Option State
merge_forward s seg_end m span span_size n c_size =
    elim (absorb (suc seg_end) seg_end (record { mem = m; next = n; size = span_size })) [
      | none ↦ none
      | some w ↦
          if ltb seg_end w.next
          then some (bad_free (record s { mem = w.mem }))
          else some (record {
            core = record s.core {
              free_bytes = add64 s.core.free_bytes c_size;
              alloc_count = sub64 s.core.alloc_count 1;
            };
            mem = finalize w.mem span w.size w.next;
          })
    ]

-- The backward merge. `saturating_sub` is the truncated subtraction.
pub merge : State → Segment → ℕ → Option State
merge s seg c =
    let c_size = size_of s.mem c in
    let prev = c - prev_size_of s.mem c in
    if prev_in_use_bit (flags_of s.mem c) == 0
    then (if ltb prev (seg.base + 16)
        then some (bad_free s)
        else merge_forward s (seg.end - 16) (set_header s.mem c 0 0) prev
            (c_size + size_of s.mem prev) (c + c_size) c_size)
    else merge_forward s (seg.end - 16) s.mem c c_size (c + c_size) c_size

-- The checks of the chunk's own header.
pub free_chunk : State → Segment → ℕ → Option State
free_chunk s seg c =
    if in_use_bit (flags_of s.mem c) == 0
    then some (double_free s)
    else if not (size_of s.mem c % 16 == 0) || ltb (size_of s.mem c) 32
    then some (bad_free s)
    else merge s seg c

-- `none` is lack of fuel. The source computes `payload_addr - 16` of a non-null multiple of 16.
pub dealloc : State → ℕ → Option State
dealloc s ptr =
    if ptr == 0
    then some (bad_free s)
    else if not (ptr % 16 == 0)
    then some (bad_free s)
    else elim (find_segment s.core.seg_count 0 s.core.segments (ptr - 16)) [
      | none ↦ some (bad_free s)
      | some seg ↦ free_chunk s seg (ptr - 16)
    ]

-- What `check_invariants` asks of a chunk and its successor.
pub chunk_ok : Memory → ℕ → ℕ → Bool
chunk_ok m epilogue c =
    let sz = size_of m c in
    let next = add64 c sz in
    let used = not (in_use_bit (flags_of m c) == 0) in
    let next_used = not (in_use_bit (flags_of m next) == 0) in
    let next_prev = not (prev_in_use_bit (flags_of m next) == 0) in
    if ltb sz 32 || not (sz % 16 == 0)
    then false
    else if ltb epilogue next
    then false
    else if ltb next epilogue
    then (if not used
        then (prev_size_of m next == sz) && (next_used && not next_prev)
        else next_prev)
    else if not used
    then (prev_size_of m next == sz) && not next_prev
    else true

-- The loop over the chunks: where it ends, `none` for a violation or lack of fuel.
pub check_chunks : ℕ → Memory → ℕ → ℕ → Option ℕ
check_chunks zero m epilogue c = none
check_chunks (suc fuel) m epilogue c =
    let rest = check_chunks fuel m epilogue (add64 c (size_of m c)) in
    if leb epilogue c then some c else if chunk_ok m epilogue c then rest else none

pub check_segment : Memory → Segment → Bool
check_segment m seg =
    if not (size_of m seg.base == 16)
      || not (in_use_bit (flags_of m seg.base) + prev_in_use_bit (flags_of m seg.base) == 3)
    then false
    else elim (check_chunks (suc seg.end) m (seg.end - 16) (seg.base + 16)) [
      | none ↦ false
      | some c ↦
          (c == seg.end - 16) && ((size_of m c == 16) && not (in_use_bit (flags_of m c) == 0))
    ]

pub check_from : ℕ → ℕ → State → Bool
check_from zero idx s = true
check_from (suc left) idx s =
    let rest = check_from left (idx + 1) s in
    if check_segment s.mem (s.core.segments idx) then rest else false

pub check_invariants : State → Bool
check_invariants s = check_from s.core.seg_count 0 s
