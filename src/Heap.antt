-- ===== src/Heap.antt =====
-- The boundary-tag allocator of src/hal/heap.rs: `HeapCore` over a memory of 64-bit words.
-- A word stands at the address of its first byte. Chunk addresses are multiples of 16 and words are
-- read at a chunk and 8 bytes after it, so no two words overlap. Sizes passed to `set_header` are
-- multiples of 8 and flags are below 8, so `size | flags` is their sum, `w & !7` is `w - w % 8`,
-- and the flags IN_USE and PREV_IN_USE are the last binary digit of `w` and the one before it.
pub mod Free
mod Tests
pub mod Tiles
pub mod FirstFit
pub mod Alloc
pub mod Serve
pub mod Init
pub mod Locked
use planck_os.Prelude.{
  ℕ, zero, suc, ◌+◌, ◌-◌, ◌%◌, max, not, ◌&&◌, ◌||◌, Option, none, some, ltb, leb, ◌==◌,
  if◌then◌else◌, add64, sub64, update,
}

abbrev pub Memory : Type 0
Memory = ℕ → ℕ

-- `Layout` of `core::alloc`: what `layout.size()` and `layout.align()` return.
pub record Layout : Type 0 where
  pub size : ℕ
  pub align : ℕ

pub record Segment : Type 0 where
  pub base : ℕ
  pub end : ℕ

pub record HeapCore : Type 0 where
  pub segments : ℕ → Segment
  pub seg_count : ℕ
  pub free_bytes : ℕ
  pub alloc_count : ℕ
  pub oom_count : ℕ
  pub align_fail_count : ℕ
  pub bad_free_count : ℕ
  pub double_free_count : ℕ

-- The allocator's fields and the memory that it manages.
pub record State : Type 0 where
  pub core : HeapCore
  pub mem : Memory

abbrev pub max_segments : ℕ
max_segments = 16

abbrev pub new : HeapCore
new = record {
  segments = λ i. record { base = 0; end = 0 };
  seg_count = 0;
  free_bytes = 0;
  alloc_count = 0;
  oom_count = 0;
  align_fail_count = 0;
  bad_free_count = 0;
  double_free_count = 0;
}

abbrev pub size_of : Memory → ℕ → ℕ
size_of m chunk = m (chunk + 8) - m (chunk + 8) % 8

abbrev pub flags_of : Memory → ℕ → ℕ
flags_of m chunk = m (chunk + 8) % 8

-- `flags & IN_USE` and `flags & PREV_IN_USE`, as numbers.
abbrev pub in_use_bit : ℕ → ℕ
in_use_bit flags = flags % 2

abbrev pub prev_in_use_bit : ℕ → ℕ
prev_in_use_bit flags = flags % 4 - flags % 2

abbrev pub set_header : Memory → ℕ → ℕ → ℕ → Memory
set_header m chunk size flags = update m (chunk + 8) (size + flags)

abbrev pub prev_size_of : Memory → ℕ → ℕ
prev_size_of m chunk = m chunk - m chunk % 8

abbrev pub set_prev_size : Memory → ℕ → ℕ → Memory
set_prev_size m chunk size = update m chunk size

-- `(x + a - 1) & !(a - 1)`, for a power of two `a`.
abbrev pub align_up : ℕ → ℕ → ℕ
align_up x a = (x + a - 1) - (x + a - 1) % a

abbrev pub checked_add : ℕ → ℕ → Option ℕ
checked_add a b = if ltb (a + b) 18446744073709551616 then some (a + b) else none

abbrev pub align_up_checked : Option ℕ → ℕ → Option ℕ
align_up_checked none a = none
align_up_checked (some x) a = elim (checked_add x (a - 1)) [
  | none ↦ none
  | some v ↦ some (v - v % a)
]

-- The four writes of `init_region`, and the fields that it sets.
abbrev pub install : State → ℕ → ℕ → State
install s base end =
    let free_size = end - base - 16 - 16 in
    let m1 = set_header s.mem base 16 3 in
    let m2 = set_header m1 (base + 16) free_size 2 in
    let m3 = set_prev_size m2 (end - 16) free_size in
    let m4 = set_header m3 (end - 16) 16 1 in
    record {
      core = record s.core {
        segments = update s.core.segments s.core.seg_count (record { base = base; end = end });
        seg_count = add64 s.core.seg_count 1;
        free_bytes = add64 s.core.free_bytes free_size;
      };
      mem = m4;
    }

pub init_region : State → ℕ → ℕ → State
init_region s base end =
    if leb max_segments s.core.seg_count
    then s
    else if ltb (end - end % 16) (align_up base 16 + 32 + 16 + 16)
    then s
    else install s (align_up base 16) (end - end % 16)

-- What the walk over the chunks of one segment finds.
pub data Walk : Type 0 where
  fit : ℕ → Walk
  stop : Walk
  out_of_fuel : Walk

-- The `while` loop of `alloc` up to the chunk that it takes.
pub find_fit : ℕ → Memory → ℕ → ℕ → ℕ → Walk
find_fit zero m needed chunk epilogue = out_of_fuel
find_fit (suc fuel) m needed chunk epilogue =
    let rest = find_fit fuel m needed (add64 chunk (size_of m chunk)) epilogue in
    if ltb chunk epilogue
    then (if ltb (size_of m chunk) 32 || not (size_of m chunk % 16 == 0)
        then stop
        else if (in_use_bit (flags_of m chunk) == 0) && leb needed (size_of m chunk)
        then fit chunk
        else rest)
    else stop

-- The body of the loop at the chunk that it takes.
pub split : Memory → ℕ → ℕ → Memory
split m chunk needed =
    let sz = size_of m chunk in
    let flags = flags_of m chunk in
    let right = chunk + needed in
    let m1 = set_prev_size m right needed in
    let m2 = set_header m1 right (sz - needed) 2 in
    let m3 = set_header m2 chunk needed (prev_in_use_bit flags + 1) in
    set_prev_size m3 (chunk + sz) (sz - needed)

pub take_whole : Memory → ℕ → Memory
take_whole m chunk =
    let sz = size_of m chunk in
    let m1 = set_header m chunk sz (prev_in_use_bit (flags_of m chunk) + 1) in
    let a = chunk + sz in set_header m1 a (size_of m1 a) (in_use_bit (flags_of m1 a) + 2)

pub place : Memory → ℕ → ℕ → Memory
place m chunk needed =
    if leb 32 (size_of m chunk - needed) then split m chunk needed else take_whole m chunk

-- How much `free_bytes` falls by.
pub taken : Memory → ℕ → ℕ → ℕ
taken m chunk needed = if leb 32 (size_of m chunk - needed) then needed else size_of m chunk

abbrev pub count_alloc : HeapCore → ℕ → HeapCore
count_alloc core bytes = record core {
  free_bytes = sub64 core.free_bytes bytes;
  alloc_count = add64 core.alloc_count 1;
}

-- The loop over the segments from `idx` on, `left` of them. A pointer is its address, 0 if null.
pub alloc_from : ℕ → ℕ → State → ℕ → Option (State × ℕ)
alloc_from zero idx s needed =
    some (record s { core = record s.core { oom_count = add64 s.core.oom_count 1 } }, 0)
alloc_from (suc left) idx s needed =
    let seg = s.core.segments idx in
    let rest = alloc_from left (idx + 1) s needed in
    elim (find_fit (suc seg.end) s.mem needed (seg.base + 16) (seg.end - 16)) [
      | fit chunk ↦ some (
        record {
          core = count_alloc s.core (taken s.mem chunk needed);
          mem = place s.mem chunk needed;
        },
        chunk + 16,
      )
      | stop ↦ rest
      | out_of_fuel ↦ none
    ]

-- The size of the chunk that a layout needs, `none` where an addition overflows.
pub chunk_size : Layout → Option ℕ
chunk_size layout = elim (align_up_checked (checked_add (max layout.size 1) 16) 16) [
  | none ↦ none
  | some needed ↦ some (max needed 32)
]

pub alloc : State → Layout → Option (State × ℕ)
alloc s layout =
    if ltb 16 layout.align
    then some (
      record s { core = record s.core { align_fail_count = add64 s.core.align_fail_count 1 } },
      0,
    )
    else elim (chunk_size layout) [
      | none ↦ some (s, 0)
      | some needed ↦ alloc_from s.core.seg_count 0 s needed
    ]
