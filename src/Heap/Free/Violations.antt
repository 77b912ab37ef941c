-- ===== src/Heap/Free/Violations.antt =====
-- Misuse of `HeapCore::dealloc` of src/hal/heap.rs, and that it always returns.
use planck_os.Prelude.{
  ℕ, zero, suc, ◌+◌, ◌-◌, ◌%◌, ◌≤◌, ◌<◌, ◌≡◌, ◌≢◌, ◌⊎◌, refl, Option, none, some, List, arith, ◌==◌,
  Bool-cases, inl, inr, ne→==, ==→ne,
}
use planck_os.Heap.{State, Segment, Memory, size_of, flags_of, in_use_bit, set_header, prev_size_of}
use planck_os.Heap.Free.{
  dealloc, find_segment, free_chunk, merge, merge_forward, absorb, Span, bad_free, double_free,
}
use planck_os.Heap.Free.Release.{release}
use planck_os.Heap.Free.Freed.{freed}
use planck_os.Heap.Free.Dealloc.{dealloc-Freed, find_one}
use planck_os.Heap.Tiles.{Chunk}
use planck_os.Heap.Alloc.{IsHeap}

find_none :
    (n c : ℕ) (segments : ℕ → Segment)
    → n ≡ 1
    → (c < (segments 0).base + 16) ⊎ ((segments 0).end - 16 ≤ c)
    → find_segment n 0 segments c ≡ none
unfolding find_segment
find_none n c segments one out = rw (one, find_segment) (ground arith)

-- On a well-formed heap, a pointer that is no multiple of 16, or that lies outside the payloads
-- between the fences (null among them), is counted as a bad free, and nothing else changes.
pub dealloc-outside :
    (s : State) (cs : List Chunk) (ptr : ℕ)
    → IsHeap s cs
    → (ptr % 16 ≢ 0) ⊎ ((ptr < (s.core.segments 0).base + 32) ⊎ ((s.core.segments 0).end ≤ ptr))
    → dealloc s ptr ≡ some (bad_free s)
unfolding dealloc
dealloc-outside s cs ptr v (inl odd) = rw (ne→== (ptr % 16) 0 odd) (ground arith)
dealloc-outside s cs ptr v (inr out) =
    let none_ = find_none s.core.seg_count (ptr - 16) s.core.segments v.one in
    elim (Bool-cases (ptr == 0)) [
      | inl z ↦ rw z
      | inr nz ↦ elim (Bool-cases (ptr % 16 == 0)) [
        | inl m ↦
            let far : (ptr - 16 < (s.core.segments 0).base + 16)
                ⊎ ((s.core.segments 0).end - 16 ≤ ptr - 16) =
              elim out [
                | inl low ↦ inl (omega (arith, ==→ne ptr 0 nz))
                | inr high ↦ inr (omega arith)
              ] in
            rw (nz, m, none_ far)
        | inr m ↦ rw (nz, m)
      ]
    ]

-- A pointer into the segment at a header with IN_USE clear is a double free.
again :
    (t : State) (k base : ℕ)
    → t.core.seg_count ≡ 1
    → (t.core.segments 0).base ≡ base
    → in_use_bit (flags_of t.mem (base + 16 + k)) ≡ 0
    → base % 16 ≡ 0
    → k % 16 ≡ 0
    → base + 16 + k < (t.core.segments 0).end - 16
    → dealloc t (base + 32 + k) ≡ some (double_free t)
unfolding dealloc free_chunk
again t k base one low even aligned aligned' high =
    let back : base + 32 + k - 16 ≡ base + 16 + k = omega arith in
    let mult : (base + 32 + k) % 16 ≡ 0 = omega arith in
    rw (ne→== (base + 32 + k) 0 (omega arith), mult)
      (rw
        (
          back,
          find_one t.core.seg_count (base + 16 + k) t.core.segments one (omega (arith, low)) high,
          back,
        )
        (rw even refl))

-- On a well-formed heap, freeing the pointer of a used chunk twice is detected: the second call
-- counts a double free and changes nothing else, also where the first call merged the chunk into
-- the free chunk before it.
pub dealloc-dealloc :
    (s : State) (cs cs' : List Chunk) (k : ℕ)
    → IsHeap s cs
    → release k cs ≡ some cs'
    → (t : State) × (dealloc s ((s.core.segments 0).base + 32 + k) ≡ some t)
      × (dealloc t ((s.core.segments 0).base + 32 + k) ≡ some (double_free t))
      × IsHeap t cs'
dealloc-dealloc s cs cs' k v h =
    let (m, bytes, run, heap, even, place_) = dealloc-Freed s cs cs' k v h in
    let t = freed s m bytes in
    (
      t,
      run,
      again t k ((s.core.segments 0).base) heap.one refl even v.base_aligned place_.0 place_.1,
      heap,
    )

absorb_total :
    (fuel seg_end : ℕ) (w : Span) → seg_end ≤ w.next + fuel → absorb (suc fuel) seg_end w ≢ none
unfolding absorb
absorb_total zero seg_end w h = ground arith
absorb_total (suc fuel) seg_end w h =
    let ns = size_of w.mem w.next in
    ground (
      arith,
      absorb_total fuel seg_end
          (record { mem = set_header w.mem w.next 0 0; next = w.next + ns; size = w.size + ns }),
    )

merge_forward_total :
    (s : State) (seg_end : ℕ) (m : Memory) (span span_size n c_size : ℕ)
    → merge_forward s seg_end m span span_size n c_size ≢ none
unfolding merge_forward
merge_forward_total s seg_end m span span_size n c_size = ground (
  arith,
  absorb_total seg_end seg_end (record { mem = m; next = n; size = span_size }) (omega arith),
)

merge_total : (s : State) (seg : Segment) (c : ℕ) → merge s seg c ≢ none
unfolding merge
merge_total s seg c =
    let prev = c - prev_size_of s.mem c in
    let size = size_of s.mem c in
    ground (
      arith,
      merge_forward_total s (seg.end - 16) (set_header s.mem c 0 0) prev (size + size_of s.mem prev)
          (c + size) size,
      merge_forward_total s (seg.end - 16) s.mem c size (c + size) size,
    )

free_chunk_total : (s : State) (seg : Segment) (c : ℕ) → free_chunk s seg c ≢ none
unfolding free_chunk
free_chunk_total s seg c = ground (arith, merge_total s seg c)

after_search_total :
    (s : State) (c : ℕ) (o : Option Segment)
    → (elim o [ none ↦ some (bad_free s) | some seg ↦ free_chunk s seg c ]) ≢ none
after_search_total s c none = cc
after_search_total s c (some seg) = free_chunk_total s seg c

-- In every state and for every pointer, `dealloc` returns: its loop ends within its fuel.
pub dealloc_total : (s : State) (ptr : ℕ) → dealloc s ptr ≢ none
unfolding dealloc
dealloc_total s ptr = ground (
  arith,
  after_search_total s (ptr - 16) (find_segment s.core.seg_count 0 s.core.segments (ptr - 16)),
)
