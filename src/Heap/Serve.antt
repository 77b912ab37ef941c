-- ===== src/Heap/Serve.antt =====
-- What `HeapCore::alloc` and `HeapCore::init_region` of src/hal/heap.rs promise, from start to end.
use planck_os.Prelude.{
  ℕ, ◌+◌, ◌-◌, ◌%◌, ◌≤◌, ◌<◌, ◌≡◌, refl, ◌∙◌, ap, true, false, some, List, [], ◌∷◌, ◌++◌, arith,
  add64, ltb_of_le,
}
use planck_os.Heap.{
  fit, stop, place, taken, State, Layout, alloc, alloc_from, chunk_size, count_alloc,
}
use planck_os.Heap.Tiles.{
  Chunk, chunk, Tiled, Tiled-end, Tiled-suffix, last_used, free_total, used_count,
}
use planck_os.Heap.FirstFit.{find_fit-eq-first_at, first_at, take_first, carve, fits}
use planck_os.Heap.Alloc.{
  total-aligned, IsHeap, Found, found, place-below, place-Tiled_any, taken-eq, chunk_size_bounds,
  free_total-append, used_count-append, Tiled-at, free_total-le, used_count-le,
}

-- The state and the pointer after the chunk at `p` is taken.
abbrev pub after_fit : State → ℕ → ℕ → State
after_fit s needed p = record {
  core = count_alloc s.core (taken s.mem p needed);
  mem = place s.mem p needed;
}

-- On a well-formed heap the code takes the list's first fit.
pub alloc_from-fit :
    (s : State) (cs : List Chunk) (needed p : ℕ)
    → IsHeap s cs
    → first_at needed ((s.core.segments 0).base + 16) cs ≡ fit p
    → alloc_from s.core.seg_count 0 s needed ≡ some (after_fit s needed p, p + 16)
unfolding alloc_from
alloc_from-fit s cs needed p v h =
    let walk =
      find_fit-eq-first_at (s.core.segments 0).end s.mem needed ((s.core.segments 0).end - 16)
        ((s.core.segments 0).base + 16) true 0 cs (omega (arith, v.wide))
        (omega (arith, v.wide, v.bounded)) v.tiles in
    rw (v.one, alloc_from) (rw (walk ∙ h) refl)

pub alloc_from-stop :
    (s : State) (cs : List Chunk) (needed : ℕ)
    → IsHeap s cs
    → first_at needed ((s.core.segments 0).base + 16) cs ≡ stop
    → alloc_from s.core.seg_count 0 s needed
      ≡ some (record s { core = record s.core { oom_count = add64 s.core.oom_count 1 } }, 0)
unfolding alloc_from
alloc_from-stop s cs needed v h =
    let walk =
      find_fit-eq-first_at (s.core.segments 0).end s.mem needed ((s.core.segments 0).end - 16)
        ((s.core.segments 0).base + 16) true 0 cs (omega (arith, v.wide))
        (omega (arith, v.wide, v.bounded)) v.tiles in
    rw (v.one, alloc_from) (rw (walk ∙ h) refl)

module _ (s : State) (cs : List Chunk) (needed p : ℕ) (v : IsHeap s cs) (big : 32 ≤ needed)
    (aligned : needed % 16 ≡ 0)
    (at : first_at needed ((s.core.segments 0).base + 16) cs ≡ fit p) where
  where_found : Found needed ((s.core.segments 0).base + 16) cs p
  where_found = found needed ((s.core.segments 0).base + 16) p cs at

  tiles_before :
      Tiled s.mem
        ((s.core.segments 0).end - 16)
        ((s.core.segments 0).base + 16)
        true
        0
        (where_found.pre ++ (chunk where_found.size false ∷ where_found.post))
  tiles_before = rw (← where_found.whole) v.tiles

  tiles_after :
      Tiled
        (place s.mem p needed)
        ((s.core.segments 0).end - 16)
        ((s.core.segments 0).base + 16)
        true
        0
        (take_first needed cs)
  tiles_after =
      let f = where_found in
      rw f.result (
        Tiled-suffix s.mem (place s.mem p needed) ((s.core.segments 0).end - 16)
          ((s.core.segments 0).base + 16) true 0 f.pre (chunk f.size false ∷ f.post)
          (carve needed f.size f.post) p f.here (λ x h. place-below s.mem p needed x h)
          (λ q t.
            place-Tiled_any s.mem ((s.core.segments 0).end - 16) p q needed f.size f.post
              (last_used true f.pre) big aligned f.room t)
          tiles_before)

  counts :
      (free_total (take_first needed cs) + taken s.mem p needed ≡ free_total cs)
      × (used_count (take_first needed cs) ≡ 1 + used_count cs)
  counts =
      let f = where_found in
      let (q, t) =
        Tiled-at s.mem ((s.core.segments 0).end - 16) ((s.core.segments 0).base + 16) true 0 f.pre
          (chunk f.size false ∷ f.post) tiles_before in
      let eq =
        taken-eq s.mem ((s.core.segments 0).end - 16) p q needed f.size (last_used true f.pre)
          f.post (rw f.here t) f.room in
      let before = ap free_total f.whole in
      let after = ap free_total f.result in
      let count_before = ap used_count f.whole in
      let count_after = ap used_count f.result in
      (
        omega (
          arith,
          eq.0,
          free_total-append f.pre (carve needed f.size f.post),
          free_total-append f.pre (chunk f.size false ∷ f.post),
        ),
        omega (
          arith,
          eq.1,
          used_count-append f.pre (carve needed f.size f.post),
          used_count-append f.pre (chunk f.size false ∷ f.post),
        ),
      )

  no_overflow :
      (free_total cs < 18446744073709551616)
      × (used_count (take_first needed cs) < 18446744073709551616)
  no_overflow =
      let m' = place s.mem p needed in
      let e = (s.core.segments 0).end - 16 in
      let a = (s.core.segments 0).base + 16 in
      (
        omega (arith, free_total-le cs, Tiled-end s.mem e a true 0 cs v.tiles, v.wide, v.bounded),
        omega (
          arith,
          used_count-le m' e a true 0 (take_first needed cs) tiles_after,
          Tiled-end m' e a true 0 (take_first needed cs) tiles_after,
          v.wide,
          v.bounded,
        ),
      )

  pub after_fit-IsHeap : IsHeap (after_fit s needed p) (take_first needed cs)
  after_fit-IsHeap = record {
    one = v.one;
    base_aligned = v.base_aligned;
    end_aligned = v.end_aligned;
    wide = v.wide;
    bounded = v.bounded;
    fence =
        place-below s.mem p needed ((s.core.segments 0).base + 8) (omega (arith, where_found.here))
        ∙ v.fence;
    tiles = tiles_after;
    free = omega (arith, counts.0, no_overflow.0, v.free);
    live = omega (arith, counts.1, no_overflow.1, v.live);
  }

alloc-served :
    (s : State) (l : Layout) {needed : ℕ}
    → l.align ≤ 16
    → chunk_size l ≡ some needed
    → alloc s l ≡ alloc_from s.core.seg_count 0 s needed
unfolding alloc
alloc-served s l low size = rw (ltb_of_le 16 l.align low, size)

-- On a well-formed heap, a request of an alignment of at most 16 that some free chunk can hold gets
-- the first such chunk. The pointer is 16 bytes into it, is a multiple of 16, and has room for the
-- requested bytes in the chunk; the chunk is cut down to the needed size if at least 32 bytes are
-- left over, every other chunk stays as it is, and the heap is well-formed with counters in step.
pub alloc-IsHeap :
    (s : State) (cs : List Chunk) (l : Layout) (needed p : ℕ)
    → IsHeap s cs
    → l.align ≤ 16
    → chunk_size l ≡ some needed
    → first_at needed ((s.core.segments 0).base + 16) cs ≡ fit p
    → (alloc s l ≡ some (after_fit s needed p, p + 16))
      × IsHeap (after_fit s needed p) (take_first needed cs)
      × Found needed ((s.core.segments 0).base + 16) cs p
      × (l.size + 16 ≤ needed)
      × ((p + 16) % 16 ≡ 0)
alloc-IsHeap s cs l needed p v low size at =
    let (aligned, big, room) = chunk_size_bounds l needed size in
    let f = found needed ((s.core.segments 0).base + 16) p cs at in
    (
      alloc-served s l low size ∙ alloc_from-fit s cs needed p v at,
      after_fit-IsHeap s cs needed p v big aligned at,
      f,
      room,
      omega (
        arith,
        f.here,
        v.base_aligned,
        total-aligned s.mem ((s.core.segments 0).end - 16) ((s.core.segments 0).base + 16) true 0
            f.pre (chunk f.size false ∷ f.post) (rw (← f.whole) v.tiles),
      ),
    )

-- No chunk of the list can hold the request.
abbrev pub Full : ℕ → List Chunk → Type 0
Full needed [] = Unit {0}
Full needed (c ∷ cs) = (fits needed c ≡ false) × Full needed cs

first_at-Full : (needed a : ℕ) (cs : List Chunk) → Full needed cs → first_at needed a cs ≡ stop
first_at-Full needed a [] h = refl
first_at-Full needed a (c ∷ cs) h = rw (h.0) (first_at-Full needed (a + c.size) cs h.1)

-- On a well-formed heap, a request of an alignment of at most 16 that no free chunk can hold gets
-- null; nothing changes but the out-of-memory counter.
pub alloc-Full :
    (s : State) (cs : List Chunk) (l : Layout) (needed : ℕ)
    → IsHeap s cs
    → l.align ≤ 16
    → chunk_size l ≡ some needed
    → Full needed cs
    → alloc s l
      ≡ some (record s { core = record s.core { oom_count = add64 s.core.oom_count 1 } }, 0)
alloc-Full s cs l needed v low size none_fits =
    alloc-served s l low size
    ∙ alloc_from-stop s cs needed v
        (first_at-Full needed ((s.core.segments 0).base + 16) cs none_fits)
