-- ===== src/Heap/Free/RoundTrip.antt =====
-- `HeapCore::dealloc` undoes `HeapCore::alloc` (src/hal/heap.rs).
use planck_os.Prelude.{
  ℕ, ◌+◌, ◌-◌, ◌≤◌, ◌≡◌, ◌⊎◌, refl, ◌∙◌, sym, ap, Bool, true, false, some, List, [], ◌∷◌, arith,
  leb, ◌==◌, Bool-cases, inl, inr, leb→le,
}
use planck_os.Heap.{Memory, State, Layout, fit, alloc, chunk_size}
use planck_os.Heap.Free.{dealloc}
use planck_os.Heap.Free.Release.{release, attach}
use planck_os.Heap.Free.Freed.{freed}
use planck_os.Heap.Free.Dealloc.{dealloc-IsHeap}
use planck_os.Heap.Tiles.{Chunk, chunk, Tiled, Tiled-head, head_used}
use planck_os.Heap.FirstFit.{first_at, take_first, carve, fits}
use planck_os.Heap.Alloc.{IsHeap}
use planck_os.Heap.Serve.{after_fit, alloc-IsHeap}

attach-apart :
    (size : ℕ) (u : Bool) (cs : List Chunk)
    → (u ≡ true) ⊎ (head_used cs ≡ true)
    → attach (chunk size u) cs ≡ chunk size u ∷ cs
attach-apart size u [] h = refl
attach-apart size u (c ∷ cs) h = ground arith

carve-release :
    (needed size : ℕ) (cs : List Chunk)
    → needed ≤ size
    → head_used cs ≡ true
    → release 0 (carve needed size cs) ≡ some (chunk size false ∷ cs)
carve-release needed size cs room head = elim (Bool-cases (leb 32 (size - needed))) [
  | inl far ↦ rw far (ap (λ n. some (chunk n false ∷ cs)) (omega arith))
  | inr near ↦ rw near (ap some (attach-apart size false cs (inr head)))
]

first_at-le : (needed a p : ℕ) (cs : List Chunk) → first_at needed a cs ≡ fit p → a ≤ p
first_at-le needed a p [] h = cc
first_at-le needed a p (c ∷ cs) h = elim (Bool-cases (fits needed c)) [
  | inl y ↦ ground arith
  | inr n ↦ omega (arith, first_at-le needed (a + c.size) p cs (rw n at h))
]

module _ (m : Memory) (e : ℕ) (needed : ℕ) where
  release-cons :
      (a ps size p : ℕ) (pu u : Bool) (cs : List Chunk)
      → Tiled m e a pu ps (chunk size u ∷ cs)
      → a + size ≤ p
      → release (p - (a + size)) (take_first needed cs) ≡ some cs
      → release (p - a) (chunk size u ∷ take_first needed cs) ≡ some (chunk size u ∷ cs)
  release-cons a ps size p pu true cs t far ih =
      let shift : p - a - size ≡ p - (a + size) = omega arith in
      let past : leb size (p - a) ≡ true = ground arith in
      let ne : (p - a == 0) ≡ false = ground arith in
      rw (ne, past, shift, ih) (ap some (attach-apart size true cs (inl refl)))
  release-cons a ps size p pu false cs t far ih =
      let shift : p - a - size ≡ p - (a + size) = omega arith in
      let past : leb size (p - a) ≡ true = ground arith in
      let ne : (p - a == 0) ≡ false = ground arith in
      rw (ne, past, shift, ih)
        (ap some (attach-apart size false cs (inr (Tiled-head m e (a + size) size cs t.5))))

  release-fit :
      (a ps size p : ℕ) (pu u : Bool) (cs : List Chunk)
      → Tiled m e a pu ps (chunk size u ∷ cs)
      → fits needed (chunk size u) ≡ true
      → fit a ≡ fit p
      → release (p - a) (carve needed size cs) ≡ some (chunk size u ∷ cs)
  release-fit a ps size p pu true cs t h here = cc
  release-fit a ps size p pu false cs t h here =
      let same : a ≡ p = cc in
      let zero_ : p - a ≡ 0 = omega arith in
      rw zero_ (
        carve-release needed size cs (leb→le needed size h) (Tiled-head m e (a + size) size cs t.5))

  -- Freeing the chunk that a first fit took gives the list before.
  release-take_first :
      (a ps p : ℕ) (pu : Bool) (cs : List Chunk)
      → Tiled m e a pu ps cs
      → first_at needed a cs ≡ fit p
      → release (p - a) (take_first needed cs) ≡ some cs
  release-take_first a ps p pu [] t h = cc
  release-take_first a ps p pu (c ∷ cs) t h = elim (Bool-cases (fits needed c)) [
    | inl y ↦ rw y (release-fit a ps c.size p pu c.used cs t y (rw y at h))
    | inr n ↦
        let next = rw n at h in
        rw n (
          release-cons a ps c.size p pu c.used cs t (first_at-le needed (a + c.size) p cs next)
            (release-take_first (a + c.size) c.size p c.used cs t.5 next))
  ]

-- On a well-formed heap, a request of an alignment of at most 16 that some free chunk can hold is
-- served, and freeing its pointer again leaves the heap well-formed over the
-- very list of chunks from before, so with the same free bytes and live allocations.
pub dealloc-alloc :
    (s : State) (cs : List Chunk) (l : Layout) (needed p : ℕ)
    → IsHeap s cs
    → l.align ≤ 16
    → chunk_size l ≡ some needed
    → first_at needed ((s.core.segments 0).base + 16) cs ≡ fit p
    → (t u : State) × (alloc s l ≡ some (t, p + 16))
      × (dealloc t (p + 16) ≡ some u)
      × IsHeap u cs
      × (u.core.free_bytes ≡ s.core.free_bytes)
      × (u.core.alloc_count ≡ s.core.alloc_count)
dealloc-alloc s cs l needed p v low size at =
    let (run, after, where_, room, aligned) = alloc-IsHeap s cs l needed p v low size at in
    let t = after_fit s needed p in
    let base = (s.core.segments 0).base in
    let back =
      release-take_first s.mem ((s.core.segments 0).end - 16) needed (base + 16) 0 p true cs v.tiles
        at in
    let (m, bytes, freeing, heap) =
      dealloc-IsHeap t (take_first needed cs) cs (p - (base + 16)) after back in
    let pointer : base + 32 + (p - (base + 16)) ≡ p + 16 =
      omega (arith, first_at-le needed (base + 16) p cs at) in
    (
      t,
      freed t m bytes,
      run,
      (rw pointer at freeing),
      heap,
      heap.free ∙ sym v.free,
      heap.live ∙ sym v.live,
    )
