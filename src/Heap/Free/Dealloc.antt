-- ===== src/Heap/Free/Dealloc.antt =====
-- What `HeapCore::dealloc` of src/hal/heap.rs does to a well-formed heap.
use planck_os.Prelude.{
  ℕ, ◌+◌, ◌-◌, ◌%◌, ◌≤◌, ◌<◌, ◌≡◌, refl, ◌∙◌, ap, Bool, true, false, some, List, ◌∷◌, ◌++◌, arith,
  update_ne, update_self, ne→==,
}
use planck_os.Heap.{
  Memory, State, Segment, size_of, flags_of, in_use_bit, set_header, prev_in_use_bit,
}
use planck_os.Heap.Free.{dealloc, find_segment, free_chunk, merge}
use planck_os.Heap.Free.Merge.{extra, rest_of}
use planck_os.Heap.Free.Release.{release, Cut, forward, backward, release-Cut}
use planck_os.Heap.Free.Freed.{
  merged, merged-below, merged-even, merged-inside, merged-Tiled, freed, merge-forward,
  merge-backward, extra-free, extra-used,
}
use planck_os.Heap.Tiles.{
  Chunk, chunk, Tiled, Tiled-end, Tiled-frame, Tiled-suffix, total, last_used, free_total,
  used_count,
}
use planck_os.Heap.Alloc.{
  total-aligned, IsHeap, Tiled-at, free_total-append, used_count-append, free_total-le,
  used_count-le,
}

pub find_one :
    (n c : ℕ) (segments : ℕ → Segment)
    → n ≡ 1
    → (segments 0).base + 16 ≤ c
    → c < (segments 0).end - 16
    → find_segment n 0 segments c ≡ some (segments 0)
unfolding find_segment
find_one n c segments one low high = rw (one, find_segment) (ground arith)

free_chunk-merge :
    (s : State) (seg : Segment) (c t ps e : ℕ) (pu : Bool) (post : List Chunk)
    → Tiled s.mem e c pu ps (chunk t true ∷ post)
    → free_chunk s seg c ≡ merge s seg c
unfolding free_chunk
free_chunk-merge s seg c t ps e true post tiles =
    let known : size_of s.mem c ≡ t = omega arith in ground arith
free_chunk-merge s seg c t ps e false post tiles =
    let known : size_of s.mem c ≡ t = omega arith in ground arith

-- A chunk's pointer passes the checks in front of the merge.
checks_pass :
    (s : State) (c t ps : ℕ) (pu : Bool) (post : List Chunk)
    → s.core.seg_count ≡ 1
    → c % 16 ≡ 0
    → (s.core.segments 0).base + 16 ≤ c
    → Tiled s.mem ((s.core.segments 0).end - 16) c pu ps (chunk t true ∷ post)
    → dealloc s (c + 16) ≡ merge s (s.core.segments 0) c
unfolding dealloc
checks_pass s c t ps pu post one aligned low tiles =
    let inside =
      Tiled-end s.mem ((s.core.segments 0).end - 16) c pu ps (chunk t true ∷ post) tiles in
    let back : c + 16 - 16 ≡ c = omega arith in
    let mult : (c + 16) % 16 ≡ 0 = omega arith in
    rw (ne→== (c + 16) 0 (omega arith), mult)
      (rw (back, find_one s.core.seg_count c s.core.segments one low (omega (arith, tiles.2)), back)
        (free_chunk-merge s (s.core.segments 0) c t ps ((s.core.segments 0).end - 16) pu post
          tiles))

-- What freeing at `k` gives: a memory with the chunks `cs'`, and the counters.
abbrev pub Freed : State → List Chunk → List Chunk → ℕ → Type 0
Freed s cs cs' k =
    (m : Memory) × (bytes : ℕ) × (dealloc s ((s.core.segments 0).base + 32 + k)
      ≡ some (freed s m bytes))
    × IsHeap (freed s m bytes) cs'
    × (in_use_bit (flags_of m ((s.core.segments 0).base + 16 + k)) ≡ 0)
    × ((k % 16 ≡ 0) × ((s.core.segments 0).base + 16 + k < (s.core.segments 0).end - 16))

module _ (s : State) (cs cs' : List Chunk) (v : IsHeap s cs) where
  -- The fields of `IsHeap` from the new memory's tiling and the two sums.
  freed-IsHeap :
      (m : Memory) (bytes : ℕ)
      → Tiled m ((s.core.segments 0).end - 16) ((s.core.segments 0).base + 16) true 0 cs'
      → m ((s.core.segments 0).base + 8) ≡ s.mem ((s.core.segments 0).base + 8)
      → free_total cs' ≡ free_total cs + bytes
      → used_count cs ≡ used_count cs' + 1
      → IsHeap (freed s m bytes) cs'
  freed-IsHeap m bytes tiles fence sum live = record {
    one = v.one;
    base_aligned = v.base_aligned;
    end_aligned = v.end_aligned;
    wide = v.wide;
    bounded = v.bounded;
    fence = fence ∙ v.fence;
    tiles = tiles;
    free = omega (
      arith,
      v.free,
      free_total-le cs',
      Tiled-end m ((s.core.segments 0).end - 16) ((s.core.segments 0).base + 16) true 0 cs' tiles,
      v.wide,
      v.bounded,
    );
    live = omega (
      arith,
      v.live,
      used_count-le s.mem ((s.core.segments 0).end - 16) ((s.core.segments 0).base + 16) true 0 cs
          v.tiles,
      Tiled-end s.mem ((s.core.segments 0).end - 16) ((s.core.segments 0).base + 16) true 0 cs
          v.tiles,
      v.wide,
      v.bounded,
    );
  }

  module _ (pre post : List Chunk) (t : ℕ) (last : last_used true pre ≡ true) where
    forward-Freed :
        (k : ℕ)
        → k ≡ total pre
        → cs ≡ pre ++ (chunk t true ∷ post)
        → cs' ≡ pre ++ (chunk (t + extra post) false ∷ rest_of post)
        → Freed s cs cs' k
    forward-Freed k at before after =
        let e = (s.core.segments 0).end - 16 in
        let a = (s.core.segments 0).base + 16 in
        let c = (s.core.segments 0).base + 16 + total pre in
        let whole : Tiled s.mem e a true 0 (pre ++ (chunk t true ∷ post)) = rw before at v.tiles in
        let (q, found) = Tiled-at s.mem e a true 0 pre (chunk t true ∷ post) whole in
        let here : Tiled s.mem e c true q (chunk t true ∷ post) = rw last at found in
        let pointer : (s.core.segments 0).base + 32 + total pre ≡ c + 16 = omega arith in
        let aligned : c % 16 ≡ 0 =
          omega (
            arith,
            v.base_aligned,
            total-aligned s.mem e a true 0 pre (chunk t true ∷ post) whole,
          ) in
        let m = merged s.mem c t (c + t) post in
        let same = merged-below s.mem e c t (c + t) t post here.5 refl here.2 in
        let tiles : Tiled m e a true 0 (pre ++ (chunk (t + extra post) false ∷ rest_of post)) =
          Tiled-suffix s.mem m e a true 0 pre (chunk t true ∷ post)
            (chunk (t + extra post) false ∷ rest_of post) c refl same
            (λ q' x.
              rw last (
                merged-Tiled s.mem e c t (c + t) t post here.5 refl here.2 q' here.3 (omega arith)))
            whole in
        (
          m,
          t,
          rw at (
              rw pointer (
                checks_pass s c t q true post v.one aligned (omega arith) here
                ∙ merge-forward s (s.core.segments 0) c t q post (omega (arith, v.wide)) here)),
          freed-IsHeap m t (rw after tiles) (same ((s.core.segments 0).base + 8) (omega arith))
              (omega (
                arith,
                ap free_total before,
                ap free_total after,
                extra-free post,
                free_total-append pre (chunk t true ∷ post),
                free_total-append pre (chunk (t + extra post) false ∷ rest_of post),
              ))
              (omega (
                arith,
                ap used_count before,
                ap used_count after,
                extra-used post,
                used_count-append pre (chunk t true ∷ post),
                used_count-append pre (chunk (t + extra post) false ∷ rest_of post),
              )),
          rw at (merged-even s.mem e c t (c + t) t post here.5 refl here.2 here.3 (omega arith)),
          (
            omega (arith, at, aligned, v.base_aligned),
            omega (arith, at, here.2, Tiled-end s.mem e c true q (chunk t true ∷ post) here),
          ),
        )

    backward-Freed :
        (k size : ℕ)
        → k ≡ total pre + size
        → cs ≡ pre ++ (chunk size false ∷ chunk t true ∷ post)
        → cs' ≡ pre ++ (chunk (t + size + extra post) false ∷ rest_of post)
        → Freed s cs cs' k
    backward-Freed k size at before after =
        let e = (s.core.segments 0).end - 16 in
        let a = (s.core.segments 0).base + 16 in
        let b = (s.core.segments 0).base + 16 + total pre in
        let c = (s.core.segments 0).base + 16 + total pre + size in
        let ys : List Chunk = chunk size false ∷ chunk t true ∷ post in
        let xs : List Chunk = chunk (t + size + extra post) false ∷ rest_of post in
        let whole : Tiled s.mem e a true 0 (pre ++ ys) = rw before at v.tiles in
        let (q, found) = Tiled-at s.mem e a true 0 pre ys whole in
        let here : Tiled s.mem e b true q ys = rw last at found in
        let pointer : (s.core.segments 0).base + 32 + (total pre + size) ≡ c + 16 = omega arith in
        let aligned : c % 16 ≡ 0 =
          omega (arith, v.base_aligned, here.3, total-aligned s.mem e a true 0 pre ys whole) in
        let m0 = set_header s.mem c 0 0 in
        let flag : prev_in_use_bit (flags_of s.mem b) ≡ 2 = omega (arith, here.0) in
        let address : a + (total pre + size) ≡ c = omega arith in
        let silent : m0 (c + 8) ≡ 0 = update_self s.mem (c + 8) 0 in
        let next = Tiled-frame s.mem m0 e (c + t) true t post (λ x h. ground arith) here.5.5 in
        let m = merged m0 b (t + size) (c + t) post in
        let same : (x : ℕ) → x < b → m x ≡ s.mem x = λ x h.
          merged-below m0 e b (t + size) (c + t) t post next (omega arith) (omega (arith, here.2)) x
            h
          ∙ update_ne s.mem (c + 8) x 0 (omega arith) in
        let tiles : Tiled m e a true 0 (pre ++ xs) =
          Tiled-suffix s.mem m e a true 0 pre ys xs b refl same
            (λ q' x. rw last (
              merged-Tiled m0 e b (t + size) (c + t) t post next (omega arith)
                (omega (arith, here.2)) q' (omega (arith, here.3, here.5.3))
                (ap (λ w. prev_in_use_bit (w % 8))
                    (update_ne s.mem (c + 8) (b + 8) 0 (omega (arith, here.2)))
                  ∙ flag)))
            whole in
        (
          m,
          t,
          rw at (
              rw pointer (
                checks_pass s c t size false post v.one aligned (omega arith) here.5
                ∙ merge-backward s (s.core.segments 0) c t q post b size (omega (arith, v.wide))
                    refl (omega arith) here)),
          freed-IsHeap m t (rw after tiles) (same ((s.core.segments 0).base + 8) (omega arith))
              (omega (
                arith,
                ap free_total before,
                ap free_total after,
                extra-free post,
                free_total-append pre ys,
                free_total-append pre xs,
              ))
              (omega (
                arith,
                ap used_count before,
                ap used_count after,
                extra-used post,
                used_count-append pre ys,
                used_count-append pre xs,
              )),
          rw (at, address)
              (ap (λ w. w % 8 % 2)
                (merged-inside m0 e b (t + size) (c + t) t post next (omega arith)
                    (omega (arith, here.2)) (c + 8) (omega (arith, here.2))
                    (omega (arith, here.5.2))
                  ∙ silent)),
          (
            omega (arith, at, aligned, v.base_aligned),
            omega
                (arith, at, here.5.2, Tiled-end s.mem e c false size (chunk t true ∷ post) here.5),
          ),
        )

  Freed-of_Cut : (k : ℕ) → Cut k cs cs' → Freed s cs cs' k
  Freed-of_Cut k (forward pre post t last at before after) =
      forward-Freed pre post t last k at before after
  Freed-of_Cut k (backward pre post size t last at before after) =
      backward-Freed pre post t last k size at before after

pub dealloc-Freed :
    (s : State) (cs cs' : List Chunk) (k : ℕ)
    → IsHeap s cs
    → release k cs ≡ some cs'
    → Freed s cs cs' k
dealloc-Freed s cs cs' k v h = Freed-of_Cut s cs cs' v k (
    release-Cut s.mem ((s.core.segments 0).end - 16) ((s.core.segments 0).base + 16) true 0 k cs cs'
      v.tiles h)

-- On a well-formed heap, freeing the pointer of a used chunk (the one at offset `k` after the
-- prologue) returns with the heap well-formed again over the list in which that chunk is free and
-- joined with its free neighbours on both sides. The counters of free bytes and of live
-- allocations are in step, and no violation is counted.
pub dealloc-IsHeap :
    (s : State) (cs cs' : List Chunk) (k : ℕ)
    → IsHeap s cs
    → release k cs ≡ some cs'
    → (m : Memory) × (bytes : ℕ) × (dealloc s ((s.core.segments 0).base + 32 + k)
        ≡ some (freed s m bytes))
      × IsHeap (freed s m bytes) cs'
dealloc-IsHeap s cs cs' k v h =
    let (m, bytes, run, heap, _, _) = dealloc-Freed s cs cs' k v h in (m, bytes, run, heap)
