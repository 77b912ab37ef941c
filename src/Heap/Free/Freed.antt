-- ===== src/Heap/Free/Freed.antt =====
-- From the forward loop of `HeapCore::dealloc` (src/hal/heap.rs) to its last write.
use planck_os.Prelude.{
  ℕ, zero, suc, ◌+◌, ◌-◌, ◌%◌, ◌≤◌, ◌<◌, ◌≡◌, refl, ◌∙◌, ap, true, false, some, List, [], ◌∷◌,
  arith, add64, sub64, ltb_of_le,
}
use planck_os.Heap.{Memory, State, Segment, size_of, flags_of, set_header, prev_in_use_bit}
use planck_os.Heap.Free.{absorb, finalize, merge_forward, merge}
use planck_os.Heap.Free.Merge.{extra, rest_of, wiped, absorb-eq, Wiped-Tiled, finalize-Tiled}
use planck_os.Heap.Tiles.{Chunk, chunk, Tiled, Tiled-end, Tiled-frame, free_total, used_count}

pub wiped-below : (m : Memory) (n : ℕ) (cs : List Chunk) (x : ℕ) → x < n + 8 → wiped m n cs x ≡ m x
wiped-below m n [] x h = refl
wiped-below m n (c ∷ cs) x h = ground arith

finalize-below : (m : Memory) (b size n x : ℕ) → b ≤ n → x < b → finalize m b size n x ≡ m x
unfolding finalize
finalize-below m b size n x le h = ground arith

finalize-inside : (m : Memory) (b size n x : ℕ) → b + 8 < x → x < n → finalize m b size n x ≡ m x
unfolding finalize
finalize-inside m b size n x low high = ground arith

extra-aligned :
    (m : Memory) (e a ps : ℕ) (cs : List Chunk) → Tiled m e a true ps cs → extra cs % 16 ≡ 0
extra-aligned m e a ps [] t = refl
extra-aligned m e a ps (c ∷ cs) t = ground (arith, t.3)

pub extra-free : (cs : List Chunk) → free_total (rest_of cs) + extra cs ≡ free_total cs
extra-free [] = refl
extra-free (c ∷ cs) = ground arith

pub extra-used : (cs : List Chunk) → used_count (rest_of cs) ≡ used_count cs
extra-used [] = refl
extra-used (c ∷ cs) = ground arith

-- The memory after the freed span of `size` bytes at `b`, followed at `n` by `cs`, is merged.
abbrev pub merged : Memory → ℕ → ℕ → ℕ → List Chunk → Memory
merged m b size n cs = finalize (wiped m n cs) b (size + extra cs) (n + extra cs)

module _ (m : Memory) (e b size n t : ℕ) (cs : List Chunk) (tiles : Tiled m e n true t cs)
    (next : n ≡ b + size) (big : 32 ≤ size) where
  pub merged-below : (x : ℕ) → x < b → merged m b size n cs x ≡ m x
  merged-below x h =
      finalize-below (wiped m n cs) b (size + extra cs) (n + extra cs) x (omega arith) h
      ∙ wiped-below m n cs x (omega arith)

  pub merged-Tiled :
      (ps : ℕ)
      → size % 16 ≡ 0
      → prev_in_use_bit (flags_of m b) ≡ 2
      → Tiled (merged m b size n cs) e b true ps (chunk (size + extra cs) false ∷ rest_of cs)
  merged-Tiled ps aligned prev =
      let (p, q, after, head) = Wiped-Tiled m e n t cs tiles in
      finalize-Tiled (wiped m n cs) e b (size + extra cs) (n + extra cs) ps q p (rest_of cs)
        (omega arith) (omega arith) (omega (arith, extra-aligned m e n t cs tiles))
        (ap (λ w. prev_in_use_bit (w % 8)) (wiped-below m n cs (b + 8) (omega arith)) ∙ prev) after
        head

  -- The header of the merged span has IN_USE clear.
  pub merged-even :
      size % 16 ≡ 0 → prev_in_use_bit (flags_of m b) ≡ 2 → merged m b size n cs (b + 8) % 8 % 2 ≡ 0
  merged-even aligned prev =
      omega (arith, (merged-Tiled 0 aligned prev).0, extra-aligned m e n t cs tiles)

  -- What lies inside the span is left alone.
  pub merged-inside : (x : ℕ) → b + 8 < x → x < n → merged m b size n cs x ≡ m x
  merged-inside x low high =
      finalize-inside (wiped m n cs) b (size + extra cs) (n + extra cs) x low (omega arith)
      ∙ wiped-below m n cs x (omega arith)

absorb-enough :
    (fuel e n span ps : ℕ) (m : Memory) (cs : List Chunk)
    → 1 ≤ fuel
    → Tiled m e n true ps cs
    → absorb (suc fuel) e (record { mem = m; next = n; size = span })
      ≡ some (record { mem = wiped m n cs; next = n + extra cs; size = span + extra cs })
absorb-enough zero e n span ps m cs h t = absurd (omega arith)
absorb-enough (suc fuel) e n span ps m cs h t = absorb-eq fuel e n span ps m cs t

-- The state after a chunk of `bytes` bytes is freed.
abbrev pub freed : State → Memory → ℕ → State
freed s m bytes = record {
  core = record s.core {
    free_bytes = add64 s.core.free_bytes bytes;
    alloc_count = sub64 s.core.alloc_count 1;
  };
  mem = m;
}

pub merge_forward-eq :
    (s : State) (m : Memory) (e b size n t c_size : ℕ) (cs : List Chunk)
    → 1 ≤ e
    → Tiled m e n true t cs
    → merge_forward s e m b size n c_size ≡ some (freed s (merged m b size n cs) c_size)
unfolding merge_forward
merge_forward-eq s m e b size n t c_size cs pos tiles =
    let (p, q, after, head) = Wiped-Tiled m e n t cs tiles in
    rw (absorb-enough e e n size t m cs pos tiles, merge_forward)
      (rw
        (ltb_of_le e (n + extra cs)
          (omega (arith, Tiled-end (wiped m n cs) e (n + extra cs) p q (rest_of cs) after)))
        refl)

module _ (s : State) (seg : Segment) (c t ps : ℕ) (post : List Chunk) where
  pub merge-forward :
      1 ≤ seg.end - 16
      → Tiled s.mem (seg.end - 16) c true ps (chunk t true ∷ post)
      → merge s seg c ≡ some (freed s (merged s.mem c t (c + t) post) t)
  unfolding merge
  merge-forward pos tiles =
      let known : size_of s.mem c ≡ t = omega arith in
      let flag : prev_in_use_bit (flags_of s.mem c) ≡ 2 = omega arith in
      rw (flag, known) (merge_forward-eq s s.mem (seg.end - 16) c t (c + t) t t post pos tiles.5)

  pub merge-backward :
      (b size : ℕ)
      → 1 ≤ seg.end - 16
      → c ≡ b + size
      → seg.base + 16 ≤ b
      → Tiled s.mem (seg.end - 16) b true ps (chunk size false ∷ chunk t true ∷ post)
      → merge s seg c ≡ some (freed s (merged (set_header s.mem c 0 0) b (t + size) (c + t) post) t)
  unfolding merge
  merge-backward b size pos at low tiles =
      let tiles' : Tiled s.mem (seg.end - 16) c false size (chunk t true ∷ post) = rw at tiles.5 in
      let known : size_of s.mem c ≡ t = omega arith in
      let flag : prev_in_use_bit (flags_of s.mem c) ≡ 0 = omega arith in
      let prev : c - (s.mem c - s.mem c % 8) ≡ b = omega arith in
      let prev_size : size_of s.mem b ≡ size = omega arith in
      rw (flag, known, prev, prev_size, ltb_of_le b (seg.base + 16) low)
        (merge_forward-eq s (set_header s.mem c 0 0) (seg.end - 16) b (t + size) (c + t) t t post
          pos
          (Tiled-frame s.mem (set_header s.mem c 0 0) (seg.end - 16) (c + t) true t post
            (λ x h. ground arith) tiles'.5))
