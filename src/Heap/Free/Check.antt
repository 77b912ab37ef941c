-- ===== src/Heap/Free/Check.antt =====
-- `HeapCore::check_invariants` of src/hal/heap.rs accepts.
use planck_os.Prelude.{
  ℕ, zero, suc, ◌+◌, ◌-◌, ◌%◌, ◌≤◌, ◌<◌, ◌≡◌, refl, add64, inl, inr, leb, Bool-cases, Bool, true,
  false, some, Option, List, [], ◌∷◌, arith,
}
use planck_os.Heap.{
  State, Memory, Segment, size_of, flags_of, in_use_bit, prev_in_use_bit, prev_size_of,
}
use mathlib.Core.Path.{subst}
use planck_os.Heap.Free.{chunk_ok, check_chunks, check_segment, check_from, check_invariants}
use planck_os.Heap.Tiles.{Chunk, chunk, Tiled, Tiled-end}
use planck_os.Heap.Alloc.{IsHeap}

chunk_ok-last :
    (m : Memory) (e a ps size : ℕ) (u pu : Bool)
    → e < 18446744073709551616
    → Tiled m e a pu ps (chunk size u ∷ [])
    → chunk_ok m e a ≡ true
unfolding chunk_ok
chunk_ok-last m e a ps size true true low t =
    let k : size_of m a ≡ size = omega arith in let last : a + size ≡ e = t.5.0 in ground arith
chunk_ok-last m e a ps size true false low t =
    let k : size_of m a ≡ size = omega arith in let last : a + size ≡ e = t.5.0 in ground arith
chunk_ok-last m e a ps size false true low t =
    let k : size_of m a ≡ size = omega arith in let last : a + size ≡ e = t.5.0 in ground arith
chunk_ok-last m e a ps size false false low t = cc (t.4)

chunk_ok-inner :
    (m : Memory) (e a ps size next : ℕ) (u v pu : Bool) (cs : List Chunk)
    → e < 18446744073709551616
    → Tiled m e a pu ps (chunk size u ∷ chunk next v ∷ cs)
    → chunk_ok m e a ≡ true
unfolding chunk_ok
chunk_ok-inner m e a ps size next true true true cs low t =
    let k : size_of m a ≡ size = omega arith in
    let l = Tiled-end m e a true ps (chunk size true ∷ chunk next true ∷ cs) t in ground arith
chunk_ok-inner m e a ps size next true false true cs low t =
    let k : size_of m a ≡ size = omega arith in
    let l = Tiled-end m e a true ps (chunk size true ∷ chunk next false ∷ cs) t in ground arith
chunk_ok-inner m e a ps size next false true true cs low t =
    let k : size_of m a ≡ size = omega arith in
    let l = Tiled-end m e a true ps (chunk size false ∷ chunk next true ∷ cs) t in ground arith
chunk_ok-inner m e a ps size next true true false cs low t =
    let k : size_of m a ≡ size = omega arith in
    let l = Tiled-end m e a false ps (chunk size true ∷ chunk next true ∷ cs) t in ground arith
chunk_ok-inner m e a ps size next true false false cs low t =
    let k : size_of m a ≡ size = omega arith in
    let l = Tiled-end m e a false ps (chunk size true ∷ chunk next false ∷ cs) t in ground arith
chunk_ok-inner m e a ps size next false false pu cs low t = cc (t.5.4)
chunk_ok-inner m e a ps size next false true false cs low t = cc (t.4)

chunk_ok-Tiled :
    (m : Memory) (e a ps : ℕ) (pu : Bool) (c : Chunk) (cs : List Chunk)
    → e < 18446744073709551616
    → Tiled m e a pu ps (c ∷ cs)
    → chunk_ok m e a ≡ true
chunk_ok-Tiled m e a ps pu c [] low t = chunk_ok-last m e a ps c.size c.used pu low t
chunk_ok-Tiled m e a ps pu c (d ∷ cs) low t =
    chunk_ok-inner m e a ps c.size d.size c.used d.used pu cs low t

size_of-Tiled :
    (m : Memory) (e a ps size : ℕ) (pu u : Bool) (cs : List Chunk)
    → Tiled m e a pu ps (chunk size u ∷ cs)
    → size_of m a ≡ size
size_of-Tiled m e a ps size true true cs t = omega arith
size_of-Tiled m e a ps size true false cs t = omega arith
size_of-Tiled m e a ps size false true cs t = omega arith
size_of-Tiled m e a ps size false false cs t = omega arith

-- The walk of the check ends at the epilogue.
check_chunks-Tiled :
    (fuel : ℕ) (m : Memory) (e a : ℕ) (pu : Bool) (ps : ℕ) (cs : List Chunk)
    → e < 18446744073709551616
    → e ≤ a + fuel
    → Tiled m e a pu ps cs
    → check_chunks (suc fuel) m e a ≡ some e
unfolding check_chunks
check_chunks-Tiled fuel m e a pu ps [] low enough t = ground arith
check_chunks-Tiled zero m e a pu ps (c ∷ cs) low enough t =
    absurd (omega (arith, Tiled-end m e a pu ps (c ∷ cs) t))
check_chunks-Tiled (suc fuel) m e a pu ps (c ∷ cs) low enough t = ground (
  arith,
  Tiled-end m e a pu ps (c ∷ cs) t,
  size_of-Tiled m e a ps c.size pu c.used cs t,
  chunk_ok-Tiled m e a ps pu c cs low t,
  check_chunks-Tiled fuel m e (a + c.size) c.used c.size cs low (omega arith) t.5,
)

epilogue_word :
    (m : Memory) (e a : ℕ) (pu : Bool) (ps : ℕ) (cs : List Chunk)
    → Tiled m e a pu ps cs
    → (size_of m e ≡ 16) × (in_use_bit (flags_of m e) ≡ 1)
epilogue_word m e a true ps [] t = rw (← t.0) (omega arith, omega arith)
epilogue_word m e a false ps [] t = rw (← t.0) (omega arith, omega arith)
epilogue_word m e a pu ps (c ∷ cs) t = epilogue_word m e (a + c.size) c.used c.size cs t.5

check_segment-IsHeap :
    (s : State) (cs : List Chunk) → IsHeap s cs → check_segment s.mem (s.core.segments 0) ≡ true
unfolding check_segment
check_segment-IsHeap s cs v =
    let base = (s.core.segments 0).base in
    let end = (s.core.segments 0).end in
    let walk =
      check_chunks-Tiled end s.mem (end - 16) (base + 16) true 0 cs
        (omega (arith, v.wide, v.bounded)) (omega (arith, v.wide)) v.tiles in
    let word = epilogue_word s.mem (end - 16) (base + 16) true 0 cs v.tiles in
    ground (arith, walk, word.0, word.1, v.fence)

-- A chunk of which the words agree with those of the next one.
pub record ChunkShape (m : Memory) (e a : ℕ) : Type 0 where
  pub large : 32 ≤ size_of m a
  pub aligned : size_of m a % 16 ≡ 0
  pub inside : add64 a (size_of m a) ≤ e
  pub footer : in_use_bit (flags_of m a) ≡ 0 → prev_size_of m (add64 a (size_of m a)) ≡ size_of m a
  pub told_free :
      in_use_bit (flags_of m a) ≡ 0 → prev_in_use_bit (flags_of m (add64 a (size_of m a))) ≡ 0
  pub told_used :
      in_use_bit (flags_of m a) ≡ 1
      → add64 a (size_of m a) < e
      → prev_in_use_bit (flags_of m (add64 a (size_of m a))) ≡ 2
  pub apart :
      in_use_bit (flags_of m a) ≡ 0
      → add64 a (size_of m a) < e
      → in_use_bit (flags_of m (add64 a (size_of m a))) ≡ 1

-- From `a` on, chunk follows upon chunk up to the epilogue at `e`.
pub data Shaped (m : Memory) (e : ℕ) : ℕ → Type 0 where
  at_epilogue : Shaped m e e
  then_chunk :
      {a : ℕ} → a < e → ChunkShape m e a → Shaped m e (add64 a (size_of m a)) → Shaped m e a

-- A segment with fences of 16 bytes in use and chunks of that shape between them.
pub record Accepted (m : Memory) (seg : Segment) : Type 0 where
  pub prologue : size_of m seg.base ≡ 16
  pub prologue_used : in_use_bit (flags_of m seg.base) ≡ 1
  pub prologue_prev : prev_in_use_bit (flags_of m seg.base) ≡ 2
  pub chunks : Shaped m (seg.end - 16) (seg.base + 16)
  pub epilogue : size_of m (seg.end - 16) ≡ 16
  pub epilogue_used : in_use_bit (flags_of m (seg.end - 16)) ≡ 1

chunk_ok-ChunkShape : (m : Memory) (e a : ℕ) → chunk_ok m e a ≡ true → ChunkShape m e a
unfolding chunk_ok
chunk_ok-ChunkShape m e a h = record {
  large = ground arith;
  aligned = ground arith;
  inside = ground arith;
  footer = λ f. ground arith;
  told_free = λ f. ground arith;
  told_used = λ f l. ground arith;
  apart = λ f l. ground arith;
}

meets : (a e : ℕ) → leb e a ≡ true → ◌≡◌ {A = Option ℕ} (some a) (some e) → e ≡ a
meets a e l h = ground arith

check_chunks-Shaped :
    (fuel : ℕ) (m : Memory) (e a : ℕ) → check_chunks fuel m e a ≡ some e → Shaped m e a
unfolding check_chunks
check_chunks-Shaped zero m e a h = absurd (cc h)
check_chunks-Shaped (suc fuel) m e a h =
    let next = add64 a (size_of m a) in
    elim (Bool-cases (leb e a)) [
      | inl f ↦ subst (λ x. Shaped m e x) (meets a e f (ground arith)) at_epilogue
      | inr f ↦ elim (Bool-cases (chunk_ok m e a)) [
        | inl g ↦
            then_chunk (ground arith) (chunk_ok-ChunkShape m e a g)
              (check_chunks-Shaped fuel m e next (ground arith))
        | inr g ↦ absurd (ground arith)
      ]
    ]

check_segment-Accepted : (m : Memory) (seg : Segment) → check_segment m seg ≡ true → Accepted m seg
unfolding check_segment
check_segment-Accepted m seg h =
    let walk = check_chunks (suc seg.end) m (seg.end - 16) (seg.base + 16) in
    let ends : walk ≡ some (seg.end - 16) = ground arith in
    record {
      prologue = ground arith;
      prologue_used = ground arith;
      prologue_prev = ground arith;
      chunks = check_chunks-Shaped (suc seg.end) m (seg.end - 16) (seg.base + 16) ends;
      epilogue = ground arith;
      epilogue_used = ground arith;
    }

-- With one segment, the structural validation accepts every well-formed heap, and what it accepts
-- has fences of 16 bytes in use, the first with PREV_IN_USE, and, between them, chunks each
-- beginning where the one before ends (modulo 2^64), of at least 32 bytes and a multiple of 16:
-- behind a free chunk stands its size (the low three bits of the word aside), the next header does
-- not have PREV_IN_USE, and is in use if it is not the epilogue; behind a used one the next header,
-- if it is not the epilogue, has PREV_IN_USE.
pub check_invariants-IsHeap :
    (s : State)
    → s.core.seg_count ≡ 1
    → ((cs : List Chunk) → IsHeap s cs → check_invariants s ≡ true)
      × (check_invariants s ≡ true → Accepted s.mem (s.core.segments 0))
unfolding check_invariants check_from
check_invariants-IsHeap s one = (
  λ cs v. rw (one, check_from) (rw (check_segment-IsHeap s cs v) refl),
  λ h. check_segment-Accepted s.mem (s.core.segments 0) (ground arith),
)
