-- ===== src/Heap/Free/Merge.antt =====
-- The merge of `HeapCore::dealloc` of src/hal/heap.rs, on the tiling.
use planck_os.Prelude.{
  ℕ, suc, ◌+◌, ◌*◌, ◌%◌, ◌≤◌, ◌≡◌, refl, ◌∙◌, ap, Bool, true, false, some, List, [], ◌∷◌, arith,
  if◌then◌else◌,
}
use native.Mathlib.Nat.{add-zero}
use planck_os.Heap.{Memory, size_of, flags_of, in_use_bit, prev_in_use_bit, set_header}
use planck_os.Heap.Free.{absorb, Span, finalize}
use planck_os.Heap.Tiles.{
  Chunk, chunk, bit, Tiled, head_used, Tiled-frame, Tiled-retag, Tiled-end, Tiled-head,
}

-- What the forward loop absorbs, and what it leaves.
abbrev pub extra : List Chunk → ℕ
extra [] = 0
extra (c ∷ cs) = if c.used then 0 else c.size

abbrev pub rest_of : List Chunk → List Chunk
rest_of [] = []
rest_of (c ∷ cs) = if c.used then c ∷ cs else cs

abbrev pub wiped : Memory → ℕ → List Chunk → Memory
wiped m n [] = m
wiped m n (c ∷ cs) = if c.used then m else set_header m n 0 0

pub head-flags :
    (m : Memory) (e a ps : ℕ) (pu : Bool) (cs : List Chunk)
    → head_used cs ≡ true
    → Tiled m e a pu ps cs
    → m (a + 8) % 8 ≡ 1 + 2 * bit pu
head-flags m e a ps true [] h t = omega arith
head-flags m e a ps false [] h t = omega arith
head-flags m e a ps true (c ∷ cs) h t = omega (arith, ap bit h)
head-flags m e a ps false (c ∷ cs) h t = omega (arith, ap bit h)

-- The loop stops at a used chunk and at the epilogue.
absorb-stop :
    (fuel e : ℕ) (s : Span) (ps : ℕ) (pu : Bool) (cs : List Chunk)
    → head_used cs ≡ true
    → Tiled s.mem e s.next pu ps cs
    → absorb (suc fuel) e s ≡ some s
unfolding absorb
absorb-stop fuel e s ps true cs h t = ground (arith, head-flags s.mem e s.next ps true cs h t)
absorb-stop fuel e s ps false cs h t = ground (arith, head-flags s.mem e s.next ps false cs h t)

abbrev Wiped : Memory → ℕ → ℕ → List Chunk → Type 0
Wiped m e n cs =
    (p : Bool) × (q : ℕ) × Tiled (wiped m n cs) e (n + extra cs) p q (rest_of cs)
    × (head_used (rest_of cs) ≡ true)

Wiped-cons :
    (m : Memory) (e n ps size : ℕ) (u : Bool) (cs : List Chunk)
    → Tiled m e n true ps (chunk size u ∷ cs)
    → Wiped m e n (chunk size u ∷ cs)
Wiped-cons m e n ps size true cs t = (true, ps, rw add-zero t, refl)
Wiped-cons m e n ps size false cs t = (
  false,
  size,
  Tiled-frame m (set_header m n 0 0) e (n + size) false size cs (λ x h. ground arith) t.5,
  Tiled-head m e (n + size) size cs t.5,
)

pub Wiped-Tiled :
    (m : Memory) (e n ps : ℕ) (cs : List Chunk) → Tiled m e n true ps cs → Wiped m e n cs
Wiped-Tiled m e n ps [] t = (true, ps, rw add-zero t, refl)
Wiped-Tiled m e n ps (c ∷ cs) t = Wiped-cons m e n ps c.size c.used cs t

absorb-cons :
    (fuel e n span ps : ℕ) (m : Memory) (size : ℕ) (u : Bool) (cs : List Chunk)
    → Tiled m e n true ps (chunk size u ∷ cs)
    → absorb (suc (suc fuel)) e (record { mem = m; next = n; size = span })
      ≡ some (record {
        mem = wiped m n (chunk size u ∷ cs);
        next = n + extra (chunk size u ∷ cs);
        size = span + extra (chunk size u ∷ cs);
      })
unfolding absorb
absorb-cons fuel e n span ps m size true cs t =
    absorb-stop (suc fuel) e (record { mem = m; next = n; size = span }) ps true
      (chunk size true ∷ cs) refl t
    ∙ rw (add-zero, add-zero) refl
absorb-cons fuel e n span ps m size false cs t =
    let known : size_of m n ≡ size = omega arith in
    let after =
      absorb-stop fuel e (record { mem = set_header m n 0 0; next = n + size; size = span + size })
        size false cs (Tiled-head m e (n + size) size cs t.5)
        (Tiled-frame m (set_header m n 0 0) e (n + size) false size cs (λ x h. ground arith) t.5) in
    ground (arith, known, after, Tiled-end m e n true ps (chunk size false ∷ cs) t)

-- The loop absorbs the free chunk after the freed one, if there is one, and no more.
pub absorb-eq :
    (fuel e n span ps : ℕ) (m : Memory) (cs : List Chunk)
    → Tiled m e n true ps cs
    → absorb (suc (suc fuel)) e (record { mem = m; next = n; size = span })
      ≡ some (record { mem = wiped m n cs; next = n + extra cs; size = span + extra cs })
unfolding absorb
absorb-eq fuel e n span ps m [] t =
    absorb-stop (suc fuel) e (record { mem = m; next = n; size = span }) ps true [] refl t
    ∙ rw (add-zero, add-zero) refl
absorb-eq fuel e n span ps m (c ∷ cs) t = absorb-cons fuel e n span ps m c.size c.used cs t

finalize-next :
    (m : Memory) (b size n : ℕ)
    → 32 ≤ size
    → n ≡ b + size
    → finalize m b size n (n + 8) ≡ size_of m n + in_use_bit (flags_of m n)
unfolding finalize
finalize-next m b size n big eq = ground arith

-- The last three writes of `dealloc` make one free chunk of the span.
pub finalize-Tiled :
    (m : Memory) (e b size n ps q : ℕ) (p : Bool) (cs : List Chunk)
    → n ≡ b + size
    → 32 ≤ size
    → size % 16 ≡ 0
    → prev_in_use_bit (flags_of m b) ≡ 2
    → Tiled m e n p q cs
    → head_used cs ≡ true
    → Tiled (finalize m b size n) e b true ps (chunk size false ∷ cs)
unfolding finalize
finalize-Tiled m e b size n ps q p cs eq big aligned prev t h = (
  ground arith,
  tt,
  big,
  aligned,
  tt,
  rw (← eq) (
      Tiled-retag m (finalize m b size n) e n p false q size cs
        (omega (arith, finalize-next m b size n big eq, head-flags m e n q p cs h t)) (ground arith)
        h (λ x above. ground arith) t),
)
