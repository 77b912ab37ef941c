-- ===== src/Heap/Alloc.antt =====
-- What a well-formed kernel heap is, and what `HeapCore::alloc` of src/hal/heap.rs does to one.
use planck_os.Prelude.{
  ℕ, ◌+◌, ◌-◌, ◌%◌, ◌≤◌, ◌<◌, ◌≡◌, refl, ap, Bool, true, false, some, List, [], ◌∷◌, ◌++◌, arith,
  leb, Bool-cases, inl, inr,
}
use native.Mathlib.Nat.{add-zero, add_assoc}
use planck_os.Heap.{
  Memory, size_of, fit, split, take_whole, place, taken, State, Layout, chunk_size,
}
use planck_os.Heap.Tiles.{Chunk, chunk, header, Tiled, total, last_used, free_total, used_count}
use planck_os.Heap.FirstFit.{first_at, take_first, carve, fits, place-Tiled}

-- The state that the kernel runs in: one segment, tiled by the chunks `cs` between its fences, and
-- the two counters in step with them.
pub record IsHeap (s : State) (cs : List Chunk) : Type 0 where
  pub one : s.core.seg_count ≡ 1
  pub base_aligned : (s.core.segments 0).base % 16 ≡ 0
  pub end_aligned : (s.core.segments 0).end % 16 ≡ 0
  pub wide : (s.core.segments 0).base + 32 ≤ (s.core.segments 0).end
  pub bounded : (s.core.segments 0).end < 18446744073709551616
  pub fence : s.mem ((s.core.segments 0).base + 8) ≡ 19
  pub tiles : Tiled s.mem ((s.core.segments 0).end - 16) ((s.core.segments 0).base + 16) true 0 cs
  pub free : s.core.free_bytes ≡ free_total cs
  pub live : s.core.alloc_count ≡ used_count cs

pub place-below : (m : Memory) (p needed : ℕ) (x : ℕ) → x < p → place m p needed x ≡ m x
unfolding place split take_whole
place-below m p needed x h = ground arith

pub place-Tiled_any :
    (m : Memory) (e a ps needed s : ℕ) (cs : List Chunk) (pu : Bool)
    → 32 ≤ needed
    → needed % 16 ≡ 0
    → needed ≤ s
    → Tiled m e a pu ps (chunk s false ∷ cs)
    → Tiled (place m a needed) e a pu ps (carve needed s cs)
place-Tiled_any m e a ps needed s cs true big aligned room t =
    place-Tiled m e a ps needed s cs t big aligned room
place-Tiled_any m e a ps needed s cs false big aligned room t = absurd (cc (t.4))

-- Where the first fit lies in the list.
pub record Found (needed a : ℕ) (cs : List Chunk) (p : ℕ) : Type 0 where
  pub pre : List Chunk
  pub post : List Chunk
  pub size : ℕ
  pub whole : cs ≡ pre ++ (chunk size false ∷ post)
  pub here : p ≡ a + total pre
  pub room : needed ≤ size
  pub result : take_first needed cs ≡ pre ++ carve needed size post

found_cons :
    (needed a p : ℕ) (c : Chunk) (cs : List Chunk)
    → fits needed c ≡ false
    → Found needed (a + c.size) cs p
    → Found needed a (c ∷ cs) p
found_cons needed a p c cs h f = record {
  pre = c ∷ f.pre;
  post = f.post;
  size = f.size;
  whole = ap (λ l. c ∷ l) f.whole;
  here = omega (arith, f.here);
  room = f.room;
  result = rw h (ap (λ l. c ∷ l) f.result);
}

pub found : (needed a p : ℕ) (cs : List Chunk) → first_at needed a cs ≡ fit p → Found needed a cs p
found needed a p [] h = cc
found needed a p (c ∷ cs) h = elim (Bool-cases (fits needed c)) [
  | inl yes_ ↦ record {
    pre = [];
    post = cs;
    size = c.size;
    whole = ap (λ u. chunk c.size u ∷ cs) (ground arith);
    here = ground arith;
    room = ground arith;
    result = rw yes_ refl;
  }
  | inr no_ ↦ found_cons needed a p c cs no_ (found needed (a + c.size) p cs (rw no_ at h))
]

-- The tiling of a suffix, from that of the whole list.
pub Tiled-at :
    (m : Memory) (e a : ℕ) (pu : Bool) (ps : ℕ) (pre ys : List Chunk)
    → Tiled m e a pu ps (pre ++ ys)
    → (q : ℕ) × Tiled m e (a + total pre) (last_used pu pre) q ys
Tiled-at m e a pu ps [] ys t = (ps, rw add-zero t)
Tiled-at m e a pu ps (c ∷ cs) ys t =
    let (q, r) = Tiled-at m e (a + c.size) c.used c.size cs ys t.5 in (q, rw (← add_assoc) r)

pub free_total-append : (xs ys : List Chunk) → free_total (xs ++ ys) ≡ free_total xs + free_total ys
free_total-append [] ys = omega arith
free_total-append (x ∷ xs) ys = omega (arith, free_total-append xs ys)

pub used_count-append : (xs ys : List Chunk) → used_count (xs ++ ys) ≡ used_count xs + used_count ys
used_count-append [] ys = omega arith
used_count-append (x ∷ xs) ys = omega (arith, used_count-append xs ys)

pub free_total-le : (cs : List Chunk) → free_total cs ≤ total cs
free_total-le [] = omega arith
free_total-le (c ∷ cs) = elim (Bool-cases c.used) [
  | inl u ↦ rw u (omega (arith, free_total-le cs))
  | inr u ↦ rw u (omega (arith, free_total-le cs))
]

pub used_count-le :
    (m : Memory) (e a : ℕ) (pu : Bool) (ps : ℕ) (cs : List Chunk)
    → Tiled m e a pu ps cs
    → used_count cs ≤ total cs
used_count-le m e a pu ps [] t = omega arith
used_count-le m e a pu ps (c ∷ cs) t = elim (Bool-cases c.used) [
  | inl u ↦ rw u (omega (arith, t.2, used_count-le m e (a + c.size) c.used c.size cs t.5))
  | inr u ↦ rw u (omega (arith, used_count-le m e (a + c.size) c.used c.size cs t.5))
]

pub header-size-free :
    (m : Memory) (a s : ℕ) (pu : Bool)
    → m (a + 8) ≡ header s false pu
    → s % 16 ≡ 0
    → size_of m a ≡ s
header-size-free m a s true h k = omega arith
header-size-free m a s false h k = omega arith

-- What `alloc` takes from the free bytes is what the list loses.
pub taken-eq :
    (m : Memory) (e a ps needed s : ℕ) (pu : Bool) (cs : List Chunk)
    → Tiled m e a pu ps (chunk s false ∷ cs)
    → needed ≤ s
    → (free_total (carve needed s cs) + taken m a needed ≡ free_total (chunk s false ∷ cs))
      × (used_count (carve needed s cs) ≡ 1 + used_count (chunk s false ∷ cs))
unfolding taken
taken-eq m e a ps needed s pu cs t room =
    let known : size_of m a ≡ s = header-size-free m a s pu t.0 t.3 in
    elim (Bool-cases (leb 32 (s - needed))) [
      | inl far ↦ rw (known, far) (omega arith, omega arith)
      | inr near ↦ rw (known, near) (omega arith, omega arith)
    ]

pub chunk_size_bounds :
    (l : Layout) (n : ℕ) → chunk_size l ≡ some n → (n % 16 ≡ 0) × (32 ≤ n) × (l.size + 16 ≤ n)
unfolding chunk_size
chunk_size_bounds l n h = ground arith

pub total-aligned :
    (m : Memory) (e a : ℕ) (pu : Bool) (ps : ℕ) (pre ys : List Chunk)
    → Tiled m e a pu ps (pre ++ ys)
    → total pre % 16 ≡ 0
total-aligned m e a pu ps [] ys t = refl
total-aligned m e a pu ps (c ∷ cs) ys t =
    omega (arith, t.3, total-aligned m e (a + c.size) c.used c.size cs ys t.5)
