-- ===== src/Heap/FirstFit.antt =====
-- The walk of `HeapCore::alloc` and the chunk that it takes, on the list of chunks.
use planck_os.Prelude.{
  ℕ, zero, suc, ◌+◌, ◌-◌, ◌%◌, ◌≤◌, ◌<◌, ◌≡◌, ◌≢◌, ap, ◌∙◌, add64, Bool, true, false, not, ◌&&◌,
  List, [], ◌∷◌, arith, ltb, leb, ◌==◌, if◌then◌else◌, Bool-cases, ltb_of_le, leb→le, inl, inr,
}
use planck_os.Heap.{
  Memory, size_of, flags_of, in_use_bit, Walk, fit, stop, out_of_fuel, find_fit, split, take_whole,
  place,
}
use planck_os.Heap.Tiles.{
  Chunk, chunk, header, Tiled, Tiled-retag, Tiled-end, Tiled-head, Tiled-flags,
}

-- The places that a walk over headers comes to, from `a` on.
pub data Reaches (m : Memory) (a : ℕ) : ℕ → Type 0 where
  start : Reaches m a a
  next : {c : ℕ} → Reaches m a c → Reaches m a (add64 c (size_of m c))

-- No header below `e` that a walk from `a` comes to carries it over the end of the addresses.
abbrev pub NoWrap : Memory → ℕ → ℕ → Type 0
NoWrap m a e = (c : ℕ) → Reaches m a c → c < e → c + size_of m c < 18446744073709551616

-- A walk that does not wrap ends by itself: each step goes on by at least MIN_CHUNK.
pub find_fit-ne-out_of_fuel :
    (fuel : ℕ) (m : Memory) (needed a c epilogue : ℕ)
    → NoWrap m a epilogue
    → Reaches m a c
    → epilogue ≤ c + fuel
    → find_fit (suc fuel) m needed c epilogue ≢ out_of_fuel
unfolding find_fit
find_fit-ne-out_of_fuel zero m needed a c epilogue w r h =
    let end : ltb c epilogue ≡ false = ltb_of_le c epilogue (omega arith) in ground arith
find_fit-ne-out_of_fuel (suc fuel) m needed a c epilogue w r h =
    let onward =
      find_fit-ne-out_of_fuel fuel m needed a (add64 c (size_of m c)) epilogue w (next r) in
    ground (arith, w c r, onward)

-- What is left of a free chunk of size `s`: a part of `needed` bytes, or the whole chunk.
abbrev pub carve : ℕ → ℕ → List Chunk → List Chunk
carve needed s cs =
    if leb 32 (s - needed)
    then chunk needed true ∷ chunk (s - needed) false ∷ cs
    else chunk s true ∷ cs

module _ (m : Memory) (e a ps needed s : ℕ) (cs : List Chunk)
    (t : Tiled m e a true ps (chunk s false ∷ cs)) (big : 32 ≤ needed) (aligned : needed % 16 ≡ 0)
    (room : needed ≤ s) where
  size_known : size_of m a ≡ s
  size_known = omega arith

  split-above : 32 ≤ s - needed → (x : ℕ) → a + s + 8 ≤ x → split m a needed x ≡ m x
  unfolding split
  split-above far x h = ground arith

  take_whole-above : (x : ℕ) → a + s + 16 ≤ x → take_whole m a x ≡ m x
  unfolding take_whole
  take_whole-above x h = ground arith

  take_whole-next :
      take_whole m a (a + s + 8) ≡ size_of m (a + s) + (in_use_bit (flags_of m (a + s)) + 2)
  unfolding take_whole
  take_whole-next = ground arith

  split-Tiled :
      32 ≤ s - needed
      → Tiled (split m a needed) e a true ps (chunk needed true ∷ chunk (s - needed) false ∷ cs)
  unfolding split
  split-Tiled h = (
    ground arith,
    tt,
    big,
    aligned,
    tt,
    (
      ground arith,
      tt,
      h,
      omega arith,
      tt,
      let here : a + needed + (s - needed) ≡ a + s = omega arith in
          rw here (
            Tiled-retag m (split m a needed) e (a + s) false false s (s - needed) cs (ground arith)
              (ground arith) (Tiled-head m e (a + s) s cs t.5)
              (λ x above. split-above h x (omega arith)) t.5),
    ),
  )

  take_whole-Tiled : Tiled (take_whole m a) e a true ps (chunk s true ∷ cs)
  unfolding take_whole
  take_whole-Tiled = (
    ground arith,
    tt,
    t.2,
    t.3,
    tt,
    Tiled-retag m (take_whole m a) e (a + s) false true s s cs
        (omega (arith, take_whole-next, Tiled-flags m e (a + s) s cs t.5)) tt tt take_whole-above
        t.5,
  )

  pub place-Tiled : Tiled (place m a needed) e a true ps (carve needed s cs)
  unfolding place
  place-Tiled = elim (Bool-cases (leb 32 (s - needed))) [
    | inl far ↦ rw (size_known, far) (split-Tiled (leb→le _ _ far))
    | inr near ↦ rw (size_known, near) take_whole-Tiled
  ]

-- The list after a first-fit allocation, and where its chunk lies.
abbrev pub fits : ℕ → Chunk → Bool
fits needed c = not c.used && leb needed c.size

abbrev pub take_first : ℕ → List Chunk → List Chunk
take_first needed [] = []
take_first needed (c ∷ cs) =
    if fits needed c then carve needed c.size cs else c ∷ take_first needed cs

abbrev pub first_at : ℕ → ℕ → List Chunk → Walk
first_at needed a [] = stop
first_at needed a (c ∷ cs) = if fits needed c then fit a else first_at needed (a + c.size) cs

header-size : (s : ℕ) (u p : Bool) → s % 16 ≡ 0 → header s u p - header s u p % 8 ≡ s
header-size s true true h = omega arith
header-size s true false h = omega arith
header-size s false true h = omega arith
header-size s false false h = omega arith

header-used : (s : ℕ) (u p : Bool) → s % 16 ≡ 0 → (header s u p % 8 % 2 == 0) ≡ not u
header-used s true true h = ground arith
header-used s true false h = ground arith
header-used s false true h = ground arith
header-used s false false h = ground arith

-- The walk of the code finds the first chunk of the list that fits.
pub find_fit-eq-first_at :
    (fuel : ℕ) (m : Memory) (needed e a : ℕ) (pu : Bool) (ps : ℕ) (cs : List Chunk)
    → e ≤ a + fuel
    → e < 18446744073709551616
    → Tiled m e a pu ps cs
    → find_fit (suc fuel) m needed a e ≡ first_at needed a cs
unfolding find_fit
find_fit-eq-first_at fuel m needed e a pu ps [] enough low t = ground arith
find_fit-eq-first_at zero m needed e a pu ps (c ∷ cs) enough low t =
    absurd (omega (arith, Tiled-end m e a pu ps (c ∷ cs) t))
find_fit-eq-first_at (suc fuel) m needed e a pu ps (c ∷ cs) enough low t =
    let known : size_of m a ≡ c.size = ap (λ w. w - w % 8) t.0 ∙ header-size c.size c.used pu t.3 in
    let onward : add64 a (size_of m a) ≡ a + c.size =
      omega (arith, Tiled-end m e a pu ps (c ∷ cs) t) in
    rw onward (
      ground (
        arith,
        header-size c.size c.used pu t.3,
        header-used c.size c.used pu t.3,
        Tiled-end m e a pu ps (c ∷ cs) t,
        find_fit-eq-first_at fuel m needed e (a + c.size) c.used c.size cs (omega arith) low t.5,
      ))
