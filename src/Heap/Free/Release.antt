-- ===== src/Heap/Free/Release.antt =====
-- Freeing on the list of chunks: the specification of `HeapCore::dealloc` of src/hal/heap.rs.
use planck_os.Prelude.{
  ℕ, ◌+◌, ◌-◌, ◌≤◌, ◌≡◌, refl, ◌∙◌, sym, ap, Bool, true, false, not, ◌&&◌, Option, none, some, List,
  [], ◌∷◌, ◌++◌, arith, leb, ◌==◌, if◌then◌else◌, Bool-cases, inl, inr, leb→le, ==→eq, of_some_eq,
}
use mathlib.Core.Path.{subst₂}
use planck_os.Heap.{Memory}
use planck_os.Heap.Free.Merge.{extra, rest_of}
use planck_os.Heap.Tiles.{Chunk, chunk, Tiled, Tiled-head, head_used, total, last_used}

-- A free chunk put before a list joins a free chunk at its head.
abbrev pub attach : Chunk → List Chunk → List Chunk
attach c [] = c ∷ []
attach c (d ∷ cs) =
    if not c.used && not d.used then chunk (c.size + d.size) false ∷ cs else c ∷ d ∷ cs

abbrev pub attach? : Chunk → Option (List Chunk) → Option (List Chunk)
attach? c none = none
attach? c (some cs) = some (attach c cs)

-- The list with the used chunk at offset `k` freed and joined with its free neighbours.
abbrev pub release : ℕ → List Chunk → Option (List Chunk)
release k [] = none
release k (c ∷ cs) =
    let rest = attach? c (release (k - c.size) cs) in
    if k == 0
    then (if c.used then some (attach (chunk c.size false) cs) else none)
    else if leb c.size k
    then rest
    else none

-- The two ways that a chunk is freed, with the chunks before and after it.
pub data Cut (k : ℕ) (cs cs' : List Chunk) : Type 0 where
  forward :
      (pre post : List Chunk) (t : ℕ)
      → last_used true pre ≡ true
      → k ≡ total pre
      → cs ≡ pre ++ (chunk t true ∷ post)
      → cs' ≡ pre ++ (chunk (t + extra post) false ∷ rest_of post)
      → Cut k cs cs'
  backward :
      (pre post : List Chunk) (s t : ℕ)
      → last_used true pre ≡ true
      → k ≡ total pre + s
      → cs ≡ pre ++ (chunk s false ∷ chunk t true ∷ post)
      → cs' ≡ pre ++ (chunk (t + s + extra post) false ∷ rest_of post)
      → Cut k cs cs'

attach-eq :
    (t : ℕ) (cs : List Chunk) → attach (chunk t false) cs ≡ chunk (t + extra cs) false ∷ rest_of cs
attach-eq t [] = ap (λ n. chunk n false ∷ []) (omega arith)
attach-eq t (c ∷ cs) = ground arith

attach-used : (size : ℕ) (cs : List Chunk) → attach (chunk size true) cs ≡ chunk size true ∷ cs
attach-used size [] = refl
attach-used size (c ∷ cs) = refl

attach-before_used :
    (size : ℕ) (d : Chunk) (cs : List Chunk)
    → d.used ≡ true
    → attach (chunk size false) (d ∷ cs) ≡ chunk size false ∷ d ∷ cs
attach-before_used size d cs h = ground arith

Cut-used :
    (k size : ℕ) (cs cs' : List Chunk)
    → Cut k cs cs'
    → Cut (size + k) (chunk size true ∷ cs) (attach (chunk size true) cs')
Cut-used k size cs cs' (forward pre post t last at before after) =
    forward (chunk size true ∷ pre) post t last (omega arith) (ap (λ l. chunk size true ∷ l) before)
      (attach-used size cs' ∙ ap (λ l. chunk size true ∷ l) after)
Cut-used k size cs cs' (backward pre post s t last at before after) =
    backward (chunk size true ∷ pre) post s t last (omega arith)
      (ap (λ l. chunk size true ∷ l) before)
      (attach-used size cs' ∙ ap (λ l. chunk size true ∷ l) after)

Cut-free :
    (k size : ℕ) (cs cs' : List Chunk)
    → head_used cs ≡ true
    → Cut k cs cs'
    → Cut (size + k) (chunk size false ∷ cs) (attach (chunk size false) cs')
Cut-free k size cs cs' head (forward [] post t last at before after) =
    let joined : size + (t + extra post) ≡ t + size + extra post = omega arith in
    backward [] post size t refl (omega arith) (ap (λ l. chunk size false ∷ l) before)
      (ap (attach (chunk size false)) after ∙ ap (λ n. chunk n false ∷ rest_of post) joined)
Cut-free k size cs cs' head (forward (d ∷ pre) post t last at before after) =
    forward (chunk size false ∷ d ∷ pre) post t last (omega arith)
      (ap (λ l. chunk size false ∷ l) before)
      (ap (attach (chunk size false)) after
        ∙ attach-before_used size d (pre ++ (chunk (t + extra post) false ∷ rest_of post))
            (sym (ap head_used before) ∙ head))
Cut-free k size cs cs' head (backward [] post s t last at before after) = cc (ap head_used before)
Cut-free k size cs cs' head (backward (d ∷ pre) post s t last at before after) =
    backward (chunk size false ∷ d ∷ pre) post s t last (omega arith)
      (ap (λ l. chunk size false ∷ l) before)
      (ap (attach (chunk size false)) after
        ∙ attach-before_used size d (pre ++ (chunk (t + s + extra post) false ∷ rest_of post))
            (sym (ap head_used before) ∙ head))

attach?-some :
    (c : Chunk) (o : Option (List Chunk)) (cs : List Chunk)
    → attach? c o ≡ some cs
    → (ds : List Chunk) × (o ≡ some ds) × (attach c ds ≡ cs)
attach?-some c none cs h = cc
attach?-some c (some ds) cs h = (ds, refl, of_some_eq h)

module _ (m : Memory) (e a : ℕ) (pu : Bool) (ps size : ℕ) (cs : List Chunk)
    (ih : (j : ℕ) (ds : List Chunk) → release j cs ≡ some ds → Cut j cs ds) where
  release-further :
      (k : ℕ) (u : Bool) (cs' : List Chunk)
      → Tiled m e a pu ps (chunk size u ∷ cs)
      → size ≤ k
      → attach? (chunk size u) (release (k - size) cs) ≡ some cs'
      → Cut k (chunk size u ∷ cs) cs'
  release-further k true cs' t h eq =
      let (ds, found, joined) = attach?-some (chunk size true) (release (k - size) cs) cs' eq in
      let sum : size + (k - size) ≡ k = omega arith in
      subst₂ (λ j l. Cut j (chunk size true ∷ cs) l) sum joined
        (Cut-used (k - size) size cs ds (ih (k - size) ds found))
  release-further k false cs' t h eq =
      let (ds, found, joined) = attach?-some (chunk size false) (release (k - size) cs) cs' eq in
      let sum : size + (k - size) ≡ k = omega arith in
      subst₂ (λ j l. Cut j (chunk size false ∷ cs) l) sum joined
        (Cut-free (k - size) size cs ds (Tiled-head m e (a + size) size cs t.5)
          (ih (k - size) ds found))

  release-here :
      (k : ℕ) (u : Bool) (cs' : List Chunk)
      → k ≡ 0
      → (if u then some (attach (chunk size false) cs) else none) ≡ some cs'
      → Cut k (chunk size u ∷ cs) cs'
  release-here k true cs' z eq =
      forward [] cs size refl z refl (sym (of_some_eq eq) ∙ attach-eq size cs)
  release-here k false cs' z eq = cc

  release-cons :
      (k : ℕ) (u : Bool) (cs' : List Chunk)
      → Tiled m e a pu ps (chunk size u ∷ cs)
      → release k (chunk size u ∷ cs) ≡ some cs'
      → Cut k (chunk size u ∷ cs) cs'
  release-cons k u cs' t h = elim (Bool-cases (k == 0)) [
    | inl z ↦ release-here k u cs' (==→eq k 0 z) (rw z at h)
    | inr nz ↦ elim (Bool-cases (leb size k)) [
      | inl far ↦ release-further k u cs' t (leb→le size k far) (rw (nz, far) at h)
      | inr near ↦ cc (rw (nz, near) at h)
    ]
  ]

-- Freeing on the list cuts the list in one of the two ways.
pub release-Cut :
    (m : Memory) (e a : ℕ) (pu : Bool) (ps k : ℕ) (cs cs' : List Chunk)
    → Tiled m e a pu ps cs
    → release k cs ≡ some cs'
    → Cut k cs cs'
release-Cut m e a pu ps k [] cs' t h = cc
release-Cut m e a pu ps k (c ∷ cs) cs' t h =
    release-cons m e a pu ps c.size cs
      (λ j ds. release-Cut m e (a + c.size) c.used c.size j cs ds t.5) k c.used cs' t h
