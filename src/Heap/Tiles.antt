-- ===== src/Heap/Tiles.antt =====
-- The chunks of a segment as a list, and how such a tiling survives writes to the memory.
-- It is the view of a heap of src/hal/heap.rs that the theorems of this folder speak of.
use planck_os.Prelude.{
  ℕ, ◌+◌, ◌-◌, ◌*◌, ◌%◌, ◌≤◌, ◌<◌, ◌≡◌, refl, ap, ◌∙◌, Bool, true, false, List, [], ◌∷◌, ◌++◌,
  arith,
}
use planck_os.Heap.{Memory}
use mathlib.Core.Path.{subst}
use native.Mathlib.Nat.{add-zero}

pub record Chunk : Type 0 where
  pub size : ℕ
  pub used : Bool

abbrev pub chunk : ℕ → Bool → Chunk
chunk n b = record { size = n; used = b }

abbrev pub bit : Bool → ℕ
bit true = 1
bit false = 0

-- The word at offset 8: size, IN_USE, PREV_IN_USE.
abbrev pub header : ℕ → Bool → Bool → ℕ
header size used prev_used = size + bit used + 2 * bit prev_used

-- After a free chunk stands its size; after a used one, its payload's last bytes.
abbrev pub Footer : Bool → ℕ → ℕ → Type 0
Footer true w size = Unit {0}
Footer false w size = w ≡ size

-- Two free chunks do not touch.
abbrev pub Apart : Bool → Bool → Type 0
Apart true used = Unit {0}
Apart false used = used ≡ true

abbrev pub head_used : List Chunk → Bool
head_used [] = true
head_used (c ∷ cs) = c.used

-- The chunks `cs` lie one after the other from `a` to the epilogue at `e`.
abbrev pub Tiled : Memory → ℕ → ℕ → Bool → ℕ → List Chunk → Type 0
Tiled m e a pu ps [] = (a ≡ e) × (m (a + 8) ≡ header 16 true pu) × Footer pu (m a) ps
Tiled m e a pu ps (c ∷ cs) =
    (m (a + 8) ≡ header c.size c.used pu)
    × Footer pu (m a) ps
    × (32 ≤ c.size)
    × (c.size % 16 ≡ 0)
    × Apart pu c.used
    × Tiled m e (a + c.size) c.used c.size cs

abbrev pub total : List Chunk → ℕ
total [] = 0
total (c ∷ cs) = c.size + total cs

abbrev pub free_total : List Chunk → ℕ
free_total [] = 0
free_total (c ∷ cs) = (1 - bit c.used) * c.size + free_total cs

abbrev pub used_count : List Chunk → ℕ
used_count [] = 0
used_count (c ∷ cs) = bit c.used + used_count cs

abbrev pub last_used : Bool → List Chunk → Bool
last_used b [] = b
last_used b (c ∷ cs) = last_used c.used cs

pub Tiled-end :
    (m : Memory) (e a : ℕ) (pu : Bool) (ps : ℕ) (cs : List Chunk)
    → Tiled m e a pu ps cs
    → a + total cs ≡ e
Tiled-end m e a pu ps [] t = omega arith
Tiled-end m e a pu ps (c ∷ cs) t = omega (arith, Tiled-end m e (a + c.size) c.used c.size cs t.5)

pub Tiled-head :
    (m : Memory) (e a : ℕ) (ps : ℕ) (cs : List Chunk)
    → Tiled m e a false ps cs
    → head_used cs ≡ true
Tiled-head m e a ps [] t = refl
Tiled-head m e a ps (c ∷ cs) t = t.4

-- After a free chunk the flags are IN_USE alone.
pub Tiled-flags :
    (m : Memory) (e a ps : ℕ) (cs : List Chunk) → Tiled m e a false ps cs → m (a + 8) % 8 ≡ 1
Tiled-flags m e a ps [] t = omega arith
Tiled-flags m e a ps (c ∷ cs) t = omega (arith, ap bit t.4)

Footer-eq : (pu : Bool) (w w' ps : ℕ) → w' ≡ w → Footer pu w ps → Footer pu w' ps
Footer-eq true w w' ps h f = tt
Footer-eq false w w' ps h f = h ∙ f

-- A tiling survives every change outside its own words.
pub Tiled-frame :
    (m m' : Memory) (e a : ℕ) (pu : Bool) (ps : ℕ) (cs : List Chunk)
    → ((x : ℕ) → a ≤ x → m' x ≡ m x)
    → Tiled m e a pu ps cs
    → Tiled m' e a pu ps cs
Tiled-frame m m' e a pu ps [] same t =
    (t.0, same (a + 8) (omega arith) ∙ t.1, Footer-eq pu (m a) (m' a) ps (same a (omega arith)) t.2)
Tiled-frame m m' e a pu ps (c ∷ cs) same t = (
  same (a + 8) (omega arith) ∙ t.0,
  Footer-eq pu (m a) (m' a) ps (same a (omega arith)) t.1,
  t.2,
  t.3,
  t.4,
  Tiled-frame m m' e (a + c.size) c.used c.size cs (λ x h. same x (omega arith)) t.5,
)

-- The first header's PREV_IN_USE and the footer before it may change together.
pub Tiled-retag :
    (m m' : Memory) (e a : ℕ) (pu pu' : Bool) (ps ps' : ℕ) (cs : List Chunk)
    → m' (a + 8) + 2 * bit pu ≡ m (a + 8) + 2 * bit pu'
    → Footer pu' (m' a) ps'
    → Apart pu' (head_used cs)
    → ((x : ℕ) → a + 16 ≤ x → m' x ≡ m x)
    → Tiled m e a pu ps cs
    → Tiled m' e a pu' ps' cs
Tiled-retag m m' e a pu pu' ps ps' [] h f ap same t = (t.0, omega arith, f)
Tiled-retag m m' e a pu pu' ps ps' (c ∷ cs) h f ap same t = (
  omega arith,
  f,
  t.2,
  t.3,
  ap,
  Tiled-frame m m' e (a + c.size) c.used c.size cs (λ x h. same x (omega arith)) t.5,
)

-- A change from `a + total pre` on is a change of the chunks from there on.
pub Tiled-suffix :
    (m m' : Memory) (e a : ℕ) (pu : Bool) (ps : ℕ) (pre ys xs : List Chunk) (b : ℕ)
    → b ≡ a + total pre
    → ((x : ℕ) → x < b → m' x ≡ m x)
    → ((q : ℕ) → Tiled m e b (last_used pu pre) q ys → Tiled m' e b (last_used pu pre) q xs)
    → Tiled m e a pu ps (pre ++ ys)
    → Tiled m' e a pu ps (pre ++ xs)
Tiled-suffix m m' e a pu ps [] ys xs b eq below step t =
    subst (λ z. Tiled m e z pu ps ys → Tiled m' e z pu ps xs) (eq ∙ add-zero a) (step ps) t
Tiled-suffix m m' e a pu ps (c ∷ cs) ys xs b eq below step t = (
  below (a + 8) (omega arith) ∙ t.0,
  Footer-eq pu (m a) (m' a) ps (below a (omega arith)) t.1,
  t.2,
  t.3,
  t.4,
  Tiled-suffix m m' e (a + c.size) c.used c.size cs ys xs b (omega arith) below step t.5,
)
