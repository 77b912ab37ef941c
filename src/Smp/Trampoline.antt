-- ===== src/Smp/Trampoline.antt =====
-- A write into the trampoline of src/hal/smp.rs.
pub mod Patches
use planck_os.Prelude.{
  ℕ, zero, suc, ◌+◌, ◌≤◌, ◌<◌, ◌≡◌, refl, ap, ◌∙◌, some, List, [], ◌∷◌, length, arith, get_elem?,
}
use planck_os.Smp.{
  Slots, Offsets, Patch, le_bytes, overwrite, write_at, write_all, find_offsets, private_copy,
  patches, patch,
}

-- The bytes stand in the blob from the offset on.
abbrev pub Holds : List ℕ → ℕ → List ℕ → Type 0
Holds blob off bytes = (j : ℕ) → j < length bytes → get_elem? blob (off + j) ≡ get_elem? bytes j

-- What a successful write leaves, and how long it is.
pub record Written (off : ℕ) (bs blob r : List ℕ) : Type 0 where
  pub long : length r ≡ length blob
  pub inside : (j : ℕ) → j < length bs → get_elem? r (off + j) ≡ get_elem? bs j
  pub before : (k : ℕ) → k < off → get_elem? r k ≡ get_elem? blob k
  pub behind : (k : ℕ) → off + length bs ≤ k → get_elem? r k ≡ get_elem? blob k

at_cong : (xs : List ℕ) (i k : ℕ) → i ≡ k → get_elem? xs i ≡ get_elem? xs k
at_cong xs i k e = ap (get_elem? xs) e

nothing-Written : (blob : List ℕ) → Written 0 [] blob blob
nothing-Written blob = record {
  long = refl;
  inside = λ j h. absurd (omega arith);
  before = λ k h. refl;
  behind = λ k h. refl;
}

first-Written :
    (b c : ℕ) (bs cs r : List ℕ) → Written 0 bs cs r → Written 0 (b ∷ bs) (c ∷ cs) (b ∷ r)
first-Written b c bs cs r w = record {
  long = ap suc w.long;
  inside = λ j h. inside_first j h;
  before = λ k h. absurd (omega arith);
  behind = λ k h. behind_first k h;
}
  where
    inside_first : (j : ℕ) → j < length (b ∷ bs) → get_elem? (b ∷ r) (0 + j) ≡ get_elem? (b ∷ bs) j
    inside_first zero h = refl
    inside_first (suc j) h =
        at_cong (b ∷ r) (0 + suc j) (suc (0 + j)) (omega arith) ∙ w.inside j (omega arith)

    behind_first : (k : ℕ) → 0 + length (b ∷ bs) ≤ k → get_elem? (b ∷ r) k ≡ get_elem? (c ∷ cs) k
    behind_first zero h = absurd (omega arith)
    behind_first (suc k) h = w.behind k (omega arith)

next-Written :
    (off c : ℕ) (bs cs r : List ℕ) → Written off bs cs r → Written (suc off) bs (c ∷ cs) (c ∷ r)
next-Written off c bs cs r w = record {
  long = ap suc w.long;
  inside = λ j h. at_cong (c ∷ r) (suc off + j) (suc (off + j)) (omega arith) ∙ w.inside j h;
  before = λ k h. before_next k h;
  behind = λ k h. behind_next k h;
}
  where
    before_next : (k : ℕ) → k < suc off → get_elem? (c ∷ r) k ≡ get_elem? (c ∷ cs) k
    before_next zero h = refl
    before_next (suc k) h = w.before k (omega arith)

    behind_next : (k : ℕ) → suc off + length bs ≤ k → get_elem? (c ∷ r) k ≡ get_elem? (c ∷ cs) k
    behind_next zero h = absurd (omega arith)
    behind_next (suc k) h = w.behind k (omega arith)

overwrite-Written :
    (bs blob : List ℕ)
    → length bs ≤ length blob
    → (r : List ℕ) × (overwrite bs blob ≡ some r) × Written 0 bs blob r
unfolding overwrite
overwrite-Written [] blob h = (blob, refl, nothing-Written blob)
overwrite-Written (b ∷ bs) [] h = absurd (omega arith)
overwrite-Written (b ∷ bs) (c ∷ cs) h =
    let (r, e, w) = overwrite-Written bs cs (omega arith) in
    (b ∷ r, rw e refl, first-Written b c bs cs r w)

pub write_at-Written :
    (off : ℕ) (bs blob : List ℕ)
    → off + length bs ≤ length blob
    → (r : List ℕ) × (write_at off bs blob ≡ some r) × Written off bs blob r
unfolding write_at
write_at-Written zero bs blob h = overwrite-Written bs blob (omega arith)
write_at-Written (suc off) bs [] h = absurd (omega arith)
write_at-Written (suc off) bs (c ∷ cs) h =
    let (r, e, w) = write_at-Written off bs cs (omega arith) in
    (c ∷ r, rw e refl, next-Written off c bs cs r w)
