-- ===== src/Prelude/Slices.antt =====
-- The part of an array from an index on, as a list.
use Prim.Native.Nat.{ℕ, zero, suc, ◌+◌, ◌<◌}
use mathlib.Core.Path.{◌≡◌, refl, ap, ap₂, ◌∙◌}
use mathlib.Core.List.{List, [], ◌∷◌, ◌++◌}
use native.Mathlib.Omega.{arith}
use planck_os.Prelude.Lists.{length}

-- `&buf[from..from + n]`
abbrev pub slice : (ℕ → ℕ) → ℕ → ℕ → List ℕ
slice buf from zero = []
slice buf from (suc n) = buf from ∷ slice buf (from + 1) n

pub slice-cong :
    (f g : ℕ → ℕ) (i k n : ℕ)
    → ((j : ℕ) → j < n → f (i + j) ≡ g (k + j))
    → slice f i n ≡ slice g k n
slice-cong f g i k zero h = refl
slice-cong f g i k (suc n) h =
    let first : f i ≡ g k = ground (arith, h 0 (omega arith)) in
    ap₂ (λ x xs. x ∷ xs) first
      (slice-cong f g (i + 1) (k + 1) n (λ j l. ground (arith, h (suc j) (omega arith))))

pub length-slice : (f : ℕ → ℕ) (i n : ℕ) → length (slice f i n) ≡ n
length-slice f i zero = refl
length-slice f i (suc n) = ap suc (length-slice f (i + 1) n)

pub slice-snoc : (f : ℕ → ℕ) (i n : ℕ) → slice f i (suc n) ≡ slice f i n ++ (f (i + n) ∷ [])
slice-snoc f i zero = ap (λ k. f k ∷ []) (omega arith)
slice-snoc f i (suc n) =
    let next : i + 1 + n ≡ i + suc n = omega arith in
    ap (λ xs. f i ∷ xs) (slice-snoc f (i + 1) n ∙ ap (λ k. slice f (i + 1) n ++ (f k ∷ [])) next)
