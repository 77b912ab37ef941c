-- ===== src/Applets/Ls/Order.antt =====
-- The order in which `list_dir` of src/applets/ls/mod.rs prints the entries.
use planck_os.Prelude.{
  ℕ, suc, ◌≡◌, refl, sym, ap, ◌∙◌, Bool, true, false, Option, none, some, ◌==◌, ltb, if◌then◌else◌,
  List, [], ◌∷◌, length, arith, inl, inr, Bool-cases,
}
use Prim.Native.Nat.{compare}
use planck_os.Applets.Ls.{
  LsFlags, LsEntry, first_difference, cmp, ordering_or, is_lt, is_gt, sort_key, swap,
}

-- The lexicographic order on texts.
abbrev pub precedes : List ℕ → List ℕ → Bool
precedes [] [] = false
precedes [] (y ∷ ys) = true
precedes (x ∷ xs) [] = false
precedes (x ∷ xs) (y ∷ ys) = let rest = precedes xs ys in if x == y then rest else ltb x y

is_lt-longer :
    (o : Option (ℕ × ℕ)) (m n : ℕ)
    → is_lt (ordering_or o (compare (suc m) (suc n))) ≡ is_lt (ordering_or o (compare m n))
is_lt-longer none m n = ground arith
is_lt-longer (some (x, y)) m n = refl

is_gt-longer :
    (o : Option (ℕ × ℕ)) (m n : ℕ)
    → is_gt (ordering_or o (compare (suc m) (suc n))) ≡ is_gt (ordering_or o (compare m n))
is_gt-longer none m n = ground arith
is_gt-longer (some (x, y)) m n = refl

first_difference-same :
    (x y : ℕ) (xs ys : List ℕ)
    → (x == y) ≡ true
    → first_difference (x ∷ xs) (y ∷ ys) ≡ first_difference xs ys
unfolding first_difference
first_difference-same x y xs ys e = rw e refl

first_difference-other :
    (x y : ℕ) (xs ys : List ℕ) → (x == y) ≡ false → first_difference (x ∷ xs) (y ∷ ys) ≡ some (x, y)
unfolding first_difference
first_difference-other x y xs ys e = rw e refl

cmp-difference :
    (xs ys : List ℕ) (o : Option (ℕ × ℕ))
    → first_difference xs ys ≡ o
    → cmp xs ys ≡ ordering_or o (compare (length xs) (length ys))
unfolding cmp
cmp-difference xs ys o e = ap (λ d. ordering_or d (compare (length xs) (length ys))) e

first_difference-nil : (xs : List ℕ) → first_difference xs [] ≡ none
unfolding first_difference
first_difference-nil [] = refl
first_difference-nil (x ∷ xs) = refl

nil-first_difference : (xs : List ℕ) → first_difference [] xs ≡ none
unfolding first_difference
nil-first_difference xs = refl

is_lt-cmp : (xs ys : List ℕ) → is_lt (cmp xs ys) ≡ precedes xs ys
is_lt-cmp [] [] = rw (cmp-difference [] [] none (nil-first_difference [])) refl
is_lt-cmp [] (y ∷ ys) =
    rw (cmp-difference [] (y ∷ ys) none (nil-first_difference (y ∷ ys))) (ground arith)
is_lt-cmp (x ∷ xs) [] =
    rw (cmp-difference (x ∷ xs) [] none (first_difference-nil (x ∷ xs))) (ground arith)
is_lt-cmp (x ∷ xs) (y ∷ ys) = elim (Bool-cases (x == y)) [
  | inl e ↦
      rw
        (
          cmp-difference (x ∷ xs) (y ∷ ys) (first_difference xs ys)
              (first_difference-same x y xs ys e),
          e,
        )
        (is_lt-longer (first_difference xs ys) (length xs) (length ys)
          ∙ (ap is_lt (sym (cmp-difference xs ys (first_difference xs ys) refl)) ∙ is_lt-cmp xs ys))
  | inr e ↦
      rw (cmp-difference (x ∷ xs) (y ∷ ys) (some (x, y)) (first_difference-other x y xs ys e), e)
        refl
]

is_gt-cmp : (xs ys : List ℕ) → is_gt (cmp xs ys) ≡ precedes ys xs
is_gt-cmp [] [] = rw (cmp-difference [] [] none (nil-first_difference [])) refl
is_gt-cmp [] (y ∷ ys) =
    rw (cmp-difference [] (y ∷ ys) none (nil-first_difference (y ∷ ys))) (ground arith)
is_gt-cmp (x ∷ xs) [] =
    rw (cmp-difference (x ∷ xs) [] none (first_difference-nil (x ∷ xs))) (ground arith)
is_gt-cmp (x ∷ xs) (y ∷ ys) = elim (Bool-cases (x == y)) [
  | inl e ↦
      let back : (y == x) ≡ true = ground arith in
      rw
        (
          cmp-difference (x ∷ xs) (y ∷ ys) (first_difference xs ys)
              (first_difference-same x y xs ys e),
          back,
        )
        (is_gt-longer (first_difference xs ys) (length xs) (length ys)
          ∙ (ap is_gt (sym (cmp-difference xs ys (first_difference xs ys) refl)) ∙ is_gt-cmp xs ys))
  | inr e ↦
      let back : (y == x) ≡ false = ground arith in
      rw (cmp-difference (x ∷ xs) (y ∷ ys) (some (x, y)) (first_difference-other x y xs ys e), back)
        (ground arith)
]

pub precedes_trans :
    (xs ys zs : List ℕ) → precedes xs ys ≡ true → precedes ys zs ≡ true → precedes xs zs ≡ true
precedes_trans [] [] zs h k = absurd (cc h)
precedes_trans [] (y ∷ ys) [] h k = absurd (cc k)
precedes_trans [] (y ∷ ys) (z ∷ zs) h k = refl
precedes_trans (x ∷ xs) [] zs h k = absurd (cc h)
precedes_trans (x ∷ xs) (y ∷ ys) [] h k = absurd (cc k)
precedes_trans (x ∷ xs) (y ∷ ys) (z ∷ zs) h k = ground (arith, precedes_trans xs ys zs)

pub precedes_asym : (xs ys : List ℕ) → precedes xs ys ≡ true → precedes ys xs ≡ false
precedes_asym [] [] h = absurd (cc h)
precedes_asym [] (y ∷ ys) h = refl
precedes_asym (x ∷ xs) [] h = absurd (cc h)
precedes_asym (x ∷ xs) (y ∷ ys) h = ground (arith, precedes_asym xs ys)

-- What may not stand before what, by the two options on the order: entries of sizes `m` and `n` and
-- of names `xs` and `ys`.
abbrev pub unwanted : Bool → Bool → ℕ → ℕ → List ℕ → List ℕ → Bool
unwanted true true m n xs ys = ltb m n
unwanted true false m n xs ys = ltb n m
unwanted false true m n xs ys = precedes ys xs
unwanted false false m n xs ys = precedes xs ys

abbrev pub out_of_order : (List ℕ → Bool) → LsFlags → LsEntry → LsEntry → Bool
out_of_order utf8 flags a b =
    unwanted flags.sort_size flags.reverse a.size b.size (sort_key utf8 a) (sort_key utf8 b)

unwanted_asym :
    (s r : Bool) (m n : ℕ) (xs ys : List ℕ)
    → unwanted s r m n xs ys ≡ true
    → unwanted s r n m ys xs ≡ false
unwanted_asym true true m n xs ys h = ground arith
unwanted_asym true false m n xs ys h = ground arith
unwanted_asym false true m n xs ys h = precedes_asym ys xs h
unwanted_asym false false m n xs ys h = precedes_asym xs ys h

unwanted_trans :
    (s r : Bool) (m n k : ℕ) (xs ys zs : List ℕ)
    → unwanted s r m n xs ys ≡ true
    → unwanted s r n k ys zs ≡ true
    → unwanted s r m k xs zs ≡ true
unwanted_trans true true m n k xs ys zs g h = ground arith
unwanted_trans true false m n k xs ys zs g h = ground arith
unwanted_trans false true m n k xs ys zs g h = precedes_trans zs ys xs h g
unwanted_trans false false m n k xs ys zs g h = precedes_trans xs ys zs g h

swap-unwanted :
    (s r : Bool) (m n : ℕ) (xs ys : List ℕ)
    → (if s
        then (if r then ltb m n else ltb n m)
        else if r
        then is_gt (cmp xs ys)
        else is_lt (cmp xs ys))
      ≡ unwanted s r m n xs ys
swap-unwanted true true m n xs ys = refl
swap-unwanted true false m n xs ys = refl
swap-unwanted false true m n xs ys = is_gt-cmp xs ys
swap-unwanted false false m n xs ys = is_lt-cmp xs ys

module _ (utf8 : List ℕ → Bool) (flags : LsFlags) where
  pub swap-out_of_order : (a b : LsEntry) → swap utf8 flags a b ≡ out_of_order utf8 flags a b
  swap-out_of_order a b =
      swap-unwanted flags.sort_size flags.reverse a.size b.size (sort_key utf8 a) (sort_key utf8 b)

  pub swap_asym : (a b : LsEntry) → swap utf8 flags a b ≡ true → swap utf8 flags b a ≡ false
  swap_asym a b h =
      swap-out_of_order b a
      ∙ unwanted_asym flags.sort_size flags.reverse a.size b.size (sort_key utf8 a)
          (sort_key utf8 b) (sym (swap-out_of_order a b) ∙ h)

  pub swap_trans :
      (a b c : LsEntry)
      → swap utf8 flags a b ≡ true
      → swap utf8 flags b c ≡ true
      → swap utf8 flags a c ≡ true
  swap_trans a b c g h =
      swap-out_of_order a c
      ∙ unwanted_trans flags.sort_size flags.reverse a.size b.size c.size (sort_key utf8 a)
          (sort_key utf8 b) (sort_key utf8 c) (sym (swap-out_of_order a b) ∙ g)
          (sym (swap-out_of_order b c) ∙ h)
