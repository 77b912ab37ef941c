-- ===== src/Fat/Directory/Names.antt =====
-- How a name in a path is compared with an entry's name in src/hal/fat32.rs.
use planck_os.Prelude.{
  ℕ, zero, suc, ◌+◌, true, ◌≡◌, refl, ap, List, [], ◌∷◌, ◌++◌, length, get_or, ◌<◌, arith, eq→==,
}
use mathlib.Core.Path.{subst}
use planck_os.Fat.Directory.{name_matches, to_lower}

no_more : (i : ℕ) → i + 0 ≡ i
no_more i = omega arith

none_first : (j : ℕ) → j ≡ 0 + j
none_first j = omega arith

one_on : (i j : ℕ) → i + suc j ≡ i + 1 + j
one_on i j = omega arith

-- The comparison asks only that the target's bytes are, up to case, those of the name from `i` on.
matches_from :
    (name : List ℕ) (i : ℕ) (target : List ℕ)
    → ((j : ℕ)
        → j < length target
        → to_lower (get_or name (i + j) 0) ≡ to_lower (get_or target j 0))
    → name_matches name i target ≡ true
unfolding name_matches
matches_from name i [] h = refl
matches_from name i (c ∷ cs) h =
    let first : to_lower (get_or name i 0) ≡ to_lower c =
      subst (λ m. to_lower (get_or name m 0) ≡ to_lower c) (no_more i) (h 0 (omega arith)) in
    rw (eq→== (to_lower (get_or name i 0)) (to_lower c) first) (
      matches_from name (i + 1) cs (λ j l.
        subst (λ m. to_lower (get_or name m 0) ≡ to_lower (get_or cs j 0)) (one_on i j)
          (h (suc j) (omega arith))))

get_or-append : (xs ys : List ℕ) (j : ℕ) → j < length xs → get_or (xs ++ ys) j 0 ≡ get_or xs j 0
get_or-append [] ys j h = ground arith
get_or-append (x ∷ xs) ys zero h = refl
get_or-append (x ∷ xs) ys (suc j) h = get_or-append xs ys j (omega arith)

-- A target that is a beginning of an entry's name is taken for the whole name, whatever follows it
-- in the entry.
pub name_matches-append : (target rest : List ℕ) → name_matches (target ++ rest) 0 target ≡ true
name_matches-append target rest = matches_from (target ++ rest) 0 target (λ j h. ap to_lower (
    subst (λ m. get_or (target ++ rest) m 0 ≡ get_or target j 0) (none_first j)
      (get_or-append target rest j h)))
