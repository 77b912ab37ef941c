-- ===== src/Shell/Words.antt =====
-- The arguments of a command in src/shell/mod.rs, against the words between spaces.
use planck_os.Prelude.{
  ℕ, zero, suc, ◌+◌, ◌≤◌, ◌<◌, ◌≡◌, refl, sym, ap, ◌∙◌, Bool, false, not, ◌&&◌, Option, none, some,
  ◌==◌, ltb, if◌then◌else◌, List, [], ◌∷◌, ◌++◌, length, take, arith, inl, inr, Bool-cases, ltb→lt,
  le_of_ltb, length-append, length-drop, drop,
}
use native.Mathlib.Numerals.{add-one}
use mathlib.Core.List.{append_assoc, append-nil}
use planck_os.Shell.{find_space, add_arg, split_args}

-- The pieces of a line between its spaces.
abbrev pub glue : ℕ → List (List ℕ) → List (List ℕ)
glue c [] = (c ∷ []) ∷ []
glue c (w ∷ ws) = (c ∷ w) ∷ ws

abbrev pub pieces : List ℕ → List (List ℕ)
pieces [] = [] ∷ []
pieces (c ∷ cs) = let rest = pieces cs in if c == b' ' then [] ∷ rest else glue c rest

-- Those that are valid UTF-8 and not empty.
abbrev pub keep : (List ℕ → Bool) → List (List ℕ) → List (List ℕ)
keep utf8 [] = []
keep utf8 (w ∷ ws) =
    let rest = keep utf8 ws in if utf8 w && not (length w == 0) then w ∷ rest else rest

find_space-add :
    (i : ℕ) (cs : List ℕ)
    → find_space (i + 1) cs ≡ elim (find_space i cs) [ none ↦ none | some k ↦ some (suc k) ]
unfolding find_space
find_space-add i [] = refl
find_space-add i (c ∷ cs) = elim (Bool-cases (c == b' ')) [
  | inl e ↦ rw (e, add-one) refl
  | inr e ↦ rw e (find_space-add (i + 1) cs)
]

-- The pieces before and after the first space.
abbrev First : List ℕ → Option ℕ → Type 0
First cs none = pieces cs ≡ cs ∷ []
First cs (some k) = (pieces cs ≡ take k cs ∷ pieces (drop (suc k) cs)) × (k < length cs)

First-cons :
    (c : ℕ) (cs : List ℕ) (o : Option ℕ)
    → (c == b' ') ≡ false
    → First cs o
    → First (c ∷ cs) (elim o [ none ↦ none | some k ↦ some (suc k) ])
First-cons c cs none e h = rw (e, h) refl
First-cons c cs (some k) e (h, l) = (rw (e, h) refl, omega arith)

find_space-First : (cs : List ℕ) → First cs (find_space 0 cs)
unfolding find_space
find_space-First [] = refl
find_space-First (c ∷ cs) = elim (Bool-cases (c == b' ')) [
  | inl e ↦ rw e (rw e refl, omega arith)
  | inr e ↦ rw (e, find_space-add 0 cs) (First-cons c cs (find_space 0 cs) e (find_space-First cs))
]

length-drop_lt : (k : ℕ) (cs : List ℕ) → k < length cs → length (drop (suc k) cs) < length cs
length-drop_lt k cs h = omega (arith, length-drop {0} (suc k) cs)

take-append_full {ℓ} :
    {A : Type ℓ} (n : ℕ) (xs ys : List A) → n ≤ length xs → take n (xs ++ ys) ≡ take n xs
take-append_full zero xs ys h = refl
take-append_full (suc n) [] ys h = absurd (omega arith)
take-append_full (suc n) (x ∷ xs) ys h = ap (λ zs. x ∷ zs) (take-append_full n xs ys (omega arith))

take-all {ℓ} : {A : Type ℓ} (n : ℕ) (xs : List A) → length xs ≤ n → take n xs ≡ xs
take-all zero [] h = refl
take-all zero (x ∷ xs) h = absurd (omega arith)
take-all (suc n) [] h = refl
take-all (suc n) (x ∷ xs) h = ap (λ zs. x ∷ zs) (take-all n xs (omega arith))

-- One word more, at the end of at most 16.
add_arg-take :
    (utf8 : List ℕ → Bool) (w : List ℕ) (ws args : List (List ℕ))
    → length args ≤ 16
    → (length (add_arg utf8 w args) ≤ 16)
      × (take 16 (add_arg utf8 w args ++ keep utf8 ws) ≡ take 16 (args ++ keep utf8 (w ∷ ws)))
add_arg-take utf8 w ws args h = elim (Bool-cases (utf8 w)) [
  | inr e ↦ rw e (h, refl)
  | inl e ↦ elim (Bool-cases (length w == 0)) [
    | inl f ↦ rw (e, f) (h, refl)
    | inr f ↦ elim (Bool-cases (ltb (length args) 16)) [
      | inl g ↦
          rw (e, f, g)
            (
              omega (arith, length-append {0} args (w ∷ []), ltb→lt (length args) 16 g),
              ap (take 16) (append_assoc args (w ∷ []) (keep utf8 ws)),
            )
      | inr g ↦
          rw (e, f, g)
            (
              h,
              take-append_full 16 args (keep utf8 ws) (le_of_ltb (length args) 16 g)
                  ∙ sym
                      (take-append_full 16 args (w ∷ keep utf8 ws) (le_of_ltb (length args) 16 g)),
            )
    ]
  ]
]

-- One round of the loop, by what it finds.
round :
    (utf8 : List ℕ → Bool) (cs : List ℕ) (args : List (List ℕ)) (o : Option ℕ)
    (next : List ℕ → List (List ℕ) → Option (List (List ℕ)))
    → length args ≤ 16
    → First cs o
    → ((k : ℕ) (args' : List (List ℕ))
        → k < length cs
        → length args' ≤ 16
        → next (drop (suc k) cs) args'
          ≡ some (take 16 (args' ++ keep utf8 (pieces (drop (suc k) cs)))))
    → elim o [
      | none ↦ some (add_arg utf8 cs args)
      | some space ↦ next (drop (space + 1) cs) (add_arg utf8 (take space cs) args)
    ]
      ≡ some (take 16 (args ++ keep utf8 (pieces cs)))
round utf8 cs args none next h first rest =
    let (small, same) = add_arg-take utf8 cs [] args h in
    rw first (
      ap some (
        sym (take-all 16 (add_arg utf8 cs args) small)
        ∙ ap (take 16) (sym (append-nil (add_arg utf8 cs args)))
        ∙ same))
round utf8 cs args (some k) next h (first, l) rest =
    let w = take k cs in
    let (small, same) = add_arg-take utf8 w (pieces (drop (suc k) cs)) args h in
    ap (λ n. next (drop n cs) (add_arg utf8 w args)) (add-one k)
    ∙ rest k (add_arg utf8 w args) l small
    ∙ ap some same
    ∙ ap (λ ps. some (take 16 (args ++ keep utf8 ps))) (sym first)

split_args-pieces :
    (fuel : ℕ) (utf8 : List ℕ → Bool) (cs : List ℕ) (args : List (List ℕ))
    → length cs < fuel
    → length args ≤ 16
    → split_args fuel utf8 cs args ≡ some (take 16 (args ++ keep utf8 (pieces cs)))
unfolding split_args
split_args-pieces zero utf8 cs args f h = absurd (omega arith)
split_args-pieces (suc fuel) utf8 [] args f h =
    let all : args ≡ take 16 (args ++ []) =
      sym (take-all 16 args h) ∙ ap (take 16) (sym (append-nil args)) in
    elim (Bool-cases (utf8 [])) [ inl e ↦ rw e (ap some all) | inr e ↦ rw e (ap some all) ]
split_args-pieces (suc fuel) utf8 (c ∷ cs) args f h =
    round utf8 (c ∷ cs) args (find_space 0 (c ∷ cs)) (split_args fuel utf8) h
      (find_space-First (c ∷ cs))
      (λ k args' l small.
        split_args-pieces fuel utf8 (drop (suc k) (c ∷ cs)) args'
          (omega (arith, length-drop_lt k (c ∷ cs) l)) small)

-- With more rounds than the line has bytes, the loop over the rest of a line ends. It gives the
-- first sixteen of the pieces between spaces that are not empty and valid UTF-8, in their order.
pub split_args-keep :
    (fuel : ℕ) (utf8 : List ℕ → Bool) (cs : List ℕ)
    → length cs < fuel
    → split_args fuel utf8 cs [] ≡ some (take 16 (keep utf8 (pieces cs)))
split_args-keep fuel utf8 cs f = split_args-pieces fuel utf8 cs [] f (omega arith)
