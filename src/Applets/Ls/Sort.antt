-- ===== src/Applets/Ls/Sort.antt =====
-- The exchange sort of `list_dir` of src/applets/ls/mod.rs.
use planck_os.Prelude.{
  ℕ, zero, suc, ◌+◌, ◌<◌, ◌≡◌, ◌≢◌, refl, sym, ap, ◌∙◌, Bool, true, false, ◌==◌, List, arith, inl,
  inr, Bool-cases, ==→eq, ==→ne,
}
use mathlib.Core.Path.{subst}
use planck_os.Applets.Ls.{LsFlags, LsEntry, swap_at, sort_row, sort_from, swaps_of, sort_entries}
use planck_os.Applets.Ls.Order.{out_of_order, swap-out_of_order, swap_asym, swap_trans}

-- Every index below `n` stands at some place below `n`.
abbrev pub Covers : ℕ → (ℕ → ℕ) → Type 0
Covers n f = (k : ℕ) → k < n → (p : ℕ) × (p < n) × (f p ≡ k)

swap_at-left : (f : ℕ → ℕ) (i j : ℕ) → swap_at f i j i ≡ f j
swap_at-left f i j = ground arith

swap_at-right : (f : ℕ → ℕ) (i j : ℕ) → swap_at f i j j ≡ f i
swap_at-right f i j = ground arith

swap_at-other : (f : ℕ → ℕ) (i j p : ℕ) → p ≢ i → p ≢ j → swap_at f i j p ≡ f p
swap_at-other f i j p h k = ground arith

swap_at-Covers : (n i j : ℕ) (f : ℕ → ℕ) → i < n → j < n → Covers n f → Covers n (swap_at f i j)
swap_at-Covers n i j f hi hj c k hk =
    let (p, below, eq) = c k hk in
    elim (Bool-cases (p == i)) [
      | inl e ↦ (j, hj, swap_at-right f i j ∙ (ap f (sym (==→eq p i e)) ∙ eq))
      | inr e ↦ elim (Bool-cases (p == j)) [
        | inl d ↦ (i, hi, swap_at-left f i j ∙ (ap f (sym (==→eq p j d)) ∙ eq))
        | inr d ↦ (p, below, swap_at-other f i j p (==→ne p i e) (==→ne p j d) ∙ eq)
      ]
    ]

-- A test that exchanges by a strict order.
module _ (swaps : ℕ → ℕ → Bool) (asym : (a b : ℕ) → swaps a b ≡ true → swaps b a ≡ false)
    (trans : (a b c : ℕ) → swaps a b ≡ true → swaps b c ≡ true → swaps a c ≡ true) where
  -- Before the turn of `j` in the row of `i`, of `n` places: the places before `i` are in order
  -- with all later ones, the place `i` with those up to `j`.
  record Sorting (n i j : ℕ) (f : ℕ → ℕ) : Type 0 where
    before : (a b : ℕ) → a < i → a < b → b < n → swaps (f a) (f b) ≡ false
    row : (b : ℕ) → i < b → b < j → swaps (f i) (f b) ≡ false
    covers : Covers n f

  -- What an exchange puts at a place stood at this place or at the other.
  swap_at-before :
      (n i j a b : ℕ) (f : ℕ → ℕ)
      → i < j
      → j < n
      → Sorting n i j f
      → a < i
      → a < b
      → b < n
      → swaps (f a) (swap_at f i j b) ≡ false
  swap_at-before n i j a b f l h s ha hb hn = elim (Bool-cases (b == j)) [
    | inl e ↦ rw e (s.before a i ha ha (omega arith))
    | inr e ↦ elim (Bool-cases (b == i)) [
      | inl d ↦ rw (e, d) (s.before a j ha (omega arith) h)
      | inr d ↦ rw (e, d) (s.before a b ha hb hn)
    ]
  ]

  row-next : (a b c : ℕ) → swaps a b ≡ true → swaps a c ≡ false → swaps b c ≡ false
  row-next a b c h k = elim (Bool-cases (swaps b c)) [
    | inl e ↦ absurd (cc (trans a b c h e))
    | inr e ↦ e
  ]

  swap_at-row :
      (n i j b : ℕ) (f : ℕ → ℕ)
      → i < j
      → Sorting n i j f
      → swaps (f i) (f j) ≡ true
      → i < b
      → b < suc j
      → swaps (f j) (swap_at f i j b) ≡ false
  swap_at-row n i j b f l s e hb hj = elim (Bool-cases (b == j)) [
    | inl d ↦ rw d (asym (f i) (f j) e)
    | inr d ↦
        let other : (b == i) ≡ false = ground arith in
        rw (d, other) (row-next (f i) (f j) (f b) e (s.row b hb (ground arith)))
  ]

  swap_at-Sorting :
      (n i j : ℕ) (f : ℕ → ℕ)
      → i < j
      → j < n
      → Sorting n i j f
      → swaps (f i) (f j) ≡ true
      → Sorting n i (j + 1) (swap_at f i j)
  swap_at-Sorting n i j f l h s e = record {
    before = λ a b ha hb hn.
        rw (swap_at-other f i j a (omega arith) (omega arith))
          (swap_at-before n i j a b f l h s ha hb hn);
    row = λ b hb hj. rw (swap_at-left f i j) (swap_at-row n i j b f l s e hb (omega arith));
    covers = swap_at-Covers n i j f (omega arith) h s.covers;
  }

  stay-Sorting :
      (n i j : ℕ) (f : ℕ → ℕ) → Sorting n i j f → swaps (f i) (f j) ≡ false → Sorting n i (j + 1) f
  stay-Sorting n i j f s e = record {
    before = s.before;
    row = λ b hb hj. elim (Bool-cases (b == j)) [
      | inl d ↦ rw (==→eq b j d) e
      | inr d ↦ s.row b hb (ground arith)
    ];
    covers = s.covers;
  }

  row_end-Sorting :
      (n i j : ℕ) (f : ℕ → ℕ) → j ≡ n → Sorting n i j f → Sorting n (i + 1) (i + 1 + 1) f
  row_end-Sorting n i j f e s = record {
    before = λ a b ha hb hn. elim (Bool-cases (a == i)) [
      | inl d ↦ rw (==→eq a i d) (s.row b (ground arith) (omega arith))
      | inr d ↦ s.before a b (ground arith) hb hn
    ];
    row = λ b hb hj. absurd (omega arith);
    covers = s.covers;
  }

  sort_row-Sorting :
      (n i left j : ℕ) (f : ℕ → ℕ)
      → i < j
      → j + left ≡ n
      → Sorting n i j f
      → Sorting n (i + 1) (i + 1 + 1) (sort_row swaps left j i f)
  unfolding sort_row
  sort_row-Sorting n i zero j f l h s = row_end-Sorting n i j f (omega arith) s
  sort_row-Sorting n i (suc left) j f l h s = elim (Bool-cases (swaps (f i) (f j))) [
    | inl e ↦ rw e (
        sort_row-Sorting n i left (j + 1) (swap_at f i j) (omega arith) (omega arith)
          (swap_at-Sorting n i j f l (omega arith) s e))
    | inr e ↦
        rw e (
          sort_row-Sorting n i left (j + 1) f (omega arith) (omega arith)
            (stay-Sorting n i j f s e))
  ]

  sort_from-Sorting :
      (n left i : ℕ) (f : ℕ → ℕ)
      → i + left ≡ n
      → Sorting n i (i + 1) f
      → Sorting n n (n + 1) (sort_from swaps left i f)
  unfolding sort_from
  sort_from-Sorting n zero i f h s =
      let here : i ≡ n = omega arith in subst (λ k. Sorting n k (k + 1) f) here s
  sort_from-Sorting n (suc left) i f h s =
      sort_from-Sorting n left (i + 1) (sort_row swaps left (i + 1) i f) (omega arith)
        (sort_row-Sorting n i left (i + 1) f (omega arith) (omega arith) s)

  start-Sorting : (n : ℕ) → Sorting n 0 1 (λ i. i)
  start-Sorting n = record {
    before = λ a b ha hb hn. absurd (omega arith);
    row = λ b hb hj. absurd (omega arith);
    covers = λ k h. (k, h, refl);
  }

-- When `ls` has sorted its entries, every entry stands at one of the places that are printed, and
-- no entry stands before another that the options want before it: with `-S` the sizes do not fall,
-- with `-S` and `-r` they do not rise; otherwise the names, as texts without the NULs at their end,
-- do not rise in the lexicographic order, and with `-r` they do not fall.
pub sort_entries-sorted :
    (utf8 : List ℕ → Bool) (flags : LsFlags) (entries : ℕ → LsEntry) (count k a b : ℕ)
    → k < count
    → a < b
    → b < count
    → ((p : ℕ) × (p < count) × (sort_entries utf8 flags entries count p ≡ k))
      × (out_of_order utf8 flags
            (entries (sort_entries utf8 flags entries count a))
            (entries (sort_entries utf8 flags entries count b))
          ≡ false)
unfolding sort_entries
sort_entries-sorted utf8 flags entries count k a b hk ha hb =
    let asym = λ (i j : ℕ). swap_asym utf8 flags (entries i) (entries j) in
    let trans = λ (i j l : ℕ). swap_trans utf8 flags (entries i) (entries j) (entries l) in
    let swaps = swaps_of utf8 flags entries in
    let r = sort_entries utf8 flags entries count in
    let s =
      sort_from-Sorting swaps asym trans count count 0 (λ i. i) (omega arith)
        (start-Sorting swaps asym trans count) in
    (
      s.covers k hk,
      sym (swap-out_of_order utf8 flags (entries (r a)) (entries (r b)))
          ∙ s.before a b (omega arith) ha hb,
    )
