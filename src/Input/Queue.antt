-- ===== src/Input/Queue.antt =====
-- The ring buffer of src/hal/input.rs as a queue of at most 255 characters.
use planck_os.Prelude.{
  ℕ, zero, suc, ◌+◌, ◌-◌, ◌%◌, Option, none, some, ◌==◌, ltb, ◌≡◌, refl, ap, ap₂, ◌∙◌,
  if◌then◌else◌, update, List, [], ◌∷◌, ◌++◌, length, ◌<◌, ◌≢◌, arith, update_self, update_ne,
  ==→eq, ==→ne, ltb_of_le, lt→ltb, Bool-cases, inl, inr,
}
use planck_os.Input.{RingBuf, push_char, getchar}

-- `n` characters from the slot `t` on.
unfoldable pub collect : ℕ → (ℕ → ℕ) → ℕ → List ℕ
collect zero buf t = []
collect (suc n) buf t = buf t ∷ collect n buf ((t + 1) % 256)

abbrev pub used : RingBuf → ℕ
used r = (r.head + 256 - r.tail) % 256

abbrev pub contents : RingBuf → List ℕ
contents r = collect (used r) r.buf r.tail

abbrev pub IsRing : RingBuf → Type 0
IsRing r = (r.head < 256) × (r.tail < 256)

length-collect : (n : ℕ) (buf : ℕ → ℕ) (t : ℕ) → length (collect n buf t) ≡ n
unfolding collect
length-collect zero buf t = refl
length-collect (suc n) buf t = ap suc (length-collect n buf ((t + 1) % 256))

-- A character written behind the last of `n` is the one that `n + 1` end with.
collect-update :
    (n : ℕ) (buf : ℕ → ℕ) (t h c : ℕ)
    → t < 256
    → n < 256
    → (t + n) % 256 ≡ h
    → collect (suc n) (update buf h c) t ≡ collect n buf t ++ (c ∷ [])
unfolding collect
collect-update zero buf t h c b l e =
    let same : t ≡ h = omega arith in ap (λ x. x ∷ []) (rw same (update_self buf h c))
collect-update (suc n) buf t h c b l e =
    ap₂ (λ x xs. x ∷ xs) (update_ne buf h t c (omega arith))
      (collect-update n buf ((t + 1) % 256) h c (omega arith) (omega arith) (omega arith))

-- The numbers of a buffer with one character more.
used-push : (c : ℕ) (r : RingBuf) → IsRing r → (r.head + 1) % 256 ≢ r.tail → used r < 255
used-push c r (h, t) n = omega arith

one_more :
    (r : RingBuf)
    → IsRing r
    → (r.head + 1) % 256 ≢ r.tail
    → ((r.head + 1) % 256 + 256 - r.tail) % 256 ≡ suc (used r)
one_more r (h, t) n = omega arith

-- On a buffer whose two indices are below 256, `push_char` puts the character behind those that the
-- buffer holds if they are fewer than 255, and leaves the contents as they are otherwise.
pub push_char-contents :
    (c : ℕ) (r : RingBuf)
    → IsRing r
    → contents (push_char c r)
      ≡ (if ltb (length (contents r)) 255 then contents r ++ (c ∷ []) else contents r)
unfolding push_char
push_char-contents c r (h, t) = elim (Bool-cases (((r.head + 1) % 256) == r.tail)) [
  | inl e ↦
      let n = ==→eq ((r.head + 1) % 256) r.tail e in
      rw (e, length-collect (used r) r.buf r.tail, ltb_of_le (used r) 255 (omega arith)) refl
  | inr e ↦
      let n = ==→ne ((r.head + 1) % 256) r.tail e in
      rw (e, length-collect (used r) r.buf r.tail, lt→ltb (used r) 255 (used-push c r (h, t) n))
        (ap (λ m. collect m (update r.buf r.head c) r.tail) (one_more r (h, t) n)
          ∙ collect-update (used r) r.buf r.tail r.head c t (omega arith) (omega arith))
]

is_empty : (r : RingBuf) → r.tail ≡ r.head → used r ≡ 0
is_empty r n = omega arith

one_less :
    (r : RingBuf)
    → IsRing r
    → r.tail ≢ r.head
    → used r ≡ suc ((r.head + 256 - (r.tail + 1) % 256) % 256)
one_less r (h, t) n = omega arith

-- What `getchar` gives of the characters `cs` that a buffer holds.
abbrev pub Takes : List ℕ → Option (ℕ × RingBuf) → Type 0
Takes cs none = cs ≡ []
Takes cs (some (c, r)) = (cs ≡ c ∷ contents r) × IsRing r

-- On a buffer whose two indices are below 256, a round of `getchar` takes the first character if
-- the buffer holds one, leaves the others in their order and the indices below 256, and spins only
-- if it holds none.
pub getchar-contents : (r : RingBuf) → IsRing r → Takes (contents r) (getchar r)
unfolding getchar collect
getchar-contents r (h, t) = elim (Bool-cases (r.tail == r.head)) [
  | inl e ↦ let n = ==→eq r.tail r.head e in rw e (ap (λ m. collect m r.buf r.tail) (is_empty r n))
  | inr e ↦
      let n = ==→ne r.tail r.head e in
      rw e (ap (λ m. collect m r.buf r.tail) (one_less r (h, t) n), (h, omega arith))
]

-- `push_char` keeps the two indices below the length of the buffer.
pub push_char-IsRing : (c : ℕ) (r : RingBuf) → IsRing r → IsRing (push_char c r)
unfolding push_char
push_char-IsRing c r (h, t) = elim (Bool-cases (((r.head + 1) % 256) == r.tail)) [
  | inl e ↦ rw e (h, t)
  | inr e ↦ rw e (omega arith, t)
]
