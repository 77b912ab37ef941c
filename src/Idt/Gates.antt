-- ===== src/Idt/Gates.antt =====
-- The gates that `build_idt_into` of src/hal/idt.rs sets.
use planck_os.Prelude.{
  or_false, ℕ, ◌+◌, ◌*◌, ◌^◌, ◌<◌, ◌≡◌, ◌⊎◌, refl, sym, ◌∙◌, Bool, true, false, ◌||◌, ◌==◌, List,
  [], ◌∷◌, arith, inl, inr, Bool-cases, eq→==, leb,
}
use planck_os.Prelude.{◌^◌}
use mathlib.Core.Path.{subst}
use planck_os.Idt.{IdtEntry, set_entry, set_isrs, vectors, build_idt_into}

-- The address that the processor reads from a gate.
abbrev pub handler_of : IdtEntry → ℕ
handler_of e = e.offset_low + 2 ^ 16 * e.offset_mid + 2 ^ 32 * e.offset_high

-- A present interrupt gate to the handler, in the 64-bit code segment and on the current stack.
pub record Gate (handler : ℕ) (e : IdtEntry) : Type 0 where
  pub to : handler_of e ≡ handler
  pub segment : e.selector ≡ 0x18
  pub kind : e.flags ≡ 0x8E
  pub stack : e.ist ≡ 0
  pub rest : e.reserved ≡ 0

abbrev elem : ℕ → List ℕ → Bool
elem n [] = false
elem n (m ∷ ms) = (n == m) || elem n ms

set_isrs-other :
    (isr : ℕ → ℕ) (ns : List ℕ) (idt : ℕ → IdtEntry) (n : ℕ)
    → elem n ns ≡ false
    → set_isrs isr ns idt n ≡ idt n
unfolding set_isrs set_entry
set_isrs-other isr [] idt n h = refl
set_isrs-other isr (m ∷ ms) idt n h =
    let (here, later) = or_false (n == m) (elem n ms) h in
    set_isrs-other isr ms (set_entry m (isr m) idt) n later ∙ rw here refl

set_entry-Gate :
    (n handler : ℕ) (idt : ℕ → IdtEntry)
    → handler < 2 ^ 64
    → Gate handler (set_entry n handler idt n)
unfolding set_entry
set_entry-Gate n handler idt h =
    rw (eq→== n n refl)
      (record { to = omega arith; segment = refl; kind = refl; stack = refl; rest = refl })

or_here : (b : Bool) (n m : ℕ) → ((n == m) || b) ≡ true → b ≡ false → n ≡ m
or_here b n m h e = ground arith

set_isrs-Gate :
    (isr : ℕ → ℕ) (ns : List ℕ) (idt : ℕ → IdtEntry) (n : ℕ)
    → isr n < 2 ^ 64
    → elem n ns ≡ true
    → Gate (isr n) (set_isrs isr ns idt n)
unfolding set_isrs
set_isrs-Gate isr [] idt n b h = absurd (cc h)
set_isrs-Gate isr (m ∷ ms) idt n b h =
    let next = set_entry m (isr m) idt in
    elim (Bool-cases (elem n ms)) [
      | inl e ↦ set_isrs-Gate isr ms next n b e
      | inr e ↦
          let here : n ≡ m = or_here (elem n ms) n m h e in
          subst (λ g. Gate (isr n) g) (sym (set_isrs-other isr ms next n e))
            (subst (λ k. Gate (isr n) (set_entry k (isr k) idt n)) here
              (set_entry-Gate n (isr n) idt b))
    ]

-- The vectors that have a stub: 0 to 20, 0x20, 0x21 and 0x40.
abbrev pub has_stub : ℕ → Bool
has_stub n = leb n 20 || ((n == 0x20) || ((n == 0x21) || (n == 0x40)))

vectors-has_stub : (n : ℕ) → elem n vectors ≡ has_stub n
vectors-has_stub n = ground arith

-- After `build_idt_into`, with the address of the stub below 2^64, a vector either is one of 0 to
-- 20, 0x20, 0x21 and 0x40 and its gate leads to the stub of its number as a present interrupt gate
-- of the 64-bit code segment, or it is none of them and its gate is as it was.
pub build_idt_into-gates :
    (isr : ℕ → ℕ) (idt : ℕ → IdtEntry) (n : ℕ)
    → isr n < 2 ^ 64
    → ((has_stub n ≡ true) × Gate (isr n) (build_idt_into isr idt n))
      ⊎ ((has_stub n ≡ false) × (build_idt_into isr idt n ≡ idt n))
unfolding build_idt_into
build_idt_into-gates isr idt n b = elim (Bool-cases (has_stub n)) [
  | inl e ↦ inl (e, set_isrs-Gate isr vectors idt n b (vectors-has_stub n ∙ e))
  | inr e ↦ inr (e, set_isrs-other isr vectors idt n (vectors-has_stub n ∙ e))
]
