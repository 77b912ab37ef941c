-- ===== src/Input/Keys.antt =====
-- The handler of src/hal/input.rs over the bytes of a key that is pressed and released.
use planck_os.Prelude.{
  ℕ, ◌%◌, true, false, ◌||◌, Option, none, some, ◌==◌, ◌≡◌, refl, sym, ap, ap₂, [], ◌∷◌, ◌≢◌, ◌⊎◌,
  arith, ne→==, Bool-cases, inl, inr,
}
use mathlib.Core.Path.{subst}
use planck_os.Input.{
  RingBuf, Keyboard, irq1_handler, run_irqs, push_some, scancode_to_ascii, released, pressed,
  fetch_or, fetch_clear,
}
use planck_os.Input.Queue.{IsRing, push_char-IsRing}

-- A released key touches the modifiers only.
released-kb_buf : (code : ℕ) (k : Keyboard) → (released code k).kb_buf ≡ k.kb_buf
released-kb_buf code k = elim (Bool-cases ((code == 0x12) || (code == 0x59))) [
  | inl e ↦ rw e refl
  | inr e ↦ elim (Bool-cases (code == 0x14)) [ inl f ↦ rw (e, f) refl | inr f ↦ rw (e, f) refl ]
]

-- The bytes of a released key, with or without the prefix of an extended one, leave the buffer as
-- it is, whatever was read before, and no prefix pending. The key's code is neither prefix.
pub run_irqs-release :
    (code : ℕ) (k : Keyboard)
    → code ≢ 0xE0
    → code ≢ 0xF0
    → let t = run_irqs (0xF0 ∷ code ∷ []) k in
      let u = run_irqs (0xE0 ∷ 0xF0 ∷ code ∷ []) k in
      ((t.kb_buf ≡ k.kb_buf) × ((t.release ≡ false) × (t.extended ≡ false)))
      × ((u.kb_buf ≡ k.kb_buf) × ((u.release ≡ false) × (u.extended ≡ false)))
unfolding run_irqs irq1_handler
run_irqs-release code k e f =
    rw (ne→== code 0xE0 e, ne→== code 0xF0 f)
      (
        (released-kb_buf code (record k { release = true }), (refl, refl)),
        (released-kb_buf code (record k { extended = true; release = true }), (refl, refl)),
      )

push_some-IsRing : (c : Option ℕ) (r : RingBuf) → IsRing r → IsRing (push_some c r)
push_some-IsRing none r i = i
push_some-IsRing (some c) r i = push_char-IsRing c r i

pressed-IsRing : (code : ℕ) (k : Keyboard) → IsRing k.kb_buf → IsRing (pressed code k).kb_buf
pressed-IsRing code k i = elim (Bool-cases ((code == 0x12) || (code == 0x59))) [
  | inl e ↦ rw e i
  | inr e ↦ elim (Bool-cases (code == 0x14)) [
    | inl f ↦ rw (e, f) i
    | inr f ↦ rw (e, f) (push_some-IsRing (scancode_to_ascii k.shift code) k.kb_buf i)
  ]
]

shift_back : (x : ℕ) → x % 2 ≡ 0 → fetch_clear (fetch_or x 1) 1 ≡ x
shift_back x h = ground arith

shift_at_rest :
    (code : ℕ) (k : Keyboard)
    → (code ≡ 0x12) ⊎ (code ≡ 0x59)
    → k.shift % 2 ≡ 0
    → run_irqs (code ∷ 0xF0 ∷ code ∷ []) (record k { extended = false; release = false })
      ≡ record k { extended = false; release = false }
unfolding run_irqs irq1_handler
shift_at_rest code k (inl c) s =
    rw c
      (ap (λ x. record k { shift = x; extended = false; release = false }) (shift_back k.shift s))
shift_at_rest code k (inr c) s =
    rw c
      (ap (λ x. record k { shift = x; extended = false; release = false }) (shift_back k.shift s))

-- A press and a release of a shift key give back the keyboard, from one on which no shift key is
-- down and no prefix has been read.
pub run_irqs-shift :
    (code : ℕ) (k : Keyboard)
    → (code ≡ 0x12) ⊎ (code ≡ 0x59)
    → k.shift % 2 ≡ 0
    → k.extended ≡ false
    → k.release ≡ false
    → run_irqs (code ∷ 0xF0 ∷ code ∷ []) k ≡ k
run_irqs-shift code k c s e r =
    subst (λ x. run_irqs (code ∷ 0xF0 ∷ code ∷ []) x ≡ x)
      (ap₂ (λ x y. record k { extended = x; release = y }) (sym e) (sym r))
      (shift_at_rest code k c s)
