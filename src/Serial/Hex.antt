-- ===== src/Serial/Hex.antt =====
-- The hexadecimal digits that the log of src/hal/serial.rs writes for a number.
use planck_os.Prelude.{
  ℕ, zero, suc, ◌+◌, ◌-◌, ◌*◌, ◌%◌, ◌^◌, ◌≤◌, ◌<◌, ◌≡◌, ◌≢◌, ◌⊎◌, refl, sym, ap, ◌∙◌, Bool, true,
  false, not, ◌||◌, ◌==◌, ltb, if◌then◌else◌, List, [], ◌∷◌, length, get_or, arith, inl, inr,
  Bool-cases, ==→eq, ==→ne,
}
use planck_os.Serial.{Line, put, put_str, shr_nibbles, hex_digit, put_nibbles, put_hex}

-- The number whose hexadecimal digits with small letters, read after those of `v`, are `ds`.
abbrev pub read_hex : ℕ → List ℕ → ℕ
read_hex v [] = v
read_hex v (d ∷ ds) = read_hex (16 * v + (if ltb d b'a' then d - b'0' else d - b'a' + 10)) ds

abbrev skips : Bool → Bool → Bool → Bool
skips a b c = not a || (b || c)

skips-false : (a b c : Bool) → skips a b c ≡ false → (a ≡ true) × (b ≡ false) × (c ≡ false)
skips-false true false false h = (refl, refl, refl)
skips-false true false true h = absurd (ground arith)
skips-false true true c h = absurd (ground arith)
skips-false false b c h = absurd (ground arith)

skips-true : (a c : Bool) → skips a false c ≡ true → (a ≡ false) ⊎ (c ≡ true)
skips-true false c h = inl refl
skips-true true true h = inr refl
skips-true true false h = absurd (ground arith)

-- What the digits `ds` of the lower `n` nibbles are.
pub record LowerNibbles (n : ℕ) (started : Bool) (v : ℕ) (ds : List ℕ) : Type 0 where
  pub same : (l : Line) → put_nibbles n started v l ≡ put_str ds l
  pub reads : read_hex (shr_nibbles n v) ds ≡ v
  pub short : length ds ≤ n
  pub leading :
      started ≡ false → 0 < n → (0 < length ds) × ((get_or ds 0 b'0' ≢ b'0') ⊎ (length ds ≡ 1))

digit-value :
    (nib : ℕ)
    → nib < 16
    → (let d = hex_digit b'a' nib in if ltb d b'a' then d - b'0' else d - b'a' + 10) ≡ nib
digit-value nib h = ground arith

digit-ne_zero : (nib : ℕ) → nib < 16 → nib ≢ 0 → hex_digit b'a' nib ≢ b'0'
digit-ne_zero nib h n = ground arith

put_nibbles-LowerNibbles :
    (n : ℕ) (started : Bool) (v : ℕ)
    → (started ≡ false → shr_nibbles n v ≡ 0)
    → (ds : List ℕ) × LowerNibbles n started v ds
unfolding put_nibbles shr_nibbles put_str
put_nibbles-LowerNibbles zero started v h = (
  [],
  record {
    same = λ l. refl;
    reads = refl;
    short = omega arith;
    leading = λ e p. absurd (omega arith);
  },
)
put_nibbles-LowerNibbles (suc n) started v h =
    let s = shr_nibbles n v in
    let nib = s % 16 in
    let d = hex_digit b'a' nib in
    elim (Bool-cases (skips (nib == 0) started (n == 0))) [
      | inl e ↦
          let (ds, w) = put_nibbles-LowerNibbles n true v (λ f. absurd (ground arith)) in
          (
            d ∷ ds,
            record {
              same = λ l. rw e (w.same (put d l));
              reads =
                  ap (λ k. read_hex k ds) (omega (arith, digit-value nib (omega arith))) ∙ w.reads;
              short = omega (arith, w.short);
              leading = λ f p. (
                omega arith,
                elim (skips-true (nib == 0) (n == 0)
                    (ap (λ b. skips (nib == 0) b (n == 0)) (sym f) ∙ e)) [
                      | inl m ↦ inl (digit-ne_zero nib (omega arith) (==→ne nib 0 m))
                      | inr m ↦ inr (omega (arith, w.short, ==→eq n 0 m))
                    ],
              );
            },
          )
      | inr e ↦
          let (zero_, off, more) = skips-false (nib == 0) started (n == 0) e in
          let low : s ≡ 0 = omega (arith, ==→eq nib 0 zero_, h off) in
          let (ds, w) = put_nibbles-LowerNibbles n false v (λ f. low) in
          (
            ds,
            record {
              same = λ l. rw e (w.same l);
              reads = ap (λ k. read_hex k ds) (omega (arith, low)) ∙ w.reads;
              short = omega (arith, w.short);
              leading = λ f p. w.leading refl (ground (arith, ==→ne n 0 more));
            },
          )
    ]

-- For a number of 64 bits `put_hex` writes between 1 and 16 hexadecimal digits that read back as
-- the number, and the first of several is not a zero.
pub put_hex-read_hex :
    (v : ℕ)
    → v < 2 ^ 64
    → (ds : List ℕ) × ((l : Line) → put_hex v l ≡ put_str ds l)
      × (read_hex 0 ds ≡ v)
      × (0 < length ds)
      × (length ds ≤ 16)
      × ((get_or ds 0 b'0' ≢ b'0') ⊎ (length ds ≡ 1))
unfolding put_hex shr_nibbles
put_hex-read_hex v h =
    let high : shr_nibbles 16 v ≡ 0 = omega arith in
    let (ds, w) = put_nibbles-LowerNibbles 16 false v (λ e. high) in
    let (some_, first) = w.leading refl (omega arith) in
    (ds, w.same, ap (λ k. read_hex k ds) (sym high) ∙ w.reads, some_, w.short, first)
