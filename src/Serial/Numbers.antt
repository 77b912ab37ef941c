-- ===== src/Serial/Numbers.antt =====
-- The digits that the log of src/hal/serial.rs writes for a number, and what they read back as.
use planck_os.Prelude.{
  bind, ℕ, zero, suc, ◌+◌, ◌-◌, ◌*◌, ◌/◌, ◌%◌, ◌≤◌, ◌<◌, ◌≡◌, ◌≢◌, refl, sym, ap, ◌∙◌, true, false,
  some, ◌==◌, ltb, leb, ◌^◌, List, [], ◌∷◌, length, get_or, arith, inl, inr, Bool-cases, ltb→lt,
  le_of_ltb, ==→eq, ==→ne, ne→==,
}
use planck_os.Serial.{Line, put, put_str, digits, put_dec, count_digits}

abbrev pub pow10 : ℕ → ℕ
pow10 zero = 1
pow10 (suc n) = 10 * pow10 n

-- The number whose decimal digits, read after those of `v`, are `ds`.
abbrev pub read_dec : ℕ → List ℕ → ℕ
read_dec v [] = v
read_dec v (d ∷ ds) = read_dec (10 * v + (d - b'0')) ds

-- Decimal digits.
abbrev pub IsDecimal : List ℕ → Type 0
IsDecimal [] = Unit
IsDecimal (d ∷ ds) = ((b'0' ≤ d) × (d ≤ b'9')) × IsDecimal ds

digits-zero : (left : ℕ) (tmp : List ℕ) → digits left 0 tmp ≡ some tmp
unfolding digits
digits-zero zero tmp = refl
digits-zero (suc left) tmp = refl

digits-suc :
    (left v : ℕ) (tmp : List ℕ)
    → 0 < v
    → digits (suc left) v tmp ≡ digits left (v / 10) ((b'0' + v % 10) ∷ tmp)
unfolding digits
digits-suc left v tmp h = rw (ne→== v 0 (omega arith)) refl

-- What the digits of `v` in front of the digits `tmp` are.
pub record Written (left v : ℕ) (tmp ds : List ℕ) : Type 0 where
  pub same : digits left v tmp ≡ some ds
  pub reads : read_dec 0 ds ≡ read_dec v tmp
  pub decimal : IsDecimal ds
  pub short : length ds ≤ left + length tmp
  pub grows : length tmp < length ds
  pub counts : (k : ℕ) → count_digits left v (k + 1) ≡ some (k + (length ds - length tmp))
  pub leading : get_or ds 0 b'0' ≢ b'0'

leb_of_ltb : (v n : ℕ) → ltb v n ≡ false → leb n v ≡ true
leb_of_ltb v n h = ground arith

digits-Written :
    (left v : ℕ) (tmp : List ℕ)
    → 0 < v
    → v < pow10 left
    → IsDecimal tmp
    → (ds : List ℕ) × Written left v tmp ds
unfolding count_digits
digits-Written zero v tmp p h d = absurd (omega arith)
digits-Written (suc left) v tmp p h d =
    let first = b'0' + v % 10 in
    let value : 10 * (v / 10) + (first - b'0') ≡ v = omega arith in
    let decimal : IsDecimal (first ∷ tmp) = ((omega arith, omega arith), d) in
    elim (Bool-cases (ltb v 10)) [
      | inl small ↦
          let none_left : v / 10 ≡ 0 = omega (arith, ltb→lt v 10 small) in
          (
            first ∷ tmp,
            record {
              same =
                  digits-suc left v tmp p
                  ∙ ap (λ w. digits left w (first ∷ tmp)) none_left
                  ∙ digits-zero left (first ∷ tmp);
              reads = ap (λ k. read_dec k tmp) (omega (arith, ltb→lt v 10 small));
              decimal = decimal;
              short = omega arith;
              grows = omega arith;
              counts = λ k. ground (arith, ltb→lt v 10 small);
              leading = λ e. omega (arith, ltb→lt v 10 small);
            },
          )
      | inr large ↦
          let (ds, w) =
            digits-Written left (v / 10) (first ∷ tmp) (omega (arith, le_of_ltb v 10 large))
              (omega arith) decimal in
          (
            ds,
            record {
              same = digits-suc left v tmp p ∙ w.same;
              reads = w.reads ∙ ap (λ k. read_dec k tmp) value;
              decimal = w.decimal;
              short = omega (arith, w.short);
              grows = omega (arith, w.grows);
              counts = λ k.
                  rw (leb_of_ltb v 10 large) (w.counts (k + 1) ∙ ap some (omega (arith, w.grows)));
              leading = w.leading;
            },
          )
    ]

-- A decimal numeral for `v` that is not longer than 20 digits and has no zero in front.
pub record IsNumeral (v : ℕ) (ds : List ℕ) : Type 0 where
  pub reads : read_dec 0 ds ≡ v
  pub decimal : IsDecimal ds
  pub some_digit : 0 < length ds
  pub short : length ds ≤ 20
  pub leading : 0 < v → get_or ds 0 b'0' ≢ b'0'

-- For a number of 64 bits `put_dec` does not leave its array of 20 digits, and writes decimal
-- digits that read back as the number, with no zero in front of another digit. The loop of `log_ms`
-- counts them all.
pub put_dec-read_dec :
    (v : ℕ)
    → v < 2 ^ 64
    → (ds : List ℕ) × ((l : Line) → put_dec v l ≡ some (put_str ds l))
      × IsNumeral v ds
      × (count_digits 20 v 1 ≡ some (length ds))
unfolding put_dec count_digits put_str put
put_dec-read_dec v h = elim (Bool-cases (v == 0)) [
  | inl e ↦
      let zero_ = ==→eq v 0 e in
      (
        b'0' ∷ [],
        (λ l. rw e refl),
        record {
          reads = sym zero_;
          decimal = ((omega arith, omega arith), tt);
          some_digit = omega arith;
          short = omega arith;
          leading = λ p. absurd (omega (arith, zero_));
        },
        ap (λ n. count_digits 20 n 1) zero_,
      )
  | inr e ↦
      let p : 0 < v = ground (arith, ==→ne v 0 e) in
      let (ds, w) = digits-Written 20 v [] p (omega arith) tt in
      (
        ds,
        (λ l. rw e (ap (λ o. bind o (λ tmp. some (put_str tmp l))) w.same)),
        record {
          reads = w.reads;
          decimal = w.decimal;
          some_digit = omega (arith, w.grows);
          short = omega (arith, w.short);
          leading = λ q. w.leading;
        },
        w.counts 0 ∙ ap some (omega arith),
      )
]
