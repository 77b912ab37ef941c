-- ===== src/Applets/Out/Rows.antt =====
-- The rows of the dump of src/applets/out/mod.rs.
use planck_os.Prelude.{
  ℕ, zero, suc, ◌+◌, ◌-◌, ◌*◌, ◌/◌, ◌%◌, ◌≤◌, ◌<◌, ◌≡◌, refl, ap, ap₂, ◌∙◌, ltb, if◌then◌else◌,
  List, [], ◌∷◌, ◌++◌, length, arith, drop,
}
use planck_os.Prelude.{map}
use planck_os.Serial.{hex_digit}
unfoldable use planck_os.Serial.{debug_nibbles}
use planck_os.Applets.Out.{hex_bytes, padding, shown, dump_row}

-- The value of a digit, with capital letters.
abbrev pub digit_value : ℕ → ℕ
digit_value c = if ltb c b'A' then c - b'0' else c - b'A' + 10

-- The first `n` bytes of a dump: two digits and a blank each.
pub read_bytes : ℕ → List ℕ → List ℕ
read_bytes zero text = []
read_bytes (suc n) [] = []
read_bytes (suc n) (a ∷ []) = []
read_bytes (suc n) (a ∷ b ∷ []) = []
read_bytes (suc n) (a ∷ b ∷ c ∷ text) = (digit_value a * 16 + digit_value b) ∷ read_bytes n text

abbrev pub IsBytes : List ℕ → Type 0
IsBytes [] = Unit
IsBytes (b ∷ bs) = (b < 256) × IsBytes bs

digit-back : (n : ℕ) → n < 16 → digit_value (hex_digit b'A' n) ≡ n
digit-back n h = ground arith

hex_bytes-back :
    (bytes rest : List ℕ)
    → IsBytes bytes
    → read_bytes (length bytes) (hex_bytes bytes ++ rest) ≡ bytes
unfolding hex_bytes read_bytes
hex_bytes-back [] rest h = refl
hex_bytes-back (b ∷ bs) rest (h, hs) =
    let value : digit_value (hex_digit b'A' (b / 16)) * 16 + digit_value (hex_digit b'A' (b % 16))
        ≡ b =
      omega (arith, digit-back (b / 16) (omega arith), digit-back (b % 16) (omega arith)) in
    ap₂ (λ x xs. x ∷ xs) value (hex_bytes-back bs rest hs)

hex_bytes-length : (bytes : List ℕ) → length (hex_bytes bytes) ≡ 3 * length bytes
unfolding hex_bytes
hex_bytes-length [] = refl
hex_bytes-length (b ∷ bs) = omega (arith, hex_bytes-length bs)

padding-length : (n : ℕ) → length (padding n) ≡ 3 * n
unfolding padding
padding-length zero = refl
padding-length (suc n) = omega (arith, padding-length n)

nibbles-length : (n v : ℕ) → length (debug_nibbles n v) ≡ n
unfolding debug_nibbles
nibbles-length zero v = refl
nibbles-length (suc n) v = ap suc (nibbles-length n v)

drop_past : (xs ys : List ℕ) (m k : ℕ) → m ≡ length xs + k → drop m (xs ++ ys) ≡ drop k ys
drop_past [] ys m k h = let same : m ≡ k = omega arith in ap (λ n. drop n ys) same
drop_past (x ∷ xs) ys zero k h = absurd (omega arith)
drop_past (x ∷ xs) ys (suc m) k h = drop_past xs ys m k (omega arith)

-- In a row of at most 16 bytes, the digits behind the offset read back as the bytes, and the text
-- column is the same in every row: behind 60 characters stand the bytes, those that do not print as
-- points, and a bar.
pub dump_row-back :
    (o : ℕ) (bytes : List ℕ)
    → IsBytes bytes
    → length bytes ≤ 16
    → (read_bytes (length bytes) (drop 10 (dump_row o bytes)) ≡ bytes)
      × (drop 60 (dump_row o bytes) ≡ map shown bytes ++ (b'|' ∷ b'\n' ∷ []))
unfolding dump_row
dump_row-back o bytes h l =
    let text : List ℕ = map shown bytes ++ (b'|' ∷ b'\n' ∷ []) in
    let pads = padding (16 - length bytes) in
    let behind : List ℕ = pads ++ (b' ' ∷ b'|' ∷ text) in
    let row : List ℕ = b' ' ∷ b' ' ∷ (hex_bytes bytes ++ behind) in
    let digits = debug_nibbles 8 o in
    let eight = nibbles-length 8 o in
    (
      ap (read_bytes (length bytes)) (drop_past digits row 10 2 (omega (arith, eight)))
          ∙ hex_bytes-back bytes behind h,
      drop_past digits row 60 52 (omega (arith, eight))
          ∙ (drop_past (hex_bytes bytes) behind 50 (50 - 3 * length bytes)
                (omega (arith, hex_bytes-length bytes))
              ∙ drop_past pads (b' ' ∷ b'|' ∷ text) (50 - 3 * length bytes) 2
                  (omega (arith, padding-length (16 - length bytes)))),
    )
