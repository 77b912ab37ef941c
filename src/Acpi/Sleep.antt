-- ===== src/Acpi/Sleep.antt =====
-- The search for the sleep types in the DSDT in src/hal/acpi.rs.
use planck_os.Prelude.{
  ℕ, zero, suc, ◌+◌, ◌-◌, ◌^◌, ◌≤◌, ◌<◌, ◌≡◌, ◌≢◌, ◌⊎◌, refl, ap, ◌∙◌, Bool, true, false, ◌&&◌,
  none, some, ◌==◌, ltb, leb, if◌then◌else◌, arith, inl, inr, Bool-cases, ltb→lt, le_of_ltb, ==→eq,
  ==→ne, ne→==,
}
use planck_os.Prelude.{sub64, ◌^◌}
use mathlib.Core.Path.{subst}
use planck_os.Acpi.{Acpi, Table, is_s5, integers, package_at, find_s5, parse_s5}

-- The test of the loop at an index.
abbrev pub is_match : Table → ℕ → Bool
is_match t i = (t.bytes i == 0x08) && is_s5 t i

-- No match from `from` on and before `to`.
abbrev pub Clear : Table → ℕ → ℕ → Type 0
Clear t from to = (j : ℕ) → from ≤ j → j < to → is_match t j ≡ false

-- What the search of the indices from `from` to `to` gives.
abbrev pub Searched : Table → ℕ → ℕ → Acpi → Acpi → Type 0
Searched t from to g h =
    (Clear t from to × (h ≡ g))
    ⊎ ((i : ℕ) × (from ≤ i)
        × (i < to)
        × Clear t from i
        × (is_match t i ≡ true)
        × (h ≡ package_at t i g))

find_s5-suc :
    (left : ℕ) (t : Table) (i : ℕ) (g : Acpi)
    → i < t.len
    → find_s5 (suc left) t i g
      ≡ (if is_match t i then some (package_at t i g) else find_s5 left t (i + 1) g)
unfolding find_s5
find_s5-suc left t i g l = let fits : leb (i + 1) t.len ≡ true = ground arith in rw fits refl

extend_Clear : (t : Table) (i to : ℕ) → is_match t i ≡ false → Clear t (i + 1) to → Clear t i to
extend_Clear t i to e c j l m = elim (Bool-cases (j == i)) [
  | inl s ↦ ap (is_match t) (==→eq j i s) ∙ e
  | inr s ↦ c j (ground (arith, ==→ne j i s)) m
]

find_s5-Searched :
    (left : ℕ) (t : Table) (i : ℕ) (g : Acpi)
    → i + left ≤ t.len
    → (h : Acpi) × (find_s5 left t i g ≡ some h) × Searched t i (i + left) g h
unfolding find_s5
find_s5-Searched zero t i g l = (g, refl, inl ((λ j m n. absurd (omega arith)), refl))
find_s5-Searched (suc left) t i g l = elim (Bool-cases (is_match t i)) [
  | inl e ↦ (
    package_at t i g,
    find_s5-suc left t i g (omega arith) ∙ rw e refl,
    inr (i, omega arith, omega arith, (λ j m n. absurd (omega arith)), e, refl),
  )
  | inr e ↦
      let (h, same, s) = find_s5-Searched left t (i + 1) g (omega arith) in
      let end : i + 1 + left ≡ i + suc left = omega arith in
      (
        h,
        find_s5-suc left t i g (omega arith) ∙ rw e same,
        elim s [
          | inl c ↦ inl (extend_Clear t i (i + suc left) e (λ j m n. c.0 j m (omega arith)), c.1)
          | inr c ↦
              inr
                (c.0, omega (arith, c.1), omega (arith, c.2), extend_Clear t i c.0 e c.3, c.4, c.5)
        ],
      )
]

outside : (left : ℕ) (t : Table) (i : ℕ) (g : Acpi) → t.len ≤ i → find_s5 (suc left) t i g ≡ none
unfolding find_s5
outside left t i g l = let past : leb (i + 1) t.len ≡ false = ground arith in rw past refl

find_s5-none :
    (left : ℕ) (t : Table) (i : ℕ) (g : Acpi)
    → t.len < i + left
    → i ≤ t.len
    → Clear t i t.len
    → find_s5 left t i g ≡ none
find_s5-none zero t i g l m c = absurd (omega arith)
find_s5-none (suc left) t i g l m c = elim (Bool-cases (ltb i t.len)) [
  | inl e ↦
      let inside = ltb→lt i t.len e in
      find_s5-suc left t i g inside
      ∙ rw (c i (omega arith) inside)
          (find_s5-none left t (i + 1) g (omega arith) (omega arith) (λ j k n. c j (omega arith) n))
  | inr e ↦ outside left t i g (le_of_ltb i t.len e)
]

-- On a table of at least 20 bytes and fewer than 2 ^ 32, `parse_s5` ends without a read out of
-- range. It takes the package behind the first index, of those with more than 20 bytes from them
-- on, where the operator and the name that the source spells stand, and changes nothing if there
-- is none.
pub parse_s5-Searched :
    (t : Table) (g : Acpi)
    → 20 ≤ t.len
    → t.len < 2 ^ 32
    → (h : Acpi) × (parse_s5 t g ≡ some h) × Searched t 0 (t.len - 20) g h
unfolding parse_s5
parse_s5-Searched t g l m =
    let (h, same, s) = find_s5-Searched (sub64 t.len 20) t 0 g (omega arith) in
    let end : 0 + sub64 t.len 20 ≡ t.len - 20 = omega arith in
    (h, same, subst (λ to. Searched t 0 to g h) end s)

-- A table shorter than 20 bytes without the name: the number of rounds wraps around, and `parse_s5`
-- panics.
parse_s5-short : (t : Table) (g : Acpi) → t.len < 20 → Clear t 0 t.len → parse_s5 t g ≡ none
unfolding parse_s5
parse_s5-short t g l c = find_s5-none (sub64 t.len 20) t 0 g (omega arith) (omega arith) c

integers-ne :
    (t : Table) (offset : ℕ) (g : Acpi) → (t.bytes offset == 0x0A) ≡ false → integers t offset g ≡ g
integers-ne t offset g n = elim (Bool-cases (ltb offset t.len)) [
  | inl e ↦ rw (e, n) refl
  | inr e ↦ rw e refl
]

package_at-ne : (t : Table) (i : ℕ) (g : Acpi) → t.bytes (i + 7) ≢ 0x0A → package_at t i g ≡ g
unfolding package_at
package_at-ne t i g n =
    let not_integer : (t.bytes (i + 7) == 0x0A) ≡ false = ne→== (t.bytes (i + 7)) 0x0A n in
    elim (Bool-cases (
      (t.bytes (i + 5) == 0x12)
      && (ltb (i + 6 + 2) t.len && leb (i + 6 + 1 + t.bytes (i + 6)) t.len))) [
        | inl e ↦ rw e (integers-ne t (i + 7) g not_integer)
        | inr e ↦ rw e refl
      ]

-- On a table of at least 20 bytes and fewer than 2 ^ 32: if wherever the operator and the name
-- stand, the byte two behind the package's operator is not the prefix of an integer, as it is
-- where a package states the number of its elements, then `parse_s5` takes no sleep type.
pub parse_s5-keeps :
    (t : Table) (g : Acpi)
    → 20 ≤ t.len
    → t.len < 2 ^ 32
    → ((i : ℕ) → is_match t i ≡ true → t.bytes (i + 7) ≢ 0x0A)
    → parse_s5 t g ≡ some g
parse_s5-keeps t g l m n =
    let (h, same, s) = parse_s5-Searched t g l m in
    same ∙ ap some (elim s [ inl c ↦ c.1 | inr c ↦ c.5 ∙ package_at-ne t c.0 g (n c.0 c.4) ])
