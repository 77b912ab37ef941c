-- ===== src/Apic/Index.antt =====
-- The number of the running core by `current_cpu_index` of src/hal/apic.rs.
use planck_os.Prelude.{
  ℕ, zero, suc, ◌+◌, ◌≤◌, ◌<◌, ◌≡◌, ◌≢◌, true, Option, none, some, ◌==◌, ltb, arith, inl, inr,
  Bool-cases, ltb→lt, le_of_ltb, ==→eq, ==→ne,
}
use planck_os.Apic.{Apic, lapic_id, find_cpu, or_zero, current_cpu_index}

-- Where the search ends: at the first core of the number, or nowhere.
pub data Searched (i left : ℕ) (ids : ℕ → ℕ) (id : ℕ) : Option ℕ → Type 0 where
  here :
      (k : ℕ)
      → i ≤ k
      → k < i + left
      → ids k ≡ id
      → ((j : ℕ) → i ≤ j → j < k → ids j ≢ id)
      → Searched i left ids id (some k)
  nowhere : ((j : ℕ) → i ≤ j → j < i + left → ids j ≢ id) → Searched i left ids id none

later :
    (i left : ℕ) (ids : ℕ → ℕ) (id : ℕ) (o : Option ℕ)
    → ids i ≢ id
    → Searched (i + 1) left ids id o
    → Searched i (suc left) ids id o
later i left ids id _ n (here k l h e f) = here k (omega arith) (omega arith) e (λ j a b.
    elim (Bool-cases (j == i)) [ inl d ↦ rw (==→eq j i d) n | inr d ↦ f j (ground arith) b ])
later i left ids id _ n (nowhere f) = nowhere (λ j a b. elim (Bool-cases (j == i)) [
  | inl d ↦ rw (==→eq j i d) n
  | inr d ↦ f j (ground arith) (omega arith)
])

find_cpu-Searched :
    (left i : ℕ) (ids : ℕ → ℕ) (id : ℕ) → Searched i left ids id (find_cpu left i ids id)
unfolding find_cpu
find_cpu-Searched zero i ids id = nowhere (λ j a b. absurd (omega arith))
find_cpu-Searched (suc left) i ids id = elim (Bool-cases (ids i == id)) [
  | inl e ↦
      rw e (here i (omega arith) (omega arith) (==→eq (ids i) id e) (λ j a b. absurd (omega arith)))
  | inr e ↦ rw e (
      later i left ids id (find_cpu left (i + 1) ids id) (==→ne (ids i) id e)
        (find_cpu-Searched left (i + 1) ids id))
]

or_zero-first :
    (o : Option ℕ) (count k : ℕ) (ids : ℕ → ℕ) (id : ℕ)
    → Searched 0 count ids id o
    → k < count
    → ids k ≡ id
    → (or_zero o < count) × (ids (or_zero o) ≡ id) × (or_zero o ≤ k)
or_zero-first _ count k ids id (here j l h e f) hk ek = (
  omega arith,
  e,
  elim (Bool-cases (ltb k j)) [
    | inl d ↦ absurd (f k (omega arith) (ltb→lt k j d) ek)
    | inr d ↦ le_of_ltb k j d
  ],
)
or_zero-first _ count k ids id (nowhere f) hk ek = absurd (f k (omega arith) (omega arith) ek)

-- Once the local APIC is ready, on a core whose identification is in the list of cores,
-- `current_cpu_index` gives an index within the list, at which this identification stands, and the
-- first such one.
pub current_cpu_index-first :
    (a : Apic) (cpu_count k : ℕ) (ids : ℕ → ℕ) (id_reg : ℕ)
    → a.ready ≡ true
    → k < cpu_count
    → ids k ≡ lapic_id id_reg
    → (current_cpu_index a cpu_count ids id_reg < cpu_count)
      × (ids (current_cpu_index a cpu_count ids id_reg) ≡ lapic_id id_reg)
      × (current_cpu_index a cpu_count ids id_reg ≤ k)
unfolding current_cpu_index
current_cpu_index-first a cpu_count k ids id_reg r hk e = rw r (
    or_zero-first (find_cpu cpu_count 0 ids (lapic_id id_reg)) cpu_count k ids (lapic_id id_reg)
      (find_cpu-Searched cpu_count 0 ids (lapic_id id_reg)) hk e)
