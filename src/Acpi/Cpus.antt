-- ===== src/Acpi/Cpus.antt =====
-- The processors that the MADT of src/hal/acpi.rs lists.
use planck_os.Prelude.{
  ℕ, zero, suc, ◌+◌, ◌%◌, ◌≤◌, ◌<◌, ◌≡◌, refl, sym, ap, ap₂, ◌∙◌, Bool, true, false, not, ◌&&◌,
  ◌||◌, Option, none, some, ◌==◌, ltb, leb, if◌then◌else◌, update, List, [], ◌∷◌, ◌++◌, length,
  take, arith, inl, inr, Bool-cases, update_self, update_ne, ltb→lt, le_of_ltb, leb→le, slice,
  slice-cong, slice-snoc, length-slice, length-append,
}
use mathlib.Core.List.{append_assoc, append-nil}
use planck_os.Acpi.{
  Acpi, Table, le32, le64, within, add_cpu, local_apic, io_apic, lapic_override, parse_entry,
  parse_entries, parse_madt, max_cpus,
}

-- The offsets of the entries from `off` on, up to the first that is too short or does not fit.
abbrev pub entries : ℕ → Table → ℕ → List ℕ
entries zero t off = []
entries (suc fuel) t off =
    let elen = t.bytes (off + 1) in
    let rest = entries fuel t (off + elen) in
    if leb (off + 2) t.len && (leb 2 elen && leb (off + elen) t.len) then off ∷ rest else []

-- A local APIC that is enabled.
abbrev pub is_cpu : Table → ℕ → Bool
is_cpu t off =
    (t.bytes off == 0) && (leb 8 (t.bytes (off + 1)) && (le32 t.bytes (off + 4) % 2 == 1))

-- The identifiers of the enabled local APICs among entries.
abbrev pub enabled : Table → List ℕ → List ℕ
enabled t [] = []
enabled t (off ∷ offs) =
    let rest = enabled t offs in if is_cpu t off then t.bytes (off + 3) ∷ rest else rest

-- The processors found so far.
abbrev pub cpus : Acpi → List ℕ
cpus g = slice g.cpu_apic_ids 0 g.cpu_count

-- What an entry adds, as far as there is room.
pub Adds : Option Acpi → Acpi → List ℕ → Type 0
Adds o g ids = (h : Acpi) × (o ≡ some h) × (cpus h ≡ take 8 (cpus g ++ ids)) × (h.cpu_count ≤ 8)

take-all : (n : ℕ) (xs : List ℕ) → length xs ≤ n → take n xs ≡ xs
take-all zero [] h = refl
take-all zero (x ∷ xs) h = absurd (omega arith)
take-all (suc n) [] h = refl
take-all (suc n) (x ∷ xs) h = ap (λ ys. x ∷ ys) (take-all n xs (omega arith))

take-append : (n : ℕ) (xs ys : List ℕ) → length xs ≡ n → take n (xs ++ ys) ≡ xs
take-append zero [] ys h = refl
take-append zero (x ∷ xs) ys h = absurd (omega arith)
take-append (suc n) [] ys h = absurd (omega arith)
take-append (suc n) (x ∷ xs) ys h = ap (λ zs. x ∷ zs) (take-append n xs ys (omega arith))

take-take_append : (n : ℕ) (xs ys : List ℕ) → take n (take n xs ++ ys) ≡ take n (xs ++ ys)
take-take_append zero xs ys = refl
take-take_append (suc n) [] ys = refl
take-take_append (suc n) (x ∷ xs) ys = ap (λ zs. x ∷ zs) (take-take_append n xs ys)

Adds-none :
    (g h : Acpi)
    → g.cpu_count ≤ 8
    → cpus h ≡ cpus g
    → h.cpu_count ≡ g.cpu_count
    → Adds (some h) g []
unfolding Adds
Adds-none g h l e n =
    let size = length-slice g.cpu_apic_ids 0 g.cpu_count in
    (
      h,
      refl,
      e ∙ sym (ap (take 8) (append-nil (cpus g)) ∙ take-all 8 (cpus g) (omega (arith, size))),
      omega (arith, n),
    )

-- A processor more, if there is room.
add_cpu-Adds :
    (id : ℕ) (g : Acpi)
    → g.cpu_count ≤ 8
    → Adds (some (if ltb g.cpu_count max_cpus then add_cpu id g else g)) g (id ∷ [])
unfolding Adds
add_cpu-Adds id g h =
    let n = g.cpu_count in
    let ids = update g.cpu_apic_ids n id in
    let size = length-slice g.cpu_apic_ids 0 n in
    elim (Bool-cases (ltb n 8)) [
      | inl e ↦
          let room = ltb→lt n 8 e in
          let one : n + 1 ≡ suc n = omega arith in
          let more : slice ids 0 (n + 1) ≡ cpus g ++ (id ∷ []) =
            ap (slice ids 0) one
            ∙ slice-snoc ids 0 n
            ∙ ap₂ (λ x c. x ++ (c ∷ []))
                (slice-cong ids g.cpu_apic_ids 0 0 n
                  (λ j m. update_ne g.cpu_apic_ids n (0 + j) id (omega arith)))
                (ap ids (omega arith) ∙ update_self g.cpu_apic_ids n id) in
          (
            add_cpu id g,
            rw e refl,
            more
                ∙ sym (
                    take-all 8 (cpus g ++ (id ∷ []))
                      (omega (arith, size, length-append (cpus g) (id ∷ [])))),
            omega arith,
          )
      | inr e ↦
          let full = le_of_ltb n 8 e in
          (g, rw e refl, sym (take-append 8 (cpus g) (id ∷ []) (omega (arith, size))), h)
    ]

within-Adds :
    (t : Table) (k n : ℕ) (o : Option Acpi) (g : Acpi) (ids : List ℕ)
    → k + n ≤ t.len
    → Adds o g ids
    → Adds (within t k n o) g ids
within-Adds t k n o g ids l a = let fits : leb (k + n) t.len ≡ true = ground arith in rw fits a

local_apic-Adds :
    (t : Table) (off : ℕ) (g : Acpi)
    → g.cpu_count ≤ 8
    → off + t.bytes (off + 1) ≤ t.len
    → Adds (local_apic t off (t.bytes (off + 1)) g) g (
        if leb 8 (t.bytes (off + 1)) && (le32 t.bytes (off + 4) % 2 == 1)
        then t.bytes (off + 3) ∷ []
        else [])
unfolding local_apic
local_apic-Adds t off g h l = elim (Bool-cases (leb 8 (t.bytes (off + 1)))) [
  | inl e ↦
      let long = leb→le 8 (t.bytes (off + 1)) e in
      elim (Bool-cases (le32 t.bytes (off + 4) % 2 == 1)) [
        | inl f ↦
            rw (e, f)
              (within-Adds t off 8 _ g (t.bytes (off + 3) ∷ []) (omega arith)
                (add_cpu-Adds (t.bytes (off + 3)) g h))
        | inr f ↦
            rw (e, f) (within-Adds t off 8 (some g) g [] (omega arith) (Adds-none g g h refl refl))
      ]
  | inr e ↦ rw e (Adds-none g g h refl refl)
]

io_apic-Adds :
    (t : Table) (off : ℕ) (g : Acpi)
    → g.cpu_count ≤ 8
    → off + t.bytes (off + 1) ≤ t.len
    → Adds (io_apic t off (t.bytes (off + 1)) g) g []
unfolding io_apic
io_apic-Adds t off g h l = elim (Bool-cases (leb 12 (t.bytes (off + 1)))) [
  | inl e ↦
      let long = leb→le 12 (t.bytes (off + 1)) e in
      rw e (within-Adds t off 8 _ g [] (omega arith) (Adds-none g _ h refl refl))
  | inr e ↦ rw e (Adds-none g g h refl refl)
]

lapic_override-Adds :
    (t : Table) (off : ℕ) (g : Acpi)
    → g.cpu_count ≤ 8
    → off + t.bytes (off + 1) ≤ t.len
    → Adds (lapic_override t off (t.bytes (off + 1)) g) g []
unfolding lapic_override
lapic_override-Adds t off g h l = elim (Bool-cases (leb 12 (t.bytes (off + 1)))) [
  | inl e ↦
      let long = leb→le 12 (t.bytes (off + 1)) e in
      elim (Bool-cases (le64 t.bytes (off + 4) == 0)) [
        | inl f ↦
            rw (e, f) (within-Adds t off 12 (some g) g [] (omega arith) (Adds-none g g h refl refl))
        | inr f ↦ rw (e, f) (within-Adds t off 12 _ g [] (omega arith) (Adds-none g _ h refl refl))
      ]
  | inr e ↦ rw e (Adds-none g g h refl refl)
]

parse_entry-Adds :
    (t : Table) (off : ℕ) (g : Acpi)
    → g.cpu_count ≤ 8
    → off + t.bytes (off + 1) ≤ t.len
    → Adds (parse_entry t off (t.bytes off) (t.bytes (off + 1)) g) g (enabled t (off ∷ []))
unfolding parse_entry
parse_entry-Adds t off g h l =
    let local = local_apic-Adds t off g h l in
    let io = io_apic-Adds t off g h l in
    let override = lapic_override-Adds t off g h l in
    elim (Bool-cases (t.bytes off == 0)) [
      | inl e ↦ rw e local
      | inr e ↦ elim (Bool-cases (t.bytes off == 1)) [
        | inl f ↦ rw (e, f) io
        | inr f ↦ elim (Bool-cases (t.bytes off == 5)) [
          | inl k ↦ rw (e, f, k) override
          | inr k ↦ rw (e, f, k) (Adds-none g g h refl refl)
        ]
      ]
    ]

enabled-cons :
    (t : Table) (off : ℕ) (offs : List ℕ)
    → enabled t (off ∷ offs) ≡ enabled t (off ∷ []) ++ enabled t offs
enabled-cons t off offs = elim (Bool-cases (is_cpu t off)) [ inl e ↦ rw e refl | inr e ↦ rw e refl ]

abbrev fits : Table → ℕ → Bool
fits t off = leb 2 (t.bytes (off + 1)) && leb (off + t.bytes (off + 1)) t.len

stops-fits :
    (t : Table) (off : ℕ)
    → (ltb (t.bytes (off + 1)) 2 || ltb t.len (off + t.bytes (off + 1))) ≡ not (fits t off)
stops-fits t off = ground arith

fits-le :
    (t : Table) (off : ℕ)
    → fits t off ≡ true
    → (2 ≤ t.bytes (off + 1)) × (off + t.bytes (off + 1) ≤ t.len)
fits-le t off h = (ground arith, ground arith)

Adds-step :
    (o : Option Acpi) (k : Acpi → Option Acpi) (g : Acpi) (ids more all : List ℕ)
    → all ≡ ids ++ more
    → Adds o g ids
    → ((h : Acpi) → h.cpu_count ≤ 8 → Adds (k h) h more)
    → Adds (elim o [ none ↦ none | some h ↦ k h ]) g all
unfolding Adds
Adds-step o k g ids more all j (h, e, c, n) next =
    let (h', e', c', n') = next h n in
    (
      h',
      rw e e',
      c'
          ∙ ap (λ xs. take 8 (xs ++ more)) c
          ∙ take-take_append 8 (cpus g ++ ids) more
          ∙ ap (take 8) (append_assoc (cpus g) ids more)
          ∙ ap (λ xs. take 8 (cpus g ++ xs)) (sym j),
      n',
    )

parse_entries-Adds :
    (fuel : ℕ) (t : Table) (off : ℕ) (g : Acpi)
    → 0 < fuel
    → t.len < fuel + off
    → g.cpu_count ≤ 8
    → Adds (parse_entries fuel t off g) g (enabled t (entries fuel t off))
unfolding parse_entries
parse_entries-Adds zero t off g p f h = absurd (omega arith)
parse_entries-Adds (suc fuel) t off g p f h =
    let elen = t.bytes (off + 1) in
    let rest = entries fuel t (off + elen) in
    elim (Bool-cases (leb (off + 2) t.len)) [
      | inl e ↦ elim (Bool-cases (fits t off)) [
        | inl b ↦
            let (two, within_) = fits-le t off b in
            let step =
              Adds-step (parse_entry t off (t.bytes off) elen g) (parse_entries fuel t (off + elen))
                g (enabled t (off ∷ [])) (enabled t rest) (enabled t (off ∷ rest))
                (enabled-cons t off rest) (parse_entry-Adds t off g h within_)
                (λ k l. parse_entries-Adds fuel t (off + elen) k (omega arith) (omega arith) l) in
            let goes : (ltb elen 2 || ltb t.len (off + elen)) ≡ false =
              stops-fits t off ∙ ap not b in
            rw (e, goes, b) step
        | inr b ↦
            let stops : (ltb elen 2 || ltb t.len (off + elen)) ≡ true =
              stops-fits t off ∙ ap not b in
            rw (e, stops, b) (Adds-none g g h refl refl)
      ]
      | inr e ↦ rw e (Adds-none g g h refl refl)
    ]

-- From a state with at most 8 processors, on a table of any content, `parse_madt` ends without a
-- read out of range. It leaves at most 8 processors, which are those it began with and the enabled
-- local APICs of the table's entries, in their order and up to 8. A table shorter than 48 bytes
-- adds none.
pub parse_madt-cpus :
    (t : Table) (g : Acpi)
    → g.cpu_count ≤ 8
    → (h : Acpi) × (parse_madt t g ≡ some h)
      × (cpus h ≡ take 8 (cpus g ++ enabled t (if ltb t.len 48 then [] else entries t.len t 44)))
      × (h.cpu_count ≤ 8)
unfolding parse_madt Adds
parse_madt-cpus t g h = elim (Bool-cases (ltb t.len 48)) [
  | inl e ↦ rw e (Adds-none g g h refl refl)
  | inr e ↦
      let long = le_of_ltb t.len 48 e in
      let start = record g {
        lapic_base = le32 t.bytes 36;
        pcat_compat = le32 t.bytes 40 % 2 == 1;
      } in
      rw e (parse_entries-Adds t.len t 44 start (omega arith) (omega arith) h)
]
