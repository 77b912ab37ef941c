-- ===== src/Acpi.antt =====
-- The tables of src/hal/acpi.rs. The physical memory is a function from addresses to bytes; a read
-- of a slice out of its range panics, which is `none`. Log output is left out.
pub mod Cpus
pub mod Sleep
mod Tests
use planck_os.Prelude.{
  ℕ, zero, suc, ◌+◌, ◌*◌, ◌/◌, ◌%◌, Bool, true, false, not, ◌&&◌, ◌||◌, Option, none, some, ◌==◌,
  ltb, leb, if◌then◌else◌, update, List, [], ◌∷◌,
}
use planck_os.Prelude.{sub64}

-- `MADT`, `PM1A_CNT_BLK`, `S5_SLP_TYPa`, `S5_SLP_TYPb` and `ACPI_READY`.
pub record Acpi : Type 0 where
  pub lapic_base : ℕ
  pub io_apic_addr : ℕ
  pub io_apic_id : ℕ
  pub cpu_count : ℕ
  pub cpu_apic_ids : ℕ → ℕ
  pub pcat_compat : Bool
  pub pm1a_cnt_blk : ℕ
  pub slp_typ_a : ℕ
  pub slp_typ_b : ℕ
  pub acpi_ready : Bool

abbrev pub max_cpus : ℕ
max_cpus = 8

abbrev pub mapped_limit : ℕ
mapped_limit = 0x40000000

abbrev pub is_mapped : ℕ → Bool
is_mapped addr = ltb addr mapped_limit

-- `slice::from_raw_parts(addr, len)`
pub record Table : Type 0 where
  pub bytes : ℕ → ℕ
  pub len : ℕ

abbrev pub le16 : (ℕ → ℕ) → ℕ → ℕ
le16 m a = m a + 256 * m (a + 1)

abbrev pub le32 : (ℕ → ℕ) → ℕ → ℕ
le32 m a = le16 m a + 65536 * le16 m (a + 2)

abbrev pub le64 : (ℕ → ℕ) → ℕ → ℕ
le64 m a = le32 m a + 4294967296 * le32 m (a + 4)

-- A table at an address, of the length in its header.
abbrev pub table_at : (ℕ → ℕ) → ℕ → Table
table_at m addr = record { bytes = λ j. m (addr + j); len = le32 m (addr + 4) }

-- What `n` bytes from the index `k` on give to `f`.
abbrev pub within {ℓ} : {A : Type ℓ} → Table → ℕ → ℕ → Option A → Option A
within t k n o = if leb (k + n) t.len then o else none

abbrev pub add_cpu : ℕ → Acpi → Acpi
add_cpu apic_id g = record g {
  cpu_apic_ids = update g.cpu_apic_ids g.cpu_count apic_id;
  cpu_count = g.cpu_count + 1;
}

-- The entry 0, a local APIC.
pub local_apic : Table → ℕ → ℕ → Acpi → Option Acpi
local_apic t off elen g =
    if leb 8 elen
    then within t off 8 (
        some (
          if (le32 t.bytes (off + 4) % 2 == 1) && ltb g.cpu_count max_cpus
          then add_cpu (t.bytes (off + 3)) g
          else g))
    else some g

-- The entry 1, an IO-APIC.
pub io_apic : Table → ℕ → ℕ → Acpi → Option Acpi
io_apic t off elen g =
    if leb 12 elen
    then within t off 8
        (some (record g { io_apic_id = t.bytes (off + 2); io_apic_addr = le32 t.bytes (off + 4) }))
    else some g

-- The entry 5, another address of the local APIC.
pub lapic_override : Table → ℕ → ℕ → Acpi → Option Acpi
lapic_override t off elen g =
    if leb 12 elen
    then within t off 12 (
        some (
          if le64 t.bytes (off + 4) == 0
          then g
          else record g { lapic_base = le64 t.bytes (off + 4) }))
    else some g

pub parse_entry : Table → ℕ → ℕ → ℕ → Acpi → Option Acpi
parse_entry t off etype elen g =
    if etype == 0
    then local_apic t off elen g
    else if etype == 1
    then io_apic t off elen g
    else if etype == 5
    then lapic_override t off elen g
    else some g

-- The loop over the entries; `none` is also lack of fuel.
pub parse_entries : ℕ → Table → ℕ → Acpi → Option Acpi
parse_entries zero t off g = none
parse_entries (suc fuel) t off g =
    let elen = t.bytes (off + 1) in
    if leb (off + 2) t.len
    then if ltb elen 2 || ltb t.len (off + elen)
      then some g
      else elim (parse_entry t off (t.bytes off) elen g) [
        | none ↦ none
        | some h ↦ parse_entries fuel t (off + elen) h
      ]
    else some g

-- The fuel is the length of the table.
pub parse_madt : Table → Acpi → Option Acpi
parse_madt t g =
    if ltb t.len 48
    then some g
    else parse_entries t.len t 44
        (record g { lapic_base = le32 t.bytes 36; pcat_compat = le32 t.bytes 40 % 2 == 1 })

-- The name `\_S5` at the index `i`, as the source spells it.
pub is_s5 : Table → ℕ → Bool
is_s5 t i =
    ltb (i + 5) t.len
    && ((t.bytes (i + 1) == b'_')
        && ((t.bytes (i + 2) == b'S') && ((t.bytes (i + 3) == b'5') && (t.bytes (i + 4) == 0x00))))

-- The second of the two integers.
abbrev pub second_integer : Table → ℕ → Acpi → Acpi
second_integer t offset g =
    if ltb offset t.len && ((t.bytes offset == 0x0A) && ltb (offset + 1) t.len)
    then record g { slp_typ_b = t.bytes (offset + 1) }
    else g

-- The two integers of the package from `offset` on; each read stands behind its test.
abbrev pub integers : Table → ℕ → Acpi → Acpi
integers t offset g =
    if ltb offset t.len && (t.bytes offset == 0x0A)
    then if ltb (offset + 1) t.len
      then second_integer t (offset + 2) (record g { slp_typ_a = t.bytes (offset + 1) })
      else second_integer t (offset + 1) g
    else second_integer t offset g

-- The package after the name at the index `i`.
pub package_at : Table → ℕ → Acpi → Acpi
package_at t i g =
    if (t.bytes (i + 5) == 0x12)
      && (ltb (i + 6 + 2) t.len && leb (i + 6 + 1 + t.bytes (i + 6)) t.len)
    then integers t (i + 7) g
    else g

-- `for i in from..from + left`
pub find_s5 : ℕ → Table → ℕ → Acpi → Option Acpi
find_s5 zero t i g = some g
find_s5 (suc left) t i g =
    let rest = find_s5 left t (i + 1) g in
    within t i 1 (if (t.bytes i == 0x08) && is_s5 t i then some (package_at t i g) else rest)

pub parse_s5 : Table → Acpi → Option Acpi
parse_s5 t g = find_s5 (sub64 t.len 20) t 0 g

-- `ptr::read_unaligned(addr as *const [u8; n])` against a text.
abbrev pub matches : (ℕ → ℕ) → ℕ → List ℕ → Bool
matches m a [] = true
matches m a (c ∷ cs) = (m a == c) && matches m (a + 1) cs

abbrev pub rsdp_sig : List ℕ
rsdp_sig = b'R' ∷ b'S' ∷ b'D' ∷ b' ' ∷ b'P' ∷ b'T' ∷ b'R' ∷ b' ' ∷ []

-- `while addr < bios_end`, in `left` steps of 16.
pub find_rsdp : ℕ → (ℕ → ℕ) → ℕ → Option ℕ
find_rsdp zero m addr = none
find_rsdp (suc left) m addr =
    let rest = find_rsdp left m (addr + 16) in if matches m addr rsdp_sig then some addr else rest

-- The sum of `n` bytes in a byte that wraps.
pub checksum : (ℕ → ℕ) → ℕ → ℕ → ℕ
checksum m a zero = 0
checksum m a (suc n) = (checksum m a n + m (a + n)) % 256

abbrev pub rsdp_len : (ℕ → ℕ) → ℕ → ℕ
rsdp_len m rsdp = if leb 2 (m (rsdp + 15)) then le32 m (rsdp + 20) else 20

-- The FADT: the port, and the search in the DSDT.
pub parse_fadt : (ℕ → ℕ) → ℕ → Acpi → Option Acpi
parse_fadt m fadt g =
    let h = record g { pm1a_cnt_blk = le32 m (fadt + 64) } in
    let x_dsdt_addr = le64 m (fadt + 140) in
    let dsdt_addr = if x_dsdt_addr == 0 then le32 m (fadt + 40) else x_dsdt_addr in
    if not (dsdt_addr == 0) && is_mapped dsdt_addr
    then parse_s5 (table_at m dsdt_addr) h
    else some h

-- One entry of the walk; the Boolean is `fadt_found`.
pub visit : (ℕ → ℕ) → ℕ → Bool → Acpi → Option (Bool × Acpi)
visit m entry found g =
    if (entry == 0) || not (is_mapped entry)
    then some (found, g)
    else if matches m entry (b'A' ∷ b'P' ∷ b'I' ∷ b'C' ∷ [])
    then elim (parse_madt (table_at m entry) g) [ none ↦ none | some h ↦ some (found, h) ]
    else if matches m entry (b'F' ∷ b'A' ∷ b'C' ∷ b'P' ∷ [])
    then elim (parse_fadt m entry g) [ none ↦ none | some h ↦ some (true, h) ]
    else some (found, g)

-- `for i in 0..num_entries`, from the address of the entry `i` on.
pub walk : ℕ → (ℕ → ℕ) → Bool → ℕ → Bool → Acpi → Option (Bool × Acpi)
walk zero m is_xsdt addr found g = some (found, g)
walk (suc left) m is_xsdt addr found g =
    elim (visit m (if is_xsdt then le64 m addr else le32 m addr) found g) [
      | none ↦ none
      | some r ↦ walk left m is_xsdt (addr + (if is_xsdt then 8 else 4)) r.0 r.1
    ]

-- The walk over the XSDT or the RSDT, and its result.
pub walk_sdt : (ℕ → ℕ) → Bool → ℕ → Acpi → Option Acpi
walk_sdt m is_xsdt sdt g =
    let entry_size = if is_xsdt then 8 else 4 in
    let num_entries = sub64 (le32 m (sdt + 4)) 36 / entry_size in
    elim (walk num_entries m is_xsdt (sdt + 36) false g) [
      | none ↦ none
      | some r ↦ some (if r.0 then record (r.1) { acpi_ready = true } else r.1)
    ]

abbrev pub init_from : (ℕ → ℕ) → ℕ → Acpi → Option Acpi
init_from m rsdp g =
    let is_xsdt = leb 2 (m (rsdp + 15)) && not (le64 m (rsdp + 24) == 0) in
    let sdt = if is_xsdt then le64 m (rsdp + 24) else le32 m (rsdp + 16) in
    if not (checksum m rsdp (rsdp_len m rsdp) == 0)
    then some g
    else if is_mapped sdt
    then walk_sdt m is_xsdt sdt g
    else some g

pub init : (ℕ → ℕ) → Acpi → Option Acpi
init m g = elim (find_rsdp 8192 m 0xE0000) [ none ↦ some g | some rsdp ↦ init_from m rsdp g ]

-- The writes to ports, in their order.
pub shutdown : Acpi → List (ℕ × ℕ)
shutdown g =
    let val = (g.slp_typ_a * 4 + 8192) % 65536 in
    let port = g.pm1a_cnt_blk % 65536 in
    if not (g.pm1a_cnt_blk == 0) && g.acpi_ready
    then (port, val % 256) ∷ ((port + 1) % 65536, val / 256 % 256) ∷ (0x501, 0x31) ∷ []
    else (0x501, 0x31) ∷ []
