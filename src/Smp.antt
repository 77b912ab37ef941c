-- ===== src/Smp.antt =====
-- The start of the other cores in src/hal/smp.rs: the per-core tables, the trampoline that is
-- patched for a core, and the doorbell that the idle loop waits for. A blob is the list of its
-- bytes; the trampoline that the build assembles is a parameter, as are the addresses of the static
-- tables.
pub mod Trampoline
pub mod Segments
pub mod Doorbell
pub mod Boot
mod Tests
use planck_os.Prelude.{
  bind, ℕ, zero, suc, ◌+◌, ◌-◌, ◌*◌, ◌/◌, ◌%◌, ◌^◌, Bool, true, false, Option, none, some, ◌==◌,
  if◌then◌else◌, List, [], ◌∷◌, ◌++◌, length, take,
}
use planck_os.Prelude.{◌^◌, replicate}

abbrev pub stack_size : ℕ
stack_size = 0x8000

abbrev pub ipi_vector : ℕ
ipi_vector = 0x40

abbrev pub state_running : ℕ
state_running = 2

-- The bytes of a number, the lowest first: `to_le_bytes` of `n` bytes.
pub le_bytes : ℕ → ℕ → List ℕ
le_bytes zero v = []
le_bytes (suc n) v = v % 256 ∷ le_bytes n (v / 256)

abbrev pub m_cr3 : List ℕ
m_cr3 = 0xDE ∷ 0xAD ∷ 0xBE ∷ 0xEF ∷ []

abbrev pub m_gdt : List ℕ
m_gdt = 0xCA ∷ 0xFE ∷ 0xBA ∷ 0xBE ∷ []

abbrev pub m_idt : List ℕ
m_idt = 0x01 ∷ 0x23 ∷ 0x45 ∷ 0x67 ∷ []

abbrev pub m_stack : List ℕ
m_stack = 0x89 ∷ 0xAB ∷ 0xCD ∷ 0xEF ∷ []

abbrev pub m_cpu : List ℕ
m_cpu = 0xFE ∷ 0xDC ∷ 0xBA ∷ 0x98 ∷ []

abbrev pub m_entry : List ℕ
m_entry = 0x76 ∷ 0x54 ∷ 0x32 ∷ 0x10 ∷ []

pub begins_with : List ℕ → List ℕ → Bool
begins_with [] xs = true
begins_with (m ∷ ms) [] = false
begins_with (m ∷ ms) (x ∷ xs) = let rest = begins_with ms xs in if m == x then rest else false

-- The index behind the marker's first place; `none` is the panic "trampoline marker not found".
pub find_marker : List ℕ → List ℕ → Option ℕ
find_marker [] marker = none
find_marker (c ∷ cs) marker =
    let rest = bind (find_marker cs marker) (λ i. some (suc i)) in
    if begins_with marker (c ∷ cs) then some 4 else rest

-- `blob[off..off + bytes.len()].copy_from_slice(bytes)`; `none` is a panic.
pub overwrite : List ℕ → List ℕ → Option (List ℕ)
overwrite [] blob = some blob
overwrite (b ∷ bs) [] = none
overwrite (b ∷ bs) (c ∷ cs) = bind (overwrite bs cs) (λ r. some (b ∷ r))

pub write_at : ℕ → List ℕ → List ℕ → Option (List ℕ)
write_at zero bytes blob = overwrite bytes blob
write_at (suc off) bytes [] = none
write_at (suc off) bytes (c ∷ cs) = bind (write_at off bytes cs) (λ r. some (c ∷ r))

abbrev pub write_u16 : ℕ → ℕ → List ℕ → Option (List ℕ)
write_u16 off val blob = write_at off (le_bytes 2 val) blob

abbrev pub write_u64 : ℕ → ℕ → List ℕ → Option (List ℕ)
write_u64 off val blob = write_at off (le_bytes 8 val) blob

-- The fields of the shifted values do not overlap, so `|=` adds them.
pub tss_desc_lo : ℕ → ℕ → ℕ
tss_desc_lo base limit =
    limit % 2 ^ 16
    + base % 2 ^ 16 * 2 ^ 16
    + base / 2 ^ 16 % 2 ^ 8 * 2 ^ 32
    + 0x89 * 2 ^ 40
    + limit / 2 ^ 16 % 2 ^ 4 * 2 ^ 48
    + base / 2 ^ 24 % 2 ^ 8 * 2 ^ 56

-- The addresses and values of a core that go into its copy of the trampoline.
pub record Slots : Type 0 where
  pub cr3 : ℕ
  pub gdt_base : ℕ
  pub idt_base : ℕ
  pub stack_top : ℕ
  pub cpu : ℕ
  pub entry : ℕ

-- The offsets behind the six markers.
pub record Offsets : Type 0 where
  pub o_cr3 : ℕ
  pub o_gdt : ℕ
  pub o_idt : ℕ
  pub o_stack : ℕ
  pub o_cpu : ℕ
  pub o_entry : ℕ

-- `blob[..n].copy_from_slice(&TRAMPOLINE[..n])` over 4096 zeros.
abbrev pub private_copy : List ℕ → List ℕ
private_copy trampoline = take 4096 trampoline ++ replicate (4096 - length trampoline) 0

pub find_offsets : List ℕ → Option Offsets
find_offsets blob = bind (find_marker blob m_cr3) (λ cr3. bind (find_marker blob m_gdt) (λ gdt.
    bind (find_marker blob m_idt) (λ idt. bind (find_marker blob m_stack) (λ stack.
      bind (find_marker blob m_cpu) (λ cpu. bind (find_marker blob m_entry) (λ entry. some (record {
        o_cr3 = cr3;
        o_gdt = gdt;
        o_idt = idt;
        o_stack = stack;
        o_cpu = cpu;
        o_entry = entry;
      })))))))

-- A write of bytes at an offset.
abbrev pub Patch : Type 0
Patch = ℕ × List ℕ

-- The limits are `size_of::<[u64; 7]>() - 1` and `size_of::<[IdtEntry; 256]>() - 1`.
abbrev pub patches : Offsets → Slots → List Patch
patches o s =
    (o.o_cr3, le_bytes 8 s.cr3)
    ∷ (o.o_gdt, le_bytes 2 55)
    ∷ (o.o_gdt + 2, le_bytes 8 s.gdt_base)
    ∷ (o.o_idt, le_bytes 2 4095)
    ∷ (o.o_idt + 2, le_bytes 8 s.idt_base)
    ∷ (o.o_stack, le_bytes 8 s.stack_top)
    ∷ (o.o_cpu, le_bytes 8 s.cpu)
    ∷ (o.o_entry, le_bytes 8 s.entry)
    ∷ []

pub write_all : List Patch → List ℕ → Option (List ℕ)
write_all [] blob = some blob
write_all ((off, bytes) ∷ ps) blob = bind (write_at off bytes blob) (write_all ps)

-- The trampoline of a core, before it is copied to 0x8000.
pub patch : Slots → List ℕ → Option (List ℕ)
patch s trampoline =
    let blob = private_copy trampoline in
    bind (find_offsets blob) (λ o. write_all (patches o s) blob)
