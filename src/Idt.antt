-- ===== src/Idt.antt =====
-- The interrupt descriptor table of src/hal/idt.rs. The addresses of the entry stubs, which are
-- assembly, are a parameter: `isr n` is that of `isr_n`.
pub mod Gates
pub mod Handler
mod Tests
use planck_os.Prelude.{ℕ, ◌-◌, ◌*◌, ◌/◌, ◌%◌, ◌^◌, update, List, [], ◌∷◌}
use planck_os.Prelude.{◌^◌}

pub record IdtEntry : Type 0 where
  pub offset_low : ℕ
  pub selector : ℕ
  pub ist : ℕ
  pub flags : ℕ
  pub offset_mid : ℕ
  pub offset_high : ℕ
  pub reserved : ℕ

-- `IdtEntry::zero`
abbrev pub no_entry : IdtEntry
no_entry = record {
  offset_low = 0;
  selector = 0;
  ist = 0;
  flags = 0;
  offset_mid = 0;
  offset_high = 0;
  reserved = 0;
}

abbrev pub gdt_code64 : ℕ
gdt_code64 = 0x18

abbrev pub idt_intr_gate : ℕ
idt_intr_gate = 0x8E

abbrev pub timer_vector : ℕ
timer_vector = 0x20

abbrev pub kbd_vector : ℕ
kbd_vector = 0x21

abbrev pub ipi_vector : ℕ
ipi_vector = 0x40

pub set_entry : ℕ → ℕ → (ℕ → IdtEntry) → (ℕ → IdtEntry)
set_entry num handler idt = update idt num (record {
  offset_low = handler % 2 ^ 16;
  selector = gdt_code64;
  ist = 0;
  flags = idt_intr_gate;
  offset_mid = handler / 2 ^ 16 % 2 ^ 16;
  offset_high = handler / 2 ^ 32 % 2 ^ 32;
  reserved = 0;
})

-- The vectors that have a stub, in the order in which they are set; the stub has the vector's
-- number.
abbrev pub vectors : List ℕ
vectors =
    0 ∷ 1 ∷ 2 ∷ 3 ∷ 4 ∷ 5 ∷ 6 ∷ 7 ∷ 8 ∷ 9 ∷ 10 ∷ 11 ∷ 12 ∷ 13 ∷ 14 ∷ 15 ∷ 16 ∷ 17 ∷ 18 ∷ 19 ∷ 20
    ∷ timer_vector ∷ kbd_vector ∷ ipi_vector ∷ []

-- `set_isr!(n, isr_n)` for each of the vectors.
pub set_isrs : (ℕ → ℕ) → List ℕ → (ℕ → IdtEntry) → (ℕ → IdtEntry)
set_isrs isr [] idt = idt
set_isrs isr (n ∷ ns) idt = set_isrs isr ns (set_entry n (isr n) idt)

pub build_idt_into : (ℕ → ℕ) → (ℕ → IdtEntry) → (ℕ → IdtEntry)
build_idt_into isr idt = set_isrs isr vectors idt

pub record Idtr : Type 0 where
  pub limit : ℕ
  pub base : ℕ

-- What `lidt` is given: `size_of::<IdtEntry>()` is 16.
abbrev pub idtr_of : ℕ → Idtr
idtr_of base = record { limit = (16 * 256 - 1) % 2 ^ 16; base = base }
