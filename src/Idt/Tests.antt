-- ===== src/Idt/Tests.antt =====
-- The theorems of src/hal/idt.rs at stubs of 16 bytes each.
use planck_os.Prelude.{ℕ, ◌+◌, ◌*◌, ◌≡◌, ◌⊎◌, true, false, [], ◌∷◌, arith}
use planck_os.Input.{Keyboard}
use planck_os.Smp.Boot.{PerCpu}
use planck_os.Idt.{no_entry, build_idt_into}
use planck_os.Idt.Gates.{has_stub, Gate, build_idt_into-gates}
use planck_os.Idt.Handler.{Kernel}
use planck_os.Idt.Handler.Counts.{tick, key, bell, interrupts, Counted, interrupts-Counted}

abbrev isr : ℕ → ℕ
isr n = 0xFFFF800000100000 + n * 16

build_idt_into-gates_example :
    ((has_stub 33 ≡ true) × Gate (isr 33) (build_idt_into isr (λ i. no_entry) 33))
    ⊎ ((has_stub 33 ≡ false) × (build_idt_into isr (λ i. no_entry) 33 ≡ no_entry))
build_idt_into-gates_example = build_idt_into-gates isr (λ i. no_entry) 33 (omega arith)

abbrev keyboard : Keyboard
keyboard = record {
  kb_buf = record { buf = λ j. 0; head = 0; tail = 0 };
  shift = 0;
  ctrl = 0;
  extended = false;
  release = false;
}

abbrev core : PerCpu
core = record {
  idt = λ i. no_entry;
  gdt = λ i. 0;
  tss = λ i. 0;
  stack_top = 0;
  apic_id = 0;
  index = 0;
  state = 0;
  ipi_count = 0;
  ipi_flag = false;
}

abbrev kernel : Kernel
kernel = record {
  tick_count = 7;
  keyboard = keyboard;
  machine = record {
    cpus = λ i. core;
    apic = record {
      ready = true;
      bsp_apic_id = 0;
      ioapic_base = 0xFEC00000;
      io = λ r. 0;
      ticks_per_ms = 0;
      msr = 0;
      outs = [];
      reads = 0;
      writes = [];
    };
    mem = λ a. 0;
  };
}

interrupts-Counted_example :
    Counted 0
      (tick ∷ key 0x1C ∷ bell ∷ [])
      kernel
      (interrupts 0 (tick ∷ key 0x1C ∷ bell ∷ []) kernel)
interrupts-Counted_example = interrupts-Counted 0 (tick ∷ key 0x1C ∷ bell ∷ []) kernel
