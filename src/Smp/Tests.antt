-- ===== src/Smp/Tests.antt =====
-- The theorems of src/hal/smp.rs at a trampoline of 76 bytes.
use planck_os.Prelude.{
  ℕ, ◌+◌, ◌*◌, ◌/◌, ◌%◌, ◌^◌, ◌≤◌, ◌<◌, ◌≡◌, refl, true, false, some, List, [], ◌++◌, arith,
}
use planck_os.Prelude.{◌^◌, replicate}
use planck_os.Idt.{no_entry}
use planck_os.Smp.{
  Offsets, m_cr3, m_gdt, m_idt, m_stack, m_cpu, m_entry, begins_with, find_marker, find_offsets,
  private_copy, tss_desc_lo,
}
use planck_os.Smp.Segments.{descriptor_base, descriptor_limit, descriptor_type, tss_desc_lo-fields}
use planck_os.Smp.Doorbell.{
  Bell, Steps, done, more, ipi, read, fresh, owed, handle_ipi, flag_read, interrupts, Steps-bounded,
}
use planck_os.Smp.Boot.{Board, Machine, PerCpu, boot_ap}
use planck_os.Smp.Boot.Started.{Started, spans, within, disjoint, boot_ap-Started}

tss_desc_lo-fields_example :
    (descriptor_base (tss_desc_lo 0x123456789ABC 103) (0x123456789ABC / 2 ^ 32) ≡ 0x123456789ABC)
    × (descriptor_limit (tss_desc_lo 0x123456789ABC 103) ≡ 103)
    × (descriptor_type (tss_desc_lo 0x123456789ABC 103) ≡ 0x89)
    × (tss_desc_lo 0x123456789ABC 103 / 2 ^ 52 % 2 ^ 4 ≡ 0)
    × (tss_desc_lo 0x123456789ABC 103 < 2 ^ 64)
tss_desc_lo-fields_example = tss_desc_lo-fields 0x123456789ABC 103 (omega arith)

-- The doorbell has rung, and the loop has read the flag.
abbrev seen : Bell
seen = record (handle_ipi fresh) { place = flag_read true }

seen-Steps : Steps fresh seen
seen-Steps = more (more (done fresh) (ipi fresh)) (read (handle_ipi fresh) refl)

Steps-bounded_example :
    (seen.ipi_count ≡ interrupts seen-Steps % 2 ^ 64)
    × (seen.logged + owed seen.place seen.ipi_flag ≤ interrupts seen-Steps)
Steps-bounded_example = Steps-bounded seen seen-Steps

abbrev slot : ℕ → List ℕ
slot n = replicate n 0

abbrev trampoline : List ℕ
trampoline =
    m_cr3
    ++ (slot 8
        ++ (m_gdt
            ++ (slot 10
                ++ (m_idt
                    ++ (slot 10
                        ++ (m_stack ++ (slot 8 ++ (m_cpu ++ (slot 8 ++ (m_entry ++ slot 8))))))))))

abbrev offsets : Offsets
offsets = record { o_cr3 = 4; o_gdt = 16; o_idt = 30; o_stack = 44; o_cpu = 56; o_entry = 68 }

abbrev board : Board
board = record {
  cpu_count = 2;
  cpu_apic_ids = λ i. i * 2;
  idt_at = λ i. 0x110000 + i * 0x2000;
  gdt_at = λ i. 0x111000 + i * 0x2000;
  tss_at = λ i. 0x111038 + i * 0x2000;
  isr = λ n. 0x100000 + n * 16;
  entry = 0x104000;
  cr3 = 0x1000;
  trampoline = trampoline;
  fuel = 1;
  icr = λ k. 0;
}

abbrev no_cpu : PerCpu
no_cpu = record {
  idt = λ i. no_entry;
  gdt = λ i. 0;
  tss = λ i. 0;
  stack_top = 0;
  apic_id = 0;
  index = 0;
  state = 0;
  ipi_count = 0;
  ipi_flag = false;
}

abbrev machine : Machine
machine = record {
  cpus = λ i. no_cpu;
  apic = record {
    ready = true;
    bsp_apic_id = 0;
    ioapic_base = 0xFEC00000;
    io = λ r. 0;
    ticks_per_ms = 0;
    msr = 0;
    outs = [];
    reads = 0;
    writes = [];
  };
  mem = λ a. 0;
}

markers_found : find_offsets (private_copy trampoline) ≡ some offsets
unfolding find_offsets find_marker begins_with
markers_found = refl

slots_fit : within 4096 (spans offsets) ≡ true
slots_fit = refl

slots_separate : disjoint (spans offsets) ≡ true
slots_separate = refl

boot_ap-Started_example :
    Started board offsets 1 0x210000 5 machine (boot_ap board 1 0x210000 machine)
boot_ap-Started_example =
    boot_ap-Started board offsets 1 0x210000 5 machine (λ h. omega arith) markers_found slots_fit
      slots_separate (λ k. (0, omega arith, refl)) (omega arith)
