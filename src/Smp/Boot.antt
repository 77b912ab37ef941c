-- ===== src/Smp/Boot.antt =====
-- The per-core tables and the start of the other cores in src/hal/smp.rs. Log output and the delays
-- between the commands are left out. `none` is a panic, or a local APIC that does not become idle.
pub mod Started
use planck_os.Prelude.{
  bind, ℕ, zero, suc, ◌+◌, ◌-◌, ◌/◌, ◌%◌, ◌^◌, min, Bool, true, false, ◌&&◌, Option, some, ◌==◌,
  ltb, leb, if◌then◌else◌, update, List, [], ◌∷◌, length, get_or,
}
use planck_os.Prelude.{◌^◌}
use planck_os.Idt.{IdtEntry, build_idt_into}
use planck_os.Apic.{Apic, send_init, send_sipi, send_ipi}
use planck_os.Smp.{Slots, le_bytes, stack_size, state_running, ipi_vector, tss_desc_lo, patch}

pub record PerCpu : Type 0 where
  pub idt : ℕ → IdtEntry
  pub gdt : ℕ → ℕ
  pub tss : ℕ → ℕ
  pub stack_top : ℕ
  pub apic_id : ℕ
  pub index : ℕ
  pub state : ℕ
  pub ipi_count : ℕ
  pub ipi_flag : Bool

-- What the code finds: the list of cores, the addresses of the tables in `CPU_AREA`, of the stubs
-- and of `ap_main64`, the page table, the trampoline and the reads of the command register; `fuel`
-- bounds these.
pub record Board : Type 0 where
  pub cpu_count : ℕ
  pub cpu_apic_ids : ℕ → ℕ
  pub idt_at : ℕ → ℕ
  pub gdt_at : ℕ → ℕ
  pub tss_at : ℕ → ℕ
  pub isr : ℕ → ℕ
  pub entry : ℕ
  pub cr3 : ℕ
  pub trampoline : List ℕ
  pub fuel : ℕ
  pub icr : ℕ → ℕ

-- `CPU_AREA`, the local APIC, and the memory.
pub record Machine : Type 0 where
  pub cpus : ℕ → PerCpu
  pub apic : Apic
  pub mem : ℕ → ℕ

abbrev pub trampoline_base : ℕ
trampoline_base = 0x8000

-- The seven descriptors of a core.
abbrev pub gdt_words : ℕ → List ℕ
gdt_words tss_base =
    0
    ∷ 0x00CF9A000000FFFF
    ∷ 0x00CF92000000FFFF
    ∷ 0x00209A0000000000
    ∷ 0x0000920000000000
    ∷ tss_desc_lo tss_base 103
    ∷ tss_base / 2 ^ 32
    ∷ []

pub setup_cpu : Board → ℕ → Machine → Machine
setup_cpu b cpu m = record m {
  cpus = update m.cpus cpu (record (m.cpus cpu) {
    apic_id = b.cpu_apic_ids cpu;
    index = cpu;
    gdt = λ i. get_or (gdt_words (b.tss_at cpu)) i 0;
    idt = build_idt_into b.isr (m.cpus cpu).idt;
  });
}

-- `for i in i..i + left`
pub setup_from : Board → ℕ → ℕ → Machine → Machine
setup_from b zero i m = m
setup_from b (suc left) i m = setup_from b left (i + 1) (setup_cpu b i m)

abbrev pub set_state : ℕ → ℕ → Machine → Machine
set_state cpu v m = record m { cpus = update m.cpus cpu (record (m.cpus cpu) { state = v }) }

-- `tss[4..12].copy_from_slice(...)`, and the field of the stack.
abbrev pub set_stack : ℕ → ℕ → Machine → Machine
set_stack cpu stack_top m = record m {
  cpus = update m.cpus cpu (record (m.cpus cpu) {
    stack_top = stack_top;
    tss = λ j.
        if leb 4 j && ltb j 12 then get_or (le_bytes 8 stack_top) (j - 4) 0 else (m.cpus cpu).tss j;
  });
}

-- `copy_nonoverlapping(blob.as_ptr(), TRAMPOLINE_BASE, n)`
abbrev pub place_blob : List ℕ → ℕ → Machine → Machine
place_blob blob n m = record m {
  mem = λ a.
      if leb trampoline_base a && ltb a (trampoline_base + n)
      then get_or blob (a - trampoline_base) 0
      else m.mem a;
}

abbrev pub slots_of : Board → ℕ → ℕ → Slots
slots_of b cpu stack_top = record {
  cr3 = b.cr3;
  gdt_base = b.gdt_at cpu;
  idt_base = b.idt_at cpu;
  stack_top = stack_top;
  cpu = cpu;
  entry = b.entry;
}

-- INIT, then two SIPIs for the page of the trampoline.
pub wake : Board → ℕ → Apic → Option Apic
wake b id a =
    bind (send_init b.fuel b.icr id a)
      (λ a. bind (send_sipi b.fuel b.icr id 0x08 a) (send_sipi b.fuel b.icr id 0x08))

-- `stk` is the stack that the heap gives, 0 if it has none. What follows the commands is a wait.
pub boot_ap : Board → ℕ → ℕ → Machine → Option Machine
boot_ap b cpu stk m =
    let stack_top = stk + stack_size in
    let ready = set_stack cpu stack_top m in
    let started = bind (patch (slots_of b cpu stack_top) b.trampoline) (λ blob.
      let placed = place_blob blob (min (length b.trampoline) 4096) ready in
      bind (wake b (b.cpu_apic_ids cpu) placed.apic) (λ a. some (record placed { apic = a }))) in
    if stk == 0 then some m else started

-- `ap_main64` of a core that comes online sets its state.
abbrev pub comes_online : Bool → ℕ → Machine → Machine
comes_online true cpu m = set_state cpu state_running m
comes_online false cpu m = m

-- `for i in i..i + left`: the stacks that the heap gives, and which cores come online.
pub boot_from : Board → (ℕ → ℕ) → (ℕ → Bool) → ℕ → ℕ → Machine → Option Machine
boot_from b stacks online zero i m = some m
boot_from b stacks online (suc left) i m =
    bind (boot_ap b i (stacks i) m)
      (λ m'. boot_from b stacks online left (i + 1) (comes_online (online i) i m'))

abbrev pub ping : Board → Machine → Option Machine
ping b m =
    let sent =
      bind (send_ipi b.fuel b.icr (b.cpu_apic_ids 1) ipi_vector m.apic)
        (λ a. some (record m { apic = a })) in
    if (m.cpus 1).state == state_running then sent else some m

pub init : Board → (ℕ → ℕ) → (ℕ → Bool) → Machine → Option Machine
init b stacks online m =
    let own = set_state 0 state_running (setup_from b b.cpu_count 0 m) in
    let others = bind (boot_from b stacks online (b.cpu_count - 1) 1 own) (ping b) in
    if b.cpu_count == 0 then some m else if ltb b.cpu_count 2 then some own else others

-- `handle_ipi` on the core `idx`.
unfoldable pub handle_ipi : ℕ → Machine → Machine
handle_ipi idx m = record m {
  cpus =
      update m.cpus idx (record (m.cpus idx) {
        ipi_count = ((m.cpus idx).ipi_count + 1) % 2 ^ 64;
        ipi_flag = true;
      });
}
