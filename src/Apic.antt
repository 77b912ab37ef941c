-- ===== src/Apic.antt =====
-- The interrupt controllers of src/hal/apic.rs. The local APIC is what it gives at each read of its
-- command register, which is a parameter, and the list of the writes to its registers, the last one
-- first. The I/O APIC is its registers, behind the select register and the window. Interrupts are
-- counted by `TICK_COUNT`, whose growth in the windows of 100 ms is a parameter too.
pub mod Routes
pub mod Commands
pub mod Index
mod Tests
use planck_os.Prelude.{
  bind, ℕ, zero, suc, ◌+◌, ◌-◌, ◌*◌, ◌/◌, ◌%◌, ◌^◌, min, max, Bool, true, not, Option, none, some,
  ◌==◌, leb, if◌then◌else◌, update, List, ◌∷◌,
}
use planck_os.Prelude.{◌^◌}

-- `APIC_READY`, `BSP_APIC_ID`, `IOAPIC_BASE`, the registers of the I/O APIC there, `TICKS_PER_MS`,
-- the model-specific register 0x1B, the writes to ports, the reads of the command register so far,
-- and the writes to the local APIC.
pub record Apic : Type 0 where
  pub ready : Bool
  pub bsp_apic_id : ℕ
  pub ioapic_base : ℕ
  pub io : ℕ → ℕ
  pub ticks_per_ms : ℕ
  pub msr : ℕ
  pub outs : List (ℕ × ℕ)
  pub reads : ℕ
  pub writes : List (ℕ × ℕ)

abbrev pub reg_svr : ℕ
reg_svr = 0xF0

abbrev pub reg_eoi : ℕ
reg_eoi = 0xB0

abbrev pub reg_icr_lo : ℕ
reg_icr_lo = 0x300

abbrev pub reg_icr_hi : ℕ
reg_icr_hi = 0x310

abbrev pub reg_lvt_timer : ℕ
reg_lvt_timer = 0x320

abbrev pub reg_init_count : ℕ
reg_init_count = 0x380

abbrev pub reg_divide : ℕ
reg_divide = 0x3E0

abbrev pub timer_vector : ℕ
timer_vector = 0x20

unfoldable pub lapic_write : ℕ → ℕ → Apic → Apic
lapic_write reg val a = record a { writes = (reg, val) ∷ a.writes }

-- The register is selected, and the window written.
pub ioapic_write : ℕ → ℕ → Apic → Apic
ioapic_write reg val a = record a { io = update a.io reg val }

abbrev pub ioapic_read : ℕ → Apic → ℕ
ioapic_read reg a = a.io reg

-- `id_reg` is the identification register of the running core.
abbrev pub lapic_id : ℕ → ℕ
lapic_id id_reg = id_reg / 2 ^ 24 % 256

-- `svr | 0x100`, of a register with the bit clear or set.
abbrev pub with_enable : ℕ → ℕ
with_enable svr = if svr / 256 % 2 == 0 then svr + 256 else svr

pub enable_local : ℕ → Apic → Apic
enable_local svr a = lapic_write reg_svr (with_enable svr) a

-- `for i in i..i + left`
pub find_cpu : ℕ → ℕ → (ℕ → ℕ) → ℕ → Option ℕ
find_cpu zero i ids id = none
find_cpu (suc left) i ids id =
    let rest = find_cpu left (i + 1) ids id in if ids i == id then some i else rest

abbrev pub or_zero : Option ℕ → ℕ
or_zero none = 0
or_zero (some i) = i

pub current_cpu_index : Apic → ℕ → (ℕ → ℕ) → ℕ → ℕ
current_cpu_index a cpu_count ids id_reg =
    if not a.ready then 0 else or_zero (find_cpu cpu_count 0 ids (lapic_id id_reg))

-- `for i in i..i + left`
pub mask_from : ℕ → ℕ → Apic → Apic
mask_from zero i a = a
mask_from (suc left) i a =
    mask_from left (i + 1)
      (ioapic_write (0x10 + i * 2) (2 ^ 16) (ioapic_write (0x10 + i * 2 + 1) 0 a))

pub ioapic_mask_all : Apic → Apic
ioapic_mask_all a = mask_from (ioapic_read 1 a / 2 ^ 16 % 256 + 1) 0 a

pub ioapic_route : ℕ → ℕ → ℕ → Apic → Apic
ioapic_route irq vector dest a =
    ioapic_write (0x10 + irq * 2) vector (ioapic_write (0x10 + irq * 2 + 1) (dest * 2 ^ 24) a)

-- `svr | 0x100 | 0xFF`
abbrev pub with_spurious : ℕ → ℕ
with_spurious svr = with_enable (svr - svr % 256 + 255)

-- `rdmsr(0x1B)` with bit 11 set.
abbrev pub enable_msr : Apic → Apic
enable_msr a = record a { msr = if a.msr / 2 ^ 11 % 2 == 0 then a.msr + 2 ^ 11 else a.msr }

abbrev pub choose_base : ℕ → Apic → Apic
choose_base io_apic_addr a = record a {
  ioapic_base = if io_apic_addr == 0 then a.ioapic_base else io_apic_addr;
}

abbrev pub outb : ℕ → ℕ → Apic → Apic
outb port val a = record a { outs = (port, val) ∷ a.outs }

-- `init`, given the identification and the spurious-vector register and the address in the MADT.
pub init : ℕ → ℕ → ℕ → Apic → Apic
init id_reg svr io_apic_addr a =
    let bsp = lapic_id id_reg in
    let known = record (enable_msr a) { bsp_apic_id = bsp } in
    let enabled = choose_base io_apic_addr (lapic_write reg_svr (with_spurious svr) known) in
    let routed = ioapic_route 1 0x21 bsp (ioapic_mask_all enabled) in
    let masked = outb 0xA1 0xFF (outb 0x21 0xFF routed) in
    let armed = lapic_write reg_lvt_timer (0x20000 + timer_vector) masked in
    let counting = lapic_write reg_init_count 0xFFFFFFFF (lapic_write reg_divide 0x0B armed) in
    record counting { ready = true }

-- The rounds of `calibrate_hz`: `ticks k` interrupts come in the window of the round `k`.
pub calibrate_rounds : (ℕ → ℕ) → ℕ → ℕ → ℕ → Apic → ℕ × Apic
calibrate_rounds ticks zero k reload a = (reload, a)
calibrate_rounds ticks (suc left) k reload a =
    let written = lapic_write reg_init_count reload a in
    let hz = ticks k * 10 % 2 ^ 64 in
    let next = max (reload * hz % 2 ^ 64 / 1000) 1 % 2 ^ 32 in
    let rest = calibrate_rounds ticks left (k + 1) next written in
    if hz == 0 then (reload, written) else if next == reload then (reload, written) else rest

pub calibrate_hz : (ℕ → ℕ) → Apic → Apic
calibrate_hz ticks a =
    let r = calibrate_rounds ticks 6 0 0x01000000 a in
    record (lapic_write reg_init_count (r.0) (r.1)) { ticks_per_ms = r.0 }

abbrev pub verify_hz : ℕ → ℕ
verify_hz ticks = ticks * 10 % 2 ^ 64

abbrev pub eoi : Apic → Apic
eoi a = lapic_write reg_eoi 0 a

-- `start.wrapping_add(per_ms.saturating_mul(ms))`
abbrev pub delay_target : ℕ → ℕ → ℕ → ℕ
delay_target start per_ms ms = (start + min (per_ms * ms) (2 ^ 64 - 1)) % 2 ^ 64

-- The number of readings of the counter until one that is at the target; `none` is lack of fuel.
pub wait_until : ℕ → (ℕ → ℕ) → ℕ → ℕ → Option ℕ
wait_until zero rdtsc k target = none
wait_until (suc fuel) rdtsc k target =
    let rest = wait_until fuel rdtsc (k + 1) target in
    if leb target (rdtsc k) then some (k + 1) else rest

abbrev pub delay_ms : ℕ → (ℕ → ℕ) → ℕ → ℕ → Option ℕ
delay_ms fuel rdtsc per_ms ms = wait_until fuel rdtsc 1 (delay_target (rdtsc 0) per_ms ms)

-- `lapic_read(REG_ICR_LO) & (1 << 12) != 0` of what a read gives.
abbrev pub is_busy : ℕ → Bool
is_busy icr = not (icr / 2 ^ 12 % 2 == 0)

-- `icr k` is what the read `k` of the command register gives.
pub wait_icr_idle : ℕ → (ℕ → ℕ) → Apic → Option Apic
wait_icr_idle zero icr a = none
wait_icr_idle (suc fuel) icr a =
    let seen = record a { reads = a.reads + 1 } in
    let rest = wait_icr_idle fuel icr seen in if is_busy (icr a.reads) then rest else some seen

-- The body that the three commands share.
pub command : ℕ → (ℕ → ℕ) → ℕ → ℕ → Apic → Option Apic
command fuel icr apic_id word a = bind (wait_icr_idle fuel icr a) (λ b.
    wait_icr_idle fuel icr
      (lapic_write reg_icr_lo word (lapic_write reg_icr_hi (apic_id * 2 ^ 24) b)))

pub send_ipi : ℕ → (ℕ → ℕ) → ℕ → ℕ → Apic → Option Apic
send_ipi fuel icr apic_id vector a = command fuel icr apic_id vector a

pub send_init : ℕ → (ℕ → ℕ) → ℕ → Apic → Option Apic
send_init fuel icr apic_id a = command fuel icr apic_id 0x500 a

-- `0x600 | vector`, of a byte.
pub send_sipi : ℕ → (ℕ → ℕ) → ℕ → ℕ → Apic → Option Apic
send_sipi fuel icr apic_id vector a = command fuel icr apic_id (0x600 + vector) a
