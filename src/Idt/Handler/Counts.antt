-- ===== src/Idt/Handler/Counts.antt =====
-- What a sequence of interrupts does through `idt_handler` of src/hal/idt.rs.
use planck_os.Prelude.{
  ℕ, zero, suc, ◌+◌, ◌%◌, ◌^◌, ◌≡◌, refl, ap, ◌∙◌, List, [], ◌∷◌, ◌++◌, length, arith, eq→==,
}
use planck_os.Prelude.{◌^◌, replicate}
use planck_os.Input.{irq1_handler}
unfoldable use planck_os.Input.{run_irqs}
use planck_os.Apic.{reg_eoi}
unfoldable use planck_os.Apic.{lapic_write}
use planck_os.Smp.Boot.{Machine}
unfoldable use planck_os.Smp.Boot.{handle_ipi}
use planck_os.Idt.Handler.{Kernel, Handled, resumes, halts, idt_handler, acknowledge}

-- An interrupt of a device, or of another core.
pub data Interrupt : Type 0 where
  tick : Interrupt
  key : ℕ → Interrupt
  bell : Interrupt

abbrev pub vector_of : Interrupt → ℕ
vector_of tick = 32
vector_of (key scancode) = 33
vector_of bell = 64

abbrev pub scancode_of : Interrupt → ℕ
scancode_of (key scancode) = scancode
scancode_of i = 0

-- The interrupts one after the other, each from where the last has returned.
pub interrupts : ℕ → List Interrupt → Kernel → Handled
interrupts cpu [] k = resumes k
interrupts cpu (i ∷ is) k = elim (idt_handler cpu (scancode_of i) 0 0 (vector_of i) 0 k) [
  | resumes k' ↦ interrupts cpu is k'
  | halts logs text ↦ halts logs text
]

abbrev pub ticks : List Interrupt → ℕ
ticks [] = 0
ticks (tick ∷ is) = suc (ticks is)
ticks (key scancode ∷ is) = ticks is
ticks (bell ∷ is) = ticks is

abbrev pub bells : List Interrupt → ℕ
bells [] = 0
bells (tick ∷ is) = bells is
bells (key scancode ∷ is) = bells is
bells (bell ∷ is) = suc (bells is)

abbrev pub scancodes : List Interrupt → List ℕ
scancodes [] = []
scancodes (tick ∷ is) = scancodes is
scancodes (key scancode ∷ is) = scancode ∷ scancodes is
scancodes (bell ∷ is) = scancodes is

pub record Counted (cpu : ℕ) (is : List Interrupt) (k : Kernel) (r : Handled) : Type 0 where
  pub after : Kernel
  pub returns : r ≡ resumes after
  pub ticked : after.tick_count % 2 ^ 64 ≡ (k.tick_count + ticks is) % 2 ^ 64
  pub typed : after.keyboard ≡ run_irqs (scancodes is) k.keyboard
  pub rung :
      (after.machine.cpus cpu).ipi_count % 2 ^ 64
      ≡ ((k.machine.cpus cpu).ipi_count + bells is) % 2 ^ 64
  pub acknowledged :
      after.machine.apic.writes ≡ replicate (length is) (reg_eoi, 0) ++ k.machine.apic.writes

replicate-move :
    {A : Type 0} (n : ℕ) (a : A) (xs : List A)
    → replicate n a ++ (a ∷ xs) ≡ a ∷ (replicate n a ++ xs)
replicate-move zero a xs = refl
replicate-move (suc n) a xs = ap (λ ys. a ∷ ys) (replicate-move n a xs)

ring_count :
    (cpu : ℕ) (m : Machine) (n : ℕ) {r : ℕ}
    → r ≡ (((handle_ipi cpu m).cpus cpu).ipi_count + n) % 2 ^ 64
    → r ≡ ((m.cpus cpu).ipi_count + suc n) % 2 ^ 64
unfolding handle_ipi
ring_count cpu m n h = h ∙ rw (eq→== cpu cpu refl) (omega arith)

-- On every core, in every sequence of timer, keyboard and doorbell interrupts, each handler
-- returns. The ticks grow by the timer's interrupts and the core's count of the doorbell by the
-- doorbell's, both as 64-bit numbers; the keyboard has been given the scancodes in their order; and
-- each interrupt has been acknowledged once.
pub interrupts-Counted :
    (cpu : ℕ) (is : List Interrupt) (k : Kernel) → Counted cpu is k (interrupts cpu is k)
unfolding interrupts idt_handler run_irqs lapic_write handle_ipi
interrupts-Counted cpu [] k = record {
  after = k;
  returns = refl;
  ticked = omega arith;
  typed = refl;
  rung = omega arith;
  acknowledged = refl;
}
interrupts-Counted cpu (tick ∷ is) k =
    let c =
      interrupts-Counted cpu is
        (record k { tick_count = (k.tick_count + 1) % 2 ^ 64; machine = acknowledge k.machine }) in
    record {
      after = c.after;
      returns = c.returns;
      ticked = omega (arith, c.ticked);
      typed = c.typed;
      rung = c.rung;
      acknowledged = c.acknowledged ∙ replicate-move (length is) (reg_eoi, 0) k.machine.apic.writes;
    }
interrupts-Counted cpu (key scancode ∷ is) k =
    let c =
      interrupts-Counted cpu is (record k {
        keyboard = irq1_handler scancode k.keyboard;
        machine = acknowledge k.machine;
      }) in
    record {
      after = c.after;
      returns = c.returns;
      ticked = c.ticked;
      typed = c.typed;
      rung = c.rung;
      acknowledged = c.acknowledged ∙ replicate-move (length is) (reg_eoi, 0) k.machine.apic.writes;
    }
interrupts-Counted cpu (bell ∷ is) k =
    let c =
      interrupts-Counted cpu is (record k { machine = acknowledge (handle_ipi cpu k.machine) }) in
    record {
      after = c.after;
      returns = c.returns;
      ticked = c.ticked;
      typed = c.typed;
      rung = ring_count cpu k.machine (bells is) (c.rung);
      acknowledged = c.acknowledged ∙ replicate-move (length is) (reg_eoi, 0) k.machine.apic.writes;
    }
