-- ===== src/Smp/Boot/Started.antt =====
-- What a core that `boot_ap` of src/hal/smp.rs starts finds.
use planck_os.Prelude.{
  ℕ, ◌+◌, ◌-◌, ◌*◌, ◌^◌, ◌<◌, ◌≡◌, ◌≢◌, ◌≤◌, ◌⊎◌, ◌&&◌, ◌||◌, Bool, zero, suc, take, get_elem?, min,
  refl, ap, ◌∙◌, true, Option, some, ltb, leb, List, [], ◌∷◌, ◌++◌, length, get_or, arith, ne→==,
}
use planck_os.Prelude.{◌^◌, replicate}
use planck_os.Apic.{Apic, reg_icr_lo, reg_icr_hi}
use planck_os.Apic.Commands.{BecomesIdle, send-Sent}
use planck_os.Smp.{Offsets, Slots, find_offsets, le_bytes, private_copy, patches, stack_size}
use planck_os.Smp.Trampoline.Patches.{fits, separate, AllHold, Outside, patch-AllHold}
use planck_os.Smp.Trampoline.{Holds}
use planck_os.Smp.Boot.{Board, Machine, set_stack, place_blob, slots_of, wake, boot_ap}

abbrev pub command_words : ℕ → ℕ → List (ℕ × ℕ)
command_words id word = (reg_icr_lo, word) ∷ (reg_icr_hi, id * 2 ^ 24) ∷ []

wake-writes :
    (b : Board) (id : ℕ) (a : Apic)
    → BecomesIdle b.fuel b.icr
    → (d : Apic) × (wake b id a ≡ some d)
      × (d.writes
          ≡ command_words id 0x608
            ++ (command_words id 0x608 ++ (command_words id 0x500 ++ a.writes)))
unfolding wake
wake-writes b id a idle =
    let s₁ = (send-Sent b.fuel b.icr id 8 a idle).1 in
    let s₂ = (send-Sent b.fuel b.icr id 8 s₁.after idle).2 in
    let s₃ = (send-Sent b.fuel b.icr id 8 s₂.after idle).2 in
    (
      s₃.after,
      rw (s₁.ends, s₂.ends) s₃.ends,
      ap (λ (x : Apic). x.writes) s₃.only_sends
          ∙ ap (λ ws. command_words id 0x608 ++ ws)
              (ap (λ (x : Apic). x.writes) s₂.only_sends
                ∙ ap (λ ws. command_words id 0x608 ++ ws)
                    (ap (λ (x : Apic). x.writes) s₁.only_sends)),
    )

-- The slots of the trampoline, by their first byte and their length: behind the marker of a table
-- stand its limit, of two bytes, and its base.
abbrev pub spans : Offsets → List (ℕ × ℕ)
spans o =
    (o.o_cr3, 8)
    ∷ (o.o_gdt, 2)
    ∷ (o.o_gdt + 2, 8)
    ∷ (o.o_idt, 2)
    ∷ (o.o_idt + 2, 8)
    ∷ (o.o_stack, 8)
    ∷ (o.o_cpu, 8)
    ∷ (o.o_entry, 8)
    ∷ []

abbrev pub within : ℕ → List (ℕ × ℕ) → Bool
within n [] = true
within n ((off, len) ∷ ss) = leb (off + len) n && within n ss

abbrev pub disjoint_all : ℕ × ℕ → List (ℕ × ℕ) → Bool
disjoint_all (off, len) [] = true
disjoint_all (off, len) ((off', len') ∷ ss) =
    (leb (off + len) off' || leb (off' + len') off) && disjoint_all (off, len) ss

abbrev pub disjoint : List (ℕ × ℕ) → Bool
disjoint [] = true
disjoint (s ∷ ss) = disjoint_all s ss && disjoint ss

abbrev pub OffSpans : ℕ → List (ℕ × ℕ) → Type 0
OffSpans j [] = Unit {0}
OffSpans j ((off, len) ∷ ss) = ((j < off) ⊎ (off + len ≤ j)) × OffSpans j ss

patches-within : (o : Offsets) (s : Slots) → fits 4096 (patches o s) ≡ within 4096 (spans o)
unfolding le_bytes
patches-within o s = refl

patches-disjoint : (o : Offsets) (s : Slots) → separate (patches o s) ≡ disjoint (spans o)
unfolding le_bytes
patches-disjoint o s = refl

patches-Outside : (o : Offsets) (s : Slots) (j : ℕ) → OffSpans j (spans o) → Outside j (patches o s)
unfolding le_bytes
patches-Outside o s j h = h

-- The values of a core in the slots: the kernel's page table, seven descriptors of the core's GDT,
-- 256 gates of its IDT, its stack, its number and the entry point.
pub record OwnValues (b : Board) (o : Offsets) (cpu stk : ℕ) (blob : List ℕ) : Type 0 where
  pub page_table : Holds blob o.o_cr3 (le_bytes 8 b.cr3)
  pub gdt_limit : Holds blob o.o_gdt (le_bytes 2 (7 * 8 - 1))
  pub gdt_base : Holds blob (o.o_gdt + 2) (le_bytes 8 (b.gdt_at cpu))
  pub idt_limit : Holds blob o.o_idt (le_bytes 2 (256 * 16 - 1))
  pub idt_base : Holds blob (o.o_idt + 2) (le_bytes 8 (b.idt_at cpu))
  pub stack_top : Holds blob o.o_stack (le_bytes 8 (stk + stack_size))
  pub number : Holds blob o.o_cpu (le_bytes 8 cpu)
  pub entry_point : Holds blob o.o_entry (le_bytes 8 b.entry)

AllHold-OwnValues :
    (b : Board) (o : Offsets) (cpu stk : ℕ) (blob : List ℕ)
    → AllHold blob (patches o (slots_of b cpu (stk + stack_size)))
    → OwnValues b o cpu stk blob
AllHold-OwnValues b o cpu stk blob (h1, (h2, (h3, (h4, (h5, (h6, (h7, (h8, _)))))))) = record {
  page_table = h1;
  gdt_limit = h2;
  gdt_base = h3;
  idt_limit = h4;
  idt_base = h5;
  stack_top = h6;
  number = h7;
  entry_point = h8;
}

copy-at :
    (n : ℕ) (xs ys : List ℕ) (j : ℕ)
    → j < n
    → j < length xs
    → get_elem? (take n xs ++ ys) j ≡ get_elem? xs j
copy-at n [] ys j h k = absurd (omega arith)
copy-at zero (x ∷ xs) ys j h k = absurd (omega arith)
copy-at (suc n) (x ∷ xs) ys zero h k = refl
copy-at (suc n) (x ∷ xs) ys (suc j) h k = copy-at n xs ys j (omega arith) (omega arith)

-- What a started core finds: its stack, a trampoline at 0x8000 whose slots hold its own values and
-- which is the trampoline elsewhere, and the commands INIT, SIPI and SIPI for the page of the
-- trampoline.
pub record Started (b : Board) (o : Offsets) (cpu stk k : ℕ) (m : Machine) (r : Option Machine)
    : Type 0 where
  pub after : Machine
  pub ends : r ≡ some after
  pub stack : (after.cpus cpu).stack_top ≡ stk + stack_size
  pub blob : List ℕ
  pub long : length blob ≡ 4096
  pub slots : OwnValues b o cpu stk blob
  pub elsewhere :
      (j : ℕ)
      → j < min (length b.trampoline) 4096
      → OffSpans j (spans o)
      → get_elem? blob j ≡ get_elem? b.trampoline j
  pub placed : after.mem (0x8000 + k) ≡ get_or blob k 0
  pub commands :
      after.apic.writes
      ≡ command_words (b.cpu_apic_ids cpu) 0x608
        ++ (command_words (b.cpu_apic_ids cpu) 0x608
            ++ (command_words (b.cpu_apic_ids cpu) 0x500 ++ m.apic.writes))

placed-byte :
    (blob : List ℕ) (n k : ℕ) (m : Machine)
    → k < n
    → (place_blob blob n m).mem (0x8000 + k) ≡ get_or blob k 0
placed-byte blob n k m h =
    let same : 0x8000 + k - 0x8000 ≡ k = omega arith in
    let low : leb 0x8000 (0x8000 + k) ≡ true = ground arith in
    let high : ltb (0x8000 + k) (0x8000 + n) ≡ true = ground arith in rw (low, high, same) refl

-- With a stack from the heap, with the markers found in the trampoline and slots behind them that
-- neither overlap nor leave its 4096 bytes, and with a local APIC that is found idle at one of any
-- `fuel` reads in a row, `boot_ap` neither panics nor hangs: the core has the end of the stack as
-- its stack top; a copy of the trampoline, in which the slots hold the core's own values (the page
-- table, the limit and the base of its GDT and of its IDT, its stack, its number and the entry) and
-- every other byte of the trampoline's length is its own, stands at 0x8000 for the trampoline's
-- length; and the commands written for the core's identification are INIT and
-- two SIPIs for the page 8, which is 0x8000.
pub boot_ap-Started :
    (b : Board) (o : Offsets) (cpu stk k : ℕ) (m : Machine)
    → stk ≢ 0
    → find_offsets (private_copy b.trampoline) ≡ some o
    → within 4096 (spans o) ≡ true
    → disjoint (spans o) ≡ true
    → BecomesIdle b.fuel b.icr
    → k < min (length b.trampoline) 4096
    → Started b o cpu stk k m (boot_ap b cpu stk m)
unfolding boot_ap
boot_ap-Started b o cpu stk k m h found f sep idle l =
    let own = slots_of b cpu (stk + stack_size) in
    let (blob, patched, long, slots, untouched) =
      patch-AllHold own o b.trampoline found (patches-within o own ∙ f)
        (patches-disjoint o own ∙ sep) in
    let placed =
      place_blob blob (min (length b.trampoline) 4096) (set_stack cpu (stk + stack_size) m) in
    let (a, woken, writes) = wake-writes b (b.cpu_apic_ids cpu) placed.apic idle in
    record {
      after = record placed { apic = a };
      ends = rw (ne→== stk 0 h, patched, woken) refl;
      stack = ground arith;
      blob = blob;
      long = long;
      slots = AllHold-OwnValues b o cpu stk blob slots;
      elsewhere = λ j h free.
          untouched j (patches-Outside o own j free)
          ∙ copy-at 4096 b.trampoline (replicate (4096 - length b.trampoline) 0) j (omega arith)
              (omega arith);
      placed =
          placed-byte blob (min (length b.trampoline) 4096) k (set_stack cpu (stk + stack_size) m)
            l;
      commands = writes;
    }
