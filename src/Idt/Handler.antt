-- ===== src/Idt/Handler.antt =====
-- `idt_handler` of src/hal/idt.rs: what an interrupt does on a core. The scancode is what the
-- keyboard's port gives. A fault does not return.
pub mod Counts
use planck_os.Prelude.{ℕ, zero, suc, ◌+◌, ◌%◌, ◌^◌, ◌==◌, if◌then◌else◌, List, [], ◌∷◌, ◌++◌}
use planck_os.Prelude.{◌^◌, codes}
use planck_os.Input.{Keyboard, irq1_handler}
use planck_os.Apic.{eoi}
use planck_os.Serial.{hex_digit, shr_nibbles}
use planck_os.Smp.Boot.{Machine, handle_ipi}

-- `TICK_COUNT`, the keyboard, and the cores.
pub record Kernel : Type 0 where
  pub tick_count : ℕ
  pub keyboard : Keyboard
  pub machine : Machine

-- The handler returns, or logs the values of a fault, prints and halts.
pub data Handled : Type 0 where
  resumes : Kernel → Handled
  halts : List (List ℕ × ℕ) → List ℕ → Handled

-- `for i in (0..i).rev()`
pub print_nibbles : ℕ → ℕ → List ℕ
print_nibbles zero val = []
print_nibbles (suc i) val = hex_digit b'A' (shr_nibbles i val % 16) ∷ print_nibbles i val

abbrev pub print_hex : ℕ → List ℕ
print_hex val = print_nibbles 16 val

-- `cr2` and `cr3` are what the two registers hold.
pub fault : ℕ → ℕ → ℕ → ℕ → ℕ → Handled
fault cpu cr2 cr3 int_no error_code =
    let page : List (List ℕ × ℕ) = (codes "CR2 = ", cr2) ∷ (codes "CR3 = ", cr3) ∷ [] in
    halts
      ((codes "exception #", int_no)
        ∷ (codes "error code ", error_code)
        ∷ (if int_no == 14 then page else []))
      (if cpu == 0
        then codes "EXC #"
          ++ (print_hex int_no ++ (codes " ERR=" ++ (print_hex error_code ++ codes " -- HALT\n")))
        else [])

abbrev pub acknowledge : Machine → Machine
acknowledge m = record m { apic = eoi m.apic }

-- On the core `cpu`.
pub idt_handler : ℕ → ℕ → ℕ → ℕ → ℕ → ℕ → Kernel → Handled
idt_handler cpu scancode cr2 cr3 int_no error_code k =
    if int_no == 32
    then resumes
        (record k { tick_count = (k.tick_count + 1) % 2 ^ 64; machine = acknowledge k.machine })
    else if int_no == 33
    then resumes
        (record k { keyboard = irq1_handler scancode k.keyboard; machine = acknowledge k.machine })
    else if int_no == 64
    then resumes (record k { machine = acknowledge (handle_ipi cpu k.machine) })
    else fault cpu cr2 cr3 int_no error_code
