-- ===== src/Input/Tests.antt =====
-- The theorems of src/hal/input.rs at a buffer that is full and at a keyboard at rest.
use planck_os.Prelude.{◌≡◌, false, [], ◌∷◌, ◌++◌, arith, if◌then◌else◌, ltb, length}
use planck_os.Input.{RingBuf, Keyboard, push_char, getchar, run_irqs}
use planck_os.Input.Queue.{contents, Takes, push_char-contents, getchar-contents}
use planck_os.Input.Keys.{run_irqs-release}

abbrev wrapped : RingBuf
wrapped = record { buf = λ j. j; head = 1; tail = 254 }

abbrev at_rest : Keyboard
at_rest = record { kb_buf = wrapped; shift = 0; ctrl = 0; extended = false; release = false }

push_char-contents_example : contents (push_char 97 wrapped) ≡ (
    if ltb (length (contents wrapped)) 255 then contents wrapped ++ (97 ∷ []) else contents wrapped)
push_char-contents_example = push_char-contents 97 wrapped (omega arith, omega arith)

getchar-contents_example : Takes (contents wrapped) (getchar wrapped)
getchar-contents_example = getchar-contents wrapped (omega arith, omega arith)

run_irqs-release_example :
    let t = run_irqs (0xF0 ∷ 0x1C ∷ []) at_rest in
    let u = run_irqs (0xE0 ∷ 0xF0 ∷ 0x1C ∷ []) at_rest in
    ((t.kb_buf ≡ wrapped) × ((t.release ≡ false) × (t.extended ≡ false)))
    × ((u.kb_buf ≡ wrapped) × ((u.release ≡ false) × (u.extended ≡ false)))
run_irqs-release_example = run_irqs-release 0x1C at_rest (omega arith) (omega arith)
