-- ===== src/Input.antt =====
-- The PS/2 keyboard of src/hal/input.rs: the ring buffer that the interrupt handler fills and
-- `getchar` empties, the scancode table and the handler `irq1_handler`. A byte is a number; the
-- port 0x60 is the handler's argument, the byte it reads. The controller's start-up in `init_impl`
-- is port output and is left out.
pub mod Queue
pub mod Keys
mod Tests
use planck_os.Prelude.{
  ℕ, ◌+◌, ◌-◌, ◌/◌, ◌%◌, Bool, true, false, ◌||◌, Option, none, some, ◌==◌, leb, if◌then◌else◌,
  update, List, [], ◌∷◌,
}

pub record RingBuf : Type 0 where
  pub buf : ℕ → ℕ
  pub head : ℕ
  pub tail : ℕ

-- `BUF_SZ`
abbrev pub buf_sz : ℕ
buf_sz = 256

pub record Keyboard : Type 0 where
  pub kb_buf : RingBuf
  pub shift : ℕ
  pub ctrl : ℕ
  pub extended : Bool
  pub release : Bool

abbrev pub shift_mask : ℕ
shift_mask = 1

abbrev pub ctrl_mask : ℕ
ctrl_mask = 2

-- `fetch_or` and `fetch_and` of a mask of one bit and of its complement.
abbrev pub fetch_or : ℕ → ℕ → ℕ
fetch_or x mask = if x / mask % 2 == 1 then x else x + mask

abbrev pub fetch_clear : ℕ → ℕ → ℕ
fetch_clear x mask = if x / mask % 2 == 1 then x - mask else x

-- `SCANCODE_SET2`: a scancode with its character and the one under shift. The entries that it
-- leaves out are zero.
abbrev pub scancode_set2 : List (ℕ × (ℕ × ℕ))
scancode_set2 =
    (0x0D, (9, 9))
    ∷ (0x0E, (96, 126))
    ∷ (0x15, (113, 81))
    ∷ (0x16, (49, 33))
    ∷ (0x1A, (122, 90))
    ∷ (0x1B, (115, 83))
    ∷ (0x1C, (97, 65))
    ∷ (0x1D, (119, 87))
    ∷ (0x1E, (50, 64))
    ∷ (0x21, (99, 67))
    ∷ (0x22, (120, 88))
    ∷ (0x23, (100, 68))
    ∷ (0x24, (101, 69))
    ∷ (0x25, (52, 36))
    ∷ (0x26, (51, 35))
    ∷ (0x29, (32, 32))
    ∷ (0x2A, (118, 86))
    ∷ (0x2B, (102, 70))
    ∷ (0x2C, (116, 84))
    ∷ (0x2D, (114, 82))
    ∷ (0x2E, (53, 37))
    ∷ (0x31, (110, 78))
    ∷ (0x32, (98, 66))
    ∷ (0x33, (104, 72))
    ∷ (0x34, (103, 71))
    ∷ (0x35, (121, 89))
    ∷ (0x36, (54, 94))
    ∷ (0x3A, (109, 77))
    ∷ (0x3B, (106, 74))
    ∷ (0x3C, (117, 85))
    ∷ (0x3D, (55, 38))
    ∷ (0x3E, (56, 42))
    ∷ (0x41, (44, 60))
    ∷ (0x42, (107, 75))
    ∷ (0x43, (105, 73))
    ∷ (0x44, (111, 79))
    ∷ (0x45, (48, 41))
    ∷ (0x46, (57, 40))
    ∷ (0x49, (46, 62))
    ∷ (0x4A, (47, 63))
    ∷ (0x4B, (108, 76))
    ∷ (0x4C, (59, 58))
    ∷ (0x4D, (112, 80))
    ∷ (0x4E, (45, 95))
    ∷ (0x52, (39, 34))
    ∷ (0x54, (91, 123))
    ∷ (0x55, (61, 43))
    ∷ (0x5B, (93, 125))
    ∷ (0x5A, (10, 10))
    ∷ (0x61, (92, 124))
    ∷ (0x66, (8, 8))
    ∷ (0x76, (27, 27))
    ∷ []

pub entry_of : List (ℕ × (ℕ × ℕ)) → ℕ → ℕ × ℕ
entry_of [] idx = (0, 0)
entry_of (row ∷ rows) idx = if row.0 == idx then row.1 else entry_of rows idx

pub scancode_to_ascii : ℕ → ℕ → Option ℕ
scancode_to_ascii shift scancode =
    if leb 128 scancode
    then none
    else let row = entry_of scancode_set2 scancode in
      let c = if shift / shift_mask % 2 == 1 then row.1 else row.0 in
      if c == 0 then none else some c

pub push_char : ℕ → RingBuf → RingBuf
push_char c r =
    let next = (r.head + 1) % buf_sz in
    if next == r.tail then r else record r { buf = update r.buf r.head c; head = next }

-- One round of the loop of `getchar_impl`: the character and the buffer without it, or `none`,
-- after which the loop spins.
pub getchar : RingBuf → Option (ℕ × RingBuf)
getchar r =
    if r.tail == r.head
    then none
    else some (r.buf r.tail, record r { tail = (r.tail + 1) % buf_sz })

-- The key of a release, after 0xF0.
abbrev pub released : ℕ → Keyboard → Keyboard
released code k =
    if (code == 0x12) || (code == 0x59)
    then record k { shift = fetch_clear k.shift shift_mask }
    else if code == 0x14
    then record k { ctrl = fetch_clear k.ctrl ctrl_mask }
    else k

-- The token of an extended key: up, down, left, right.
abbrev pub token_of : ℕ → Option ℕ
token_of code =
    if code == 0x75
    then some 1
    else if code == 0x72
    then some 2
    else if code == 0x6B
    then some 3
    else if code == 0x74
    then some 4
    else none

abbrev pub push_some : Option ℕ → RingBuf → RingBuf
push_some none r = r
push_some (some c) r = push_char c r

abbrev pub pressed : ℕ → Keyboard → Keyboard
pressed code k =
    if (code == 0x12) || (code == 0x59)
    then record k { shift = fetch_or k.shift shift_mask }
    else if code == 0x14
    then record k { ctrl = fetch_or k.ctrl ctrl_mask }
    else record k { kb_buf = push_some (scancode_to_ascii k.shift code) k.kb_buf }

pub irq1_handler : ℕ → Keyboard → Keyboard
irq1_handler scancode k =
    if scancode == 0xE0
    then record k { extended = true }
    else if scancode == 0xF0
    then record k { release = true }
    else if k.release
    then record (released scancode k) { release = false; extended = false }
    else if k.extended
    then record k { extended = false; kb_buf = push_some (token_of scancode) k.kb_buf }
    else record (pressed scancode k) { extended = false }

-- The interrupts of a sequence of bytes.
unfoldable pub run_irqs : List ℕ → Keyboard → Keyboard
run_irqs [] k = k
run_irqs (b ∷ bs) k = run_irqs bs (irq1_handler b k)
