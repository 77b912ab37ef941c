-- ===== src/Shell.antt =====
-- The line editor and the history of src/shell/mod.rs, and the way in which it takes a line apart.
-- A key gives the new state and the bytes for the display; `cols` is the display's width. The
-- cursor of the history is `none` where the source has -1.
pub mod Line
pub mod History
pub mod Words
pub mod Redraw
pub mod Dispatch
mod Tests
use planck_os.Prelude.{
  ℕ, zero, suc, ◌+◌, ◌-◌, min, Bool, not, ◌&&◌, ◌||◌, Option, none, some, ◌==◌, ltb, leb,
  if◌then◌else◌, update, List, [], slice, ◌∷◌, ◌++◌, length, take, drop,
}

pub record Shell : Type 0 where
  pub buf : ℕ → ℕ
  pub len : ℕ
  pub cursor_pos : ℕ
  pub history_entries : ℕ → ℕ → ℕ
  pub history_lens : ℕ → ℕ
  pub history_count : ℕ
  pub history_cursor : Option ℕ

abbrev pub max_cmd : ℕ
max_cmd = 256

abbrev pub history_size : ℕ
history_size = 64

-- `for i in (from..from + left).rev() { buf[i + 1] = buf[i]; }`
pub shift_right {ℓ} : {A : Type ℓ} → ℕ → ℕ → (ℕ → A) → (ℕ → A)
shift_right zero from buf = buf
shift_right (suc left) from buf =
    shift_right left from (update buf (from + left + 1) (buf (from + left)))

-- `for i in from..from + left { buf[i - 1] = buf[i]; }`
pub shift_left : ℕ → ℕ → (ℕ → ℕ) → (ℕ → ℕ)
shift_left zero from buf = buf
shift_left (suc left) from buf = shift_left left (from + 1) (update buf (from - 1) (buf from))

-- `dst[..len].copy_from_slice(&src[..len])`
abbrev pub copy_prefix : ℕ → (ℕ → ℕ) → (ℕ → ℕ) → (ℕ → ℕ)
copy_prefix len src dst = λ j. if ltb j len then src j else dst j

pub history_push : (ℕ → ℕ) → ℕ → Shell → Shell
history_push buf n s =
    let len = min n max_cmd in
    if len == 0
    then s
    else let max_shift = min s.history_count (history_size - 1) in
      let entries = shift_right max_shift 0 s.history_entries in
      let lens = shift_right max_shift 0 s.history_lens in
      record s {
        history_entries = update entries 0 (copy_prefix len buf (entries 0));
        history_lens = update lens 0 len;
        history_count =
            if ltb s.history_count history_size then s.history_count + 1 else s.history_count;
      }

-- The length of the entry that `history_get` returns.
abbrev pub history_len : Shell → ℕ → ℕ
history_len s idx = if ltb idx s.history_count then s.history_lens idx else 0

pub history_get : Shell → ℕ → List ℕ
history_get s idx = slice (s.history_entries idx) 0 (history_len s idx)

abbrev pub spaces : ℕ → List ℕ
spaces zero = []
spaces (suc n) = b' ' ∷ spaces n

abbrev pub backspaces : ℕ → List ℕ
backspaces zero = []
backspaces (suc n) = 0x08 ∷ backspaces n

abbrev pub prompt : List ℕ
prompt = b'$' ∷ b' ' ∷ []

-- The bytes that `redraw_input` sends to the display.
pub redraw_input : ℕ → (ℕ → ℕ) → ℕ → ℕ → List ℕ
redraw_input cols buf len cursor_pos =
    (0x0D ∷ prompt)
    ++ (spaces (cols - 2 - 1)
        ++ ((0x0D ∷ prompt) ++ (slice buf 0 len ++ backspaces (len - cursor_pos))))

abbrev pub redrawn : ℕ → Shell → Shell × List ℕ
redrawn cols s = (s, redraw_input cols s.buf s.len s.cursor_pos)

-- The line becomes the history's entry `i`.
abbrev pub recalled : ℕ → Shell → Shell
recalled i s =
    let n = min (history_len s i) max_cmd in
    record s {
      history_cursor = some i;
      len = n;
      buf = copy_prefix n (s.history_entries i) s.buf;
      cursor_pos = n;
    }

abbrev pub history_back : ℕ → Option ℕ → Shell → Shell × List ℕ
history_back cols none s = if ltb 0 s.history_count then redrawn cols (recalled 0 s) else (s, [])
history_back cols (some i) s =
    if ltb (i + 1) s.history_count then redrawn cols (recalled (i + 1) s) else (s, [])

abbrev pub history_forward : ℕ → Option ℕ → Shell → Shell × List ℕ
history_forward cols none s = (s, [])
history_forward cols (some zero) s =
    redrawn cols (record s { history_cursor = none; len = 0; cursor_pos = 0 })
history_forward cols (some (suc i)) s = redrawn cols (recalled i s)

abbrev pub is_printable : ℕ → Bool
is_printable c = leb 0x20 c && ltb c 0x7F

abbrev pub backspace : ℕ → Shell → Shell × List ℕ
backspace cols s =
    if ltb 0 s.cursor_pos && ltb 0 s.len
    then redrawn cols (record s {
      buf = shift_left (s.len - s.cursor_pos) s.cursor_pos s.buf;
      cursor_pos = s.cursor_pos - 1;
      len = s.len - 1;
    })
    else (s, [])

abbrev pub type_char : ℕ → ℕ → Shell → Shell × List ℕ
type_char cols c s =
    if ltb s.len (cols - 2)
    then redrawn cols (record s {
      buf = update (shift_right (s.len - s.cursor_pos) s.cursor_pos s.buf) s.cursor_pos c;
      cursor_pos = s.cursor_pos + 1;
      len = s.len + 1;
    })
    else (s, [])

abbrev pub left_arrow : Shell → Shell × List ℕ
left_arrow s =
    if ltb 0 s.cursor_pos then (record s { cursor_pos = s.cursor_pos - 1 }, 0x08 ∷ []) else (s, [])

abbrev pub right_arrow : Shell → Shell × List ℕ
right_arrow s =
    if ltb s.cursor_pos s.len
    then (record s { cursor_pos = s.cursor_pos + 1 }, s.buf s.cursor_pos ∷ [])
    else (s, [])

-- The `match` of `run` on a key other than Enter.
pub press : ℕ → ℕ → Shell → Shell × List ℕ
press cols c s =
    if (c == 0x08) || (c == 0x7F)
    then backspace cols s
    else if c == 0x03
    then left_arrow s
    else if c == 0x04
    then right_arrow s
    else if c == 0x01
    then history_back cols s.history_cursor s
    else if c == 0x02
    then history_forward cols s.history_cursor s
    else if is_printable c
    then type_char cols c s
    else (s, [])

-- Enter: the line goes into the history if it is not empty.
pub enter : Shell → Shell × List ℕ
enter s = (if ltb 0 s.len then history_push s.buf s.len s else s, b'\n' ∷ [])

-- The start of a round of `run`.
abbrev pub new_line : Shell → Shell
new_line s = record s { buf = λ j. 0; len = 0; cursor_pos = 0; history_cursor = none }

-- `find_space`, and `position(|&b| b == b' ')`, from the index `i` on.
pub find_space : ℕ → List ℕ → Option ℕ
find_space i [] = none
find_space i (c ∷ cs) = let rest = find_space (i + 1) cs in if c == b' ' then some i else rest

-- The command of a line and the rest of it.
pub take_apart : List ℕ → List ℕ × List ℕ
take_apart cmd = elim (find_space 0 cmd) [
  | none ↦ (cmd, [])
  | some space ↦ (take space cmd, drop (space + 1) cmd)
]

-- `args_arr[args_count] = s` for a word of valid UTF-8 that is not empty, up to 16 of them.
abbrev pub add_arg : (List ℕ → Bool) → List ℕ → List (List ℕ) → List (List ℕ)
add_arg utf8 w args =
    if utf8 w && (not (length w == 0) && ltb (length args) 16) then args ++ (w ∷ []) else args

-- The loop over `remaining`; `none` is lack of fuel.
pub split_args : ℕ → (List ℕ → Bool) → List ℕ → List (List ℕ) → Option (List (List ℕ))
split_args zero utf8 remaining args = none
split_args (suc fuel) utf8 [] args = some args
split_args (suc fuel) utf8 (c ∷ cs) args = elim (find_space 0 (c ∷ cs)) [
  | none ↦ some (add_arg utf8 (c ∷ cs) args)
  | some space ↦
      split_args fuel utf8 (drop (space + 1) (c ∷ cs)) (add_arg utf8 (take space (c ∷ cs)) args)
]
