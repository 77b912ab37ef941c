-- ===== src/Shell/History.antt =====
-- Bounds of the line editor in src/shell/mod.rs, and its history.
use planck_os.Prelude.{
  slice, slice-cong, ℕ, zero, suc, ◌+◌, ◌-◌, ◌≤◌, ◌<◌, ◌≡◌, min, refl, sym, ap, ap₂, ◌∙◌, Bool,
  true, false, ◌||◌, Option, none, some, ◌==◌, ltb, if◌then◌else◌, update, [], arith, inl, inr,
  Bool-cases, update_ne, ne→==,
}
use mathlib.Core.Path.{subst}
use planck_os.Shell.{
  Shell, copy_prefix, shift_right, history_push, history_get, history_len, history_back,
  history_forward, max_cmd, history_size, recalled, redrawn, is_printable, press, backspace,
  type_char, left_arrow, right_arrow,
}
use planck_os.Shell.Line.{shift_right-at}

-- The cursor is on the line, and the line in its buffer of 256 bytes.
pub record IsBounded (s : Shell) : Type 0 where
  pub on_line : s.cursor_pos ≤ s.len
  pub in_buffer : s.len ≤ 256

recalled-IsBounded : (i : ℕ) (s : Shell) → IsBounded (recalled i s)
recalled-IsBounded i s = record { on_line = omega arith; in_buffer = omega arith }

recalled_if-IsBounded :
    (b : Bool) (cols i : ℕ) (s : Shell)
    → IsBounded s
    → IsBounded (if b then redrawn cols (recalled i s) else (s, [])).0
recalled_if-IsBounded true cols i s h = recalled-IsBounded i s
recalled_if-IsBounded false cols i s h = h

history_back-IsBounded :
    (cols : ℕ) (o : Option ℕ) (s : Shell) → IsBounded s → IsBounded (history_back cols o s).0
history_back-IsBounded cols none s h = recalled_if-IsBounded (ltb 0 s.history_count) cols 0 s h
history_back-IsBounded cols (some i) s h =
    recalled_if-IsBounded (ltb (i + 1) s.history_count) cols (i + 1) s h

history_forward-IsBounded :
    (cols : ℕ) (o : Option ℕ) (s : Shell) → IsBounded s → IsBounded (history_forward cols o s).0
history_forward-IsBounded cols none s h = h
history_forward-IsBounded cols (some zero) s h = record {
  on_line = omega arith;
  in_buffer = omega arith;
}
history_forward-IsBounded cols (some (suc i)) s h = recalled-IsBounded i s

edited-IsBounded :
    (cols c : ℕ) (s : Shell)
    → cols ≤ 258
    → IsBounded s
    → IsBounded (backspace cols s).0
      × IsBounded (left_arrow s).0
      × IsBounded (right_arrow s).0
      × IsBounded (type_char cols c s).0
edited-IsBounded cols c s w h = (ground arith, ground arith, ground arith, ground arith)

-- On a display of at most 258 columns, from a cursor on the line and a line within the 256 bytes
-- of its buffer, every key but Enter keeps the cursor on the line and the line within the buffer.
pub press-IsBounded :
    (cols c : ℕ) (s : Shell) → cols ≤ 258 → IsBounded s → IsBounded (press cols c s).0
unfolding press
press-IsBounded cols c s w h =
    let (b, l, r, t) = edited-IsBounded cols c s w h in
    let back = history_back-IsBounded cols s.history_cursor s h in
    let forward = history_forward-IsBounded cols s.history_cursor s h in
    elim (Bool-cases ((c == 0x08) || (c == 0x7F))) [
      | inl e ↦ rw e b
      | inr e ↦ elim (Bool-cases (c == 0x03)) [
        | inl f ↦ rw (e, f) l
        | inr f ↦ elim (Bool-cases (c == 0x04)) [
          | inl g ↦ rw (e, f, g) r
          | inr g ↦ elim (Bool-cases (c == 0x01)) [
            | inl k ↦ rw (e, f, g, k) back
            | inr k ↦ elim (Bool-cases (c == 0x02)) [
              | inl m ↦ rw (e, f, g, k, m) forward
              | inr m ↦ elim (Bool-cases (is_printable c)) [
                | inl n ↦ rw (e, f, g, k, m, n) t
                | inr n ↦ rw (e, f, g, k, m, n) h
              ]
            ]
          ]
        ]
      ]
    ]

-- At most 64 entries.
abbrev pub IsHistory : Shell → Type 0
IsHistory s = s.history_count ≤ 64

slice-prefix : (n : ℕ) (src dst : ℕ → ℕ) → slice (copy_prefix n src dst) 0 n ≡ slice src 0 n
slice-prefix n src dst = slice-cong (copy_prefix n src dst) src 0 0 n (λ j l. ground arith)

-- The state after a line that is not empty is pushed.
pushed : (ℕ → ℕ) → ℕ → Shell → Shell
pushed buf n s =
    let max_shift = min s.history_count (history_size - 1) in
    let entries = shift_right max_shift 0 s.history_entries in
    record s {
      history_entries = update entries 0 (copy_prefix (min n max_cmd) buf (entries 0));
      history_lens = update (shift_right max_shift 0 s.history_lens) 0 (min n max_cmd);
      history_count =
          if ltb s.history_count history_size then s.history_count + 1 else s.history_count;
    }

history_push-pushed :
    (buf : ℕ → ℕ) (n : ℕ) (s : Shell) → 0 < n → history_push buf n s ≡ pushed buf n s
unfolding history_push pushed
history_push-pushed buf n s p = rw (ne→== (min n 256) 0 (omega arith)) refl

moved :
    {A : Type 0} (m : ℕ) (f : ℕ → A) (x : A) (i : ℕ)
    → i < m
    → update (shift_right m 0 f) 0 x (i + 1) ≡ f i
moved m f x i l =
    update_ne (shift_right m 0 f) 0 (i + 1) x (omega arith)
    ∙ shift_right-at m 0 f (i + 1)
    ∙ ground arith

pushed-count :
    (buf : ℕ → ℕ) (n : ℕ) (s : Shell)
    → IsHistory s
    → (pushed buf n s).history_count ≡ min (s.history_count + 1) 64
unfolding pushed
pushed-count buf n s h = ground arith

pushed-newest :
    (buf : ℕ → ℕ) (n : ℕ) (s : Shell) → history_get (pushed buf n s) 0 ≡ slice buf 0 (min n 256)
unfolding history_get pushed
pushed-newest buf n s =
    let max_shift = min s.history_count 63 in
    let old = shift_right max_shift 0 s.history_entries 0 in
    let some_entry : history_len (pushed buf n s) 0 ≡ min n 256 = ground arith in
    ap (slice (copy_prefix (min n 256) buf old) 0) some_entry ∙ slice-prefix (min n 256) buf old

pushed-older :
    (buf : ℕ → ℕ) (n : ℕ) (s : Shell) (i : ℕ)
    → IsHistory s
    → i + 1 < (pushed buf n s).history_count
    → history_get (pushed buf n s) (i + 1) ≡ history_get s i
unfolding history_get pushed
pushed-older buf n s i h l =
    let max_shift = min s.history_count 63 in
    let below : i < max_shift = ground arith in
    let len : history_len (pushed buf n s) (i + 1) ≡ history_len s i =
      ground (arith, moved max_shift s.history_lens (min n 256) i below) in
    ap₂ (λ f k. slice f 0 k)
      (moved max_shift s.history_entries
        (copy_prefix (min n 256) buf (shift_right max_shift 0 s.history_entries 0)) i below)
      len

-- In a history of at most 64 entries, a line that is not empty becomes the newest entry, cut to
-- 256 bytes. The others move by one place, and the 64th of 64 is dropped.
pub history_push-history_get :
    (buf : ℕ → ℕ) (n : ℕ) (s : Shell)
    → 0 < n
    → IsHistory s
    → let t = history_push buf n s in
      (t.history_count ≡ min (s.history_count + 1) 64)
      × (history_get t 0 ≡ slice buf 0 (min n 256))
      × ((i : ℕ) → i + 1 < t.history_count → history_get t (i + 1) ≡ history_get s i)
history_push-history_get buf n s p h =
    subst
      (λ t.
        (t.history_count ≡ min (s.history_count + 1) 64)
        × (history_get t 0 ≡ slice buf 0 (min n 256))
        × ((i : ℕ) → i + 1 < t.history_count → history_get t (i + 1) ≡ history_get s i))
      (sym (history_push-pushed buf n s p))
      (pushed-count buf n s h, pushed-newest buf n s, λ i l. pushed-older buf n s i h l)
