-- ===== src/Serial/Text.antt =====
-- The text of a log line of src/hal/serial.rs.
use planck_os.Prelude.{
  bind, ℕ, zero, suc, ◌+◌, ◌-◌, ◌/◌, ◌%◌, ◌^◌, ◌≤◌, ◌<◌, ◌≡◌, min, refl, sym, ap, ap₂, ◌∙◌, Bool,
  true, some, ltb, update, List, [], ◌∷◌, ◌++◌, length, take, arith, inl, inr, Bool-cases,
  update_self, update_ne, lt→ltb, slice, slice-cong, slice-snoc, length-append,
}
use planck_os.Prelude.{replicate, length-take}
use planck_os.Serial.{
  Line, Logger, put, put_str, put_pad, put_dec, count_digits, put_cpu, put_tag, put_time, put_nul,
  log_line, log_ms, serial_debug, msg_copy,
}
use mathlib.Core.List.{append_assoc, append-nil}
use mathlib.Core.Path.{subst}
use planck_os.Serial.Numbers.{IsNumeral, put_dec-read_dec}

-- A name cut to six bytes, or padded to them.
abbrev pub padded : List ℕ → List ℕ
padded s = take 6 s ++ replicate (6 - min (length s) 6) b' '

abbrev pub tag : List ℕ → List ℕ
tag s = (b'[' ∷ []) ++ (padded s ++ (b']' ∷ b' ' ∷ []))

abbrev pub cpu_tag : List ℕ → List ℕ
cpu_tag cpu = (b'[' ∷ b'C' ∷ b'P' ∷ b'U' ∷ []) ++ (cpu ++ (replicate (6 - (3 + length cpu)) b' '))

abbrev pub time_text : List ℕ → List ℕ → List ℕ
time_text whole tenth =
    (b' ' ∷ b'(' ∷ [])
    ++ (whole ++ ((b'.' ∷ []) ++ (tenth ++ (b' ' ∷ b'm' ∷ b's' ∷ b')' ∷ b'\r' ∷ b'\n' ∷ []))))

-- `[CPU0  ] [part  ] [sub   ] msg (12.3 ms)` with the end of the line.
abbrev pub log_text : List ℕ → List ℕ → List ℕ → List ℕ → List ℕ → List ℕ → List ℕ
log_text cpu part sub msg whole tenth =
    cpu_tag cpu ++ ((b']' ∷ b' ' ∷ []) ++ (tag part ++ (tag sub ++ (msg ++ time_text whole tenth))))

put_str-append : (xs ys : List ℕ) (l : Line) → put_str (xs ++ ys) l ≡ put_str ys (put_str xs l)
unfolding put_str
put_str-append [] ys l = refl
put_str-append (x ∷ xs) ys l = put_str-append xs ys (put x l)

put_tag-tag : (s : List ℕ) (l : Line) → put_tag s l ≡ put_str (tag s) l
unfolding put_str put_pad
put_tag-tag s l =
    let end : List ℕ = b']' ∷ b' ' ∷ [] in
    let start = put b'[' l in
    sym (
      put_str-append (padded s) end start
      ∙ ap (put_str end) (put_str-append (take 6 s) (replicate (6 - min (length s) 6) b' ') start))

-- The bytes in front of the index are a text.
pub record Holds (t : List ℕ) (l : Line) : Type 0 where
  pub at_end : l.i ≡ length t
  pub bytes : slice l.buf 0 l.i ≡ t

put-Holds :
    (b : ℕ) (t : List ℕ) (l : Line) → length t < 224 → Holds t l → Holds (t ++ (b ∷ [])) (put b l)
unfolding put
put-Holds b t l n h =
    let room : ltb l.i 224 ≡ true = lt→ltb l.i 224 (omega (arith, h.at_end)) in
    let buf = update l.buf l.i b in
    let one : l.i + 1 ≡ suc l.i = omega arith in
    let bytes : slice buf 0 (l.i + 1) ≡ t ++ (b ∷ []) =
      ap (slice buf 0) one
      ∙ slice-snoc buf 0 l.i
      ∙ ap₂ (λ x c. x ++ (c ∷ []))
          (slice-cong buf l.buf 0 0 l.i (λ j m. update_ne l.buf l.i (0 + j) b (omega arith))
            ∙ h.bytes)
          (ap buf (omega arith) ∙ update_self l.buf l.i b) in
    rw room (record { at_end = omega (arith, h.at_end, length-append t (b ∷ [])); bytes = bytes })

put_str-Holds :
    (cs t : List ℕ) (l : Line)
    → length t + length cs ≤ 224
    → Holds t l
    → Holds (t ++ cs) (put_str cs l)
unfolding put_str
put_str-Holds [] t l n h = subst (λ x. Holds x l) (sym (append-nil t)) h
put_str-Holds (c ∷ cs) t l n h =
    subst (λ x. Holds x (put_str cs (put c l))) (append_assoc t (c ∷ []) cs)
      (put_str-Holds cs (t ++ (c ∷ [])) (put c l) (omega (arith, length-append t (c ∷ [])))
        (put-Holds c t l (omega arith) h))

put_str-append_append :
    (xs ys zs : List ℕ) (l : Line)
    → put_str (xs ++ (ys ++ zs)) l ≡ put_str zs (put_str ys (put_str xs l))
put_str-append_append xs ys zs l =
    put_str-append xs (ys ++ zs) l ∙ put_str-append ys zs (put_str xs l)

put_cpu-cpu_tag :
    (cpu : ℕ) (ds : List ℕ) (l : Line)
    → ((l : Line) → put_dec cpu l ≡ some (put_str ds l))
    → count_digits 20 cpu 1 ≡ some (length ds)
    → put_cpu cpu l ≡ some (put_str (cpu_tag ds) l)
put_cpu-cpu_tag cpu ds l same count =
    let start : List ℕ = b'[' ∷ b'C' ∷ b'P' ∷ b'U' ∷ [] in
    rw (same (put_str start l), count)
      (ap some (sym (put_str-append_append start ds (replicate (6 - (3 + length ds)) b' ') l)))

put_time-time_text :
    (ms10 : ℕ) (ds es : List ℕ) (l : Line)
    → ((l : Line) → put_dec (ms10 / 10) l ≡ some (put_str ds l))
    → ((l : Line) → put_dec (ms10 % 10) l ≡ some (put_str es l))
    → put_time ms10 l ≡ some (put_str (time_text ds es) l)
unfolding put_str
put_time-time_text ms10 ds es l same tenth =
    let start = put b'(' (put b' ' l) in
    let end : List ℕ = b' ' ∷ b'm' ∷ b's' ∷ b')' ∷ b'\r' ∷ b'\n' ∷ [] in
    rw (same start, tenth (put b'.' (put_str ds start)))
      (ap some (
        sym (
          put_str-append ds (b'.' ∷ (es ++ end)) start
          ∙ put_str-append es end (put b'.' (put_str ds start)))))

-- The text up to the message.
log_line-log_text :
    (utf8 : List ℕ → Bool) (cpu : ℕ) (part sub msg : List ℕ) (ms10 : ℕ) (buf : ℕ → ℕ)
    (c ds es : List ℕ)
    → ((l : Line) → put_cpu cpu l ≡ some (put_str (cpu_tag c) l))
    → ((l : Line) → put_time ms10 l ≡ some (put_str (time_text ds es) l))
    → log_line utf8 cpu part sub msg ms10 buf
      ≡ put_nul
          (put_str (log_text c part sub (msg_copy utf8 msg) ds es) (record { buf = buf; i = 0 }))
unfolding log_line
log_line-log_text utf8 cpu part sub msg ms10 buf c ds es same time =
    let l : Line = record { buf = buf; i = 0 } in
    let after = put_str (b']' ∷ b' ' ∷ []) (put_str (cpu_tag c) l) in
    let m = msg_copy utf8 msg in
    let tags : put_tag sub (put_tag part after) ≡ put_str (tag sub) (put_str (tag part) after) =
      put_tag-tag sub (put_tag part after) ∙ ap (put_str (tag sub)) (put_tag-tag part after) in
    let end = time_text ds es in
    let named = put_str (tag sub) (put_str (tag part) after) in
    let whole : put_str (log_text c part sub m ds es) l ≡ put_str end (put_str m named) =
      put_str-append_append (cpu_tag c) (b']' ∷ b' ' ∷ []) (tag part ++ (tag sub ++ (m ++ end))) l
      ∙ put_str-append_append (tag part) (tag sub) (m ++ end) after
      ∙ put_str-append m end named in
    rw (same l) (
      ap (λ x. bind (put_time ms10 (put_str m x)) put_nul) tags
      ∙ ap (λ o. bind o put_nul) (time (put_str m named))
      ∙ ap put_nul (sym whole))

length-replicate : (n a : ℕ) → length (replicate n a) ≡ n
length-replicate zero a = refl
length-replicate (suc n) a = ap suc (length-replicate n a)

length-padded : (s : List ℕ) → length (padded s) ≡ 6
length-padded s = omega (
  arith,
  length-append (take 6 s) (replicate (6 - min (length s) 6) b' '),
  length-take 6 s,
  length-replicate (6 - min (length s) 6) b' ',
)

length-tag : (s : List ℕ) → length (tag s) ≡ 9
length-tag s = omega (arith, length-append (padded s) (b']' ∷ b' ' ∷ []), length-padded s)

length-cpu_tag : (c : List ℕ) → length c ≤ 20 → length (cpu_tag c) ≤ 26
length-cpu_tag c h =
    let pad : List ℕ = replicate (6 - (3 + length c)) b' ' in
    omega (arith, length-append c pad, length-replicate (6 - (3 + length c)) b' ')

length-time_text :
    (ds es : List ℕ) → length ds ≤ 20 → length es ≤ 20 → length (time_text ds es) ≤ 49
length-time_text ds es h k =
    let end : List ℕ = b' ' ∷ b'm' ∷ b's' ∷ b')' ∷ b'\r' ∷ b'\n' ∷ [] in
    omega (arith, length-append ds (b'.' ∷ (es ++ end)), length-append es end)

length-msg_copy : (utf8 : List ℕ → Bool) (msg : List ℕ) → length (msg_copy utf8 msg) ≤ 112
length-msg_copy utf8 msg = elim (Bool-cases (utf8 (take 112 msg))) [
  | inl e ↦ rw e (omega (arith, length-take 112 msg))
  | inr e ↦ rw e (omega arith)
]

length-log_text :
    (c part sub msg ds es : List ℕ)
    → length c ≤ 20
    → length ds ≤ 20
    → length es ≤ 20
    → length msg ≤ 112
    → length (log_text c part sub msg ds es) < 224
length-log_text c part sub msg ds es i j k n =
    let end = time_text ds es in
    let named = tag sub ++ (msg ++ end) in
    let rest = (b']' ∷ b' ' ∷ []) ++ (tag part ++ named) in
    omega (
      arith,
      length-append (cpu_tag c) rest,
      length-append (tag part) named,
      length-append (tag sub) (msg ++ end),
      length-append msg end,
      length-cpu_tag c i,
      length-tag part,
      length-tag sub,
      length-time_text ds es j k,
    )

Holds-nil : (buf : ℕ → ℕ) → Holds [] (record { buf = buf; i = 0 })
Holds-nil buf = record { at_end = refl; bytes = refl }

-- A text that fits is in the buffer, with the NUL behind it.
put_nul-Holds :
    (t : List ℕ) (buf : ℕ → ℕ)
    → length t < 224
    → (l : Line) × (put_nul (put_str t (record { buf = buf; i = 0 })) ≡ some l) × Holds t l
put_nul-Holds t buf n =
    let l = put_str t (record { buf = buf; i = 0 }) in
    let h = put_str-Holds t [] (record { buf = buf; i = 0 }) (omega arith) (Holds-nil buf) in
    let room : ltb l.i 224 ≡ true = lt→ltb l.i 224 (omega (arith, h.at_end)) in
    (
      record l { buf = update l.buf l.i 0 },
      rw room refl,
      record {
        at_end = h.at_end;
        bytes =
            slice-cong (update l.buf l.i 0) l.buf 0 0 l.i
              (λ j m. update_ne l.buf l.i (0 + j) 0 (omega arith))
            ∙ h.bytes;
      },
    )

log_ms-Holds :
    (utf8 : List ℕ → Bool) (cpu : ℕ) (part sub msg : List ℕ) (ms10 : ℕ) (g : Logger) (t : List ℕ)
    (l : Line)
    → log_line utf8 cpu part sub msg ms10 g.log_buf ≡ some l
    → Holds t l
    → log_ms utf8 cpu part sub msg ms10 g ≡ some (record g { log_buf = l.buf }, serial_debug t)
unfolding log_ms
log_ms-Holds utf8 cpu part sub msg ms10 g t l e h =
    rw e (ap (λ x. some (record g { log_buf = l.buf }, serial_debug x)) h.bytes)

-- `log_ms` does not panic and does not cut its line, whatever the names, the message and the state
-- are: for a core and a time of 64 bits the port gets, up to a NUL, the tags of core, part and
-- subsystem, the message of at most 112 bytes, and the time in milliseconds with one decimal.
pub log_ms-log_text :
    (utf8 : List ℕ → Bool) (cpu : ℕ) (part sub msg : List ℕ) (ms10 : ℕ) (g : Logger)
    → cpu < 2 ^ 64
    → ms10 < 2 ^ 64
    → (c ds es : List ℕ) × (buf : ℕ → ℕ) × IsNumeral cpu c
      × IsNumeral (ms10 / 10) ds
      × IsNumeral (ms10 % 10) es
      × (log_ms utf8 cpu part sub msg ms10 g
          ≡ some (
            record g { log_buf = buf },
            serial_debug (log_text c part sub (msg_copy utf8 msg) ds es),
          ))
log_ms-log_text utf8 cpu part sub msg ms10 g p q =
    let (c, same, numeral, count) = put_dec-read_dec cpu p in
    let (ds, whole, whole_numeral, _) = put_dec-read_dec (ms10 / 10) (omega arith) in
    let (es, tenth, tenth_numeral, _) = put_dec-read_dec (ms10 % 10) (omega arith) in
    let text = log_text c part sub (msg_copy utf8 msg) ds es in
    let short =
      length-log_text c part sub (msg_copy utf8 msg) ds es numeral.short whole_numeral.short
        tenth_numeral.short (length-msg_copy utf8 msg) in
    let (l, e, h) = put_nul-Holds text g.log_buf short in
    let line =
      log_line-log_text utf8 cpu part sub msg ms10 g.log_buf c ds es
        (λ l. put_cpu-cpu_tag cpu c l same count)
        (λ l. put_time-time_text ms10 ds es l whole tenth) in
    (
      c,
      ds,
      es,
      l.buf,
      numeral,
      whole_numeral,
      tenth_numeral,
      log_ms-Holds utf8 cpu part sub msg ms10 g text l (line ∙ e) h,
    )
